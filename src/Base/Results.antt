-- ===== src/Base/Results.antt =====
-- Partial results: `none` is a run-time panic of the source.
use mathlib.Core.Path.{◌≡◌, refl}
use mathlib.Core.Bool.{Bool, true, false}
use mathlib.Core.Option.{Option, none, some}
use nxchain.Base.Tests.{if◌then◌else◌}

infixl 5 ◌>>=◌
abbrev pub ◌>>=◌ {ℓ κ} : {A : Type ℓ} {B : Type κ} → Option A → (A → Option B) → Option B
none >>= f = none
some a >>= f = f a

-- The run ends with a value that satisfies `P`.
pub data Yields {ℓ κ} {A : Type ℓ} (P : A → Type κ) : Option A → Type (ℓ ⊔ κ) where
  yields : (a : A) → P a → Yields P (some a)

module _ {ℓ κ} {A : Type ℓ} {P : A → Type κ} where
  pub Yields-value : {r : Option A} → Yields P r → (a : A) × (r ≡ some a) × P a
  Yields-value (yields a p) = (a, refl, p)

  pub Yields-then {ℓ' κ'} :
      {B : Type ℓ'} {Q : B → Type κ'} {r : Option A} {f : A → Option B}
      → Yields P r
      → ((a : A) → P a → Yields Q (f a))
      → Yields Q (r >>= f)
  Yields-then (yields a p) k = k a p

  pub Yields-weaken {κ'} :
      {Q : A → Type κ'} {r : Option A} → Yields P r → ((a : A) → P a → Q a) → Yields Q r
  Yields-weaken (yields a p) k = yields a (k a p)

  pub Yields-test :
      {x y : Option A} (b : Bool)
      → (b ≡ true → Yields P x)
      → (b ≡ false → Yields P y)
      → Yields P (if b then x else y)
  Yields-test true p q = p refl
  Yields-test false p q = q refl
