-- ===== src/Base/Sums.antt =====
-- Sums over lists and predicates on their entries, which no reordering changes.
use native.Mathlib.Nat.{ℕ_set}
use mathlib.Core.Logic.{∥∥₁_elim}
use mathlib.Core.List.{Permᴰ, List, [], ◌∷◌, ◌++◌, Perm}
use mathlib.Core.Path.{◌≡◌, refl, ◌∙◌, ap, subst}
use mathlib.Core.HLevel.{×_prop}
use nxchain.Base.Lists.{All}
use native.Mathlib.Omega.{arith}
use Prim.Native.Nat.{ℕ, ◌+◌}

module _ {ℓ} {A : Type ℓ} where
  abbrev pub sum_of : (A → ℕ) → List A → ℕ
  sum_of f [] = 0
  sum_of f (x ∷ xs) = f x + sum_of f xs

  pub sum_of-append : (f : A → ℕ) (xs ys : List A) → sum_of f (xs ++ ys) ≡ sum_of f xs + sum_of f ys
  sum_of-append f [] ys = omega arith
  sum_of-append f (x ∷ xs) ys = omega (arith, sum_of-append f xs ys)

  Permᴰ-sum_of : (f : A → ℕ) {xs ys : List A} → Permᴰ xs ys → sum_of f xs ≡ sum_of f ys
  Permᴰ-sum_of f Permᴰ.nil = refl
  Permᴰ-sum_of f (Permᴰ.cons e p) = omega (arith, ap f e, Permᴰ-sum_of f p)
  Permᴰ-sum_of f (Permᴰ.swap e e') = omega (arith, ap f e, ap f e')
  Permᴰ-sum_of f (Permᴰ.trans p q) = Permᴰ-sum_of f p ∙ Permᴰ-sum_of f q

  pub sum_of-perm : (f : A → ℕ) {xs ys : List A} → Perm xs ys → sum_of f xs ≡ sum_of f ys
  sum_of-perm f p = ∥∥₁_elim p (ℕ_set _ _) (Permᴰ-sum_of f)

module _ {ℓ κ} {A : Type ℓ} (P : A → Type κ) where
  Permᴰ-All : {xs ys : List A} → Permᴰ xs ys → All P xs → All P ys
  Permᴰ-All Permᴰ.nil h = tt
  Permᴰ-All (Permᴰ.cons e p) h = (subst P e h.0, Permᴰ-All p h.1)
  Permᴰ-All (Permᴰ.swap e e') h = (subst P e' h.1.0, (subst P e h.0, h.1.1))
  Permᴰ-All (Permᴰ.trans p q) h = Permᴰ-All q (Permᴰ-All p h)

  All-prop : ((x : A) → IsProp (P x)) → (xs : List A) → IsProp (All P xs)
  All-prop pp [] = hlevel
  All-prop pp (x ∷ xs) = ×_prop (pp x) (All-prop pp xs)

  pub All-perm : ((x : A) → IsProp (P x)) → {xs ys : List A} → Perm xs ys → All P xs → All P ys
  All-perm pp {ys = zs} p h = ∥∥₁_elim p (All-prop pp zs) (λ q. Permᴰ-All q h)
