-- ===== src/Base/Dict.antt =====
-- Go maps keyed by numbers, as association lists.
use Prim.Native.Nat.{ℕ, ◌+◌}
use mathlib.Core.Path.{◌≡◌, refl}
use mathlib.Core.Bool.{Bool, true, false}
use mathlib.Core.Logic.{inl, inr}
use mathlib.Core.List.{List, [], ◌∷◌}
use mathlib.Core.Option.{Option, none, some}
use native.Mathlib.Omega.{arith}
use nxchain.Base.Tests.{◌==◌, if◌then◌else◌, Bool-cases}
use nxchain.Base.Lists.{All}
use nxchain.Base.Sums.{sum_of}

abbrev pub Dict {ℓ} : Type ℓ → Type ℓ
Dict V = List (ℕ × V)

module _ {ℓ} {V : Type ℓ} where
  abbrev pub lookup : ℕ → Dict V → Option V
  lookup key [] = none
  lookup key ((j, held) ∷ m) = if j == key then some held else lookup key m

  -- `_, ok := m[k]`
  abbrev pub contains : ℕ → Dict V → Bool
  contains k m = elim (lookup k m) [ none ↦ false | some v ↦ true ]

  -- `m[k] = v`
  abbrev pub insert : ℕ → V → Dict V → Dict V
  insert key value [] = (key, value) ∷ []
  insert key value ((j, old) ∷ m) =
      if j == key then (key, value) ∷ m else (j, old) ∷ insert key value m

  -- `delete(m, k)`
  abbrev pub erase : ℕ → Dict V → Dict V
  erase k [] = []
  erase k ((j, w) ∷ m) = if j == k then erase k m else (j, w) ∷ erase k m

  pub lookup-insert :
      (k j : ℕ) (v : V) (m : Dict V)
      → lookup j (insert k v m) ≡ (if k == j then some v else lookup j m)
  lookup-insert k j v [] = refl
  lookup-insert k j v ((i, w) ∷ m) = ground (arith, lookup-insert k j v m)

  pub lookup-erase :
      (k j : ℕ) (m : Dict V) → lookup j (erase k m) ≡ (if k == j then none else lookup j m)
  lookup-erase k j [] = ground arith
  lookup-erase k j ((i, w) ∷ m) = ground (arith, lookup-erase k j m)

  -- Replacing an entry trades its share of a sum.
  pub sum_of-insert :
      (f : ℕ × V → ℕ) (k : ℕ) (v w : V) (m : Dict V)
      → lookup k m ≡ some w
      → sum_of f (insert k v m) + f (k, w) ≡ sum_of f m + f (k, v)
  sum_of-insert f k v w [] e = cc
  sum_of-insert f k v w ((j, u) ∷ m) e = ground (arith, sum_of-insert f k v w m)

  pub sum_of-insert_new :
      (f : ℕ × V → ℕ) (k : ℕ) (v : V) (m : Dict V)
      → lookup k m ≡ none
      → sum_of f (insert k v m) ≡ sum_of f m + f (k, v)
  sum_of-insert_new f k v [] e = omega arith
  sum_of-insert_new f k v ((j, u) ∷ m) e = ground (arith, sum_of-insert_new f k v m)

  module _ {κ} (P : ℕ × V → Type κ) where
    pub All-insert : (k : ℕ) (v : V) (m : Dict V) → P (k, v) → All P m → All P (insert k v m)
    All-insert k v [] p h = (p, tt)
    All-insert k v ((j, w) ∷ m) p h = elim (Bool-cases (j == k)) [
      | inl e ↦ rw e (p, h.1)
      | inr n ↦ rw n (h.0, All-insert k v m p h.1)
    ]

    pub All-lookup : (k : ℕ) (v : V) (m : Dict V) → lookup k m ≡ some v → All P m → P (k, v)
    All-lookup k v [] e h = cc
    All-lookup k v ((j, w) ∷ m) e h = elim (Bool-cases (j == k)) [
      | inl t ↦ ground (arith, h.0)
      | inr f ↦ All-lookup k v m (ground arith) h.1
    ]
