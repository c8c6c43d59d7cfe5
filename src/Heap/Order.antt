-- ===== src/Heap/Order.antt =====
-- Orders, the heap property of the first `n` entries, and what a sift keeps.
use nxchain.Base.{
  ℕ, zero, suc, ◌<◌, ◌≡◌, Bool, true, false, some, List, arith, length, get_or, inl, inr,
  Bool-cases,
}
use nxchain.Base.Arrays.{get_elem?-get_or, exchanged}
use nxchain.Heap.{parent, swap, less_at}

-- What the proofs need of `Less`: `less y x ≡ false` is a total preorder, "x may stand before y".
pub record IsOrder {ℓ} {A : Type ℓ} (less : A → A → Bool) : Type ℓ where
  pub asym : (x y : A) → less x y ≡ true → less y x ≡ false
  pub chain : (x y z : A) → less y x ≡ false → less z y ≡ false → less z x ≡ false

module _ {ℓ} {A : Type ℓ} (less : A → A → Bool) (d : A) where
  -- No entry among the first `n` stands before its parent.
  abbrev pub IsHeap : ℕ → List A → Type 0
  IsHeap n xs = (c : ℕ) → 0 < c → c < n → less (get_or xs c d) (get_or xs (parent c) d) ≡ false

  pub less_at-eq :
      (xs : List A) (i j : ℕ)
      → i < length xs
      → j < length xs
      → less_at less i j xs ≡ some (less (get_or xs i d) (get_or xs j d))
  unfolding less_at
  less_at-eq xs i j hi hj = rw (get_elem?-get_or d xs i hi, get_elem?-get_or d xs j hj)

  -- The root of a heap stands before every entry.
  pub root_first :
      IsOrder less
      → (k n : ℕ) (xs : List A) (c : ℕ) → c < k
      → IsHeap n xs
      → c < n
      → less (get_or xs c d) (get_or xs 0 d) ≡ false
  root_first o zero n xs c hk h hn = absurd (omega arith)
  root_first o (suc k) n xs zero hk h hn =
      elim (Bool-cases (less (get_or xs 0 d) (get_or xs 0 d))) [ inl t ↦ o.asym _ _ t | inr f ↦ f ]
  root_first o (suc k) n xs (suc c) hk h hn =
      o.chain (get_or xs 0 d) (get_or xs (parent (suc c)) d) (get_or xs (suc c) d)
        (root_first o k n xs (parent (suc c)) (omega arith) h (omega arith))
        (h (suc c) (omega arith) hn)

module _ {ℓ} {A : Type ℓ} (d : A) where
  pub swap-eq :
      (xs : List A) (i j : ℕ)
      → i < length xs
      → j < length xs
      → swap i j xs ≡ some (exchanged d xs i j)
  unfolding swap
  swap-eq xs i j hi hj = rw (get_elem?-get_or d xs i hi, get_elem?-get_or d xs j hj)
