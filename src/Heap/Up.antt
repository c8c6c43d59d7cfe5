-- ===== src/Heap/Up.antt =====
-- `heap.up`: the entry at `j` rises until its parent stands before it.
use mathlib.Core.List.Perm
use nxchain.Base.{
  ℕ, zero, suc, ◌≤◌, ◌<◌, ◌≡◌, ◌≢◌, Bool, true, false, List, Perm, arith, length, get_or, ◌==◌,
  Yields, yields, Yields-weaken, Yields-test, Bool-cases, inl, inr,
}
use nxchain.Base.Arrays.{exchanged, exchanged-perm, get_or-exchanged, length-exchanged}
use nxchain.Heap.{parent, up}
use nxchain.Heap.Order.{IsOrder, IsHeap, less_at-eq, swap-eq}

module _ {ℓ} {A : Type ℓ} (less : A → A → Bool) (d : A) (o : IsOrder less) where
  -- Only the entry at `j` may stand below an entry that it should precede.
  pub record Rising (j : ℕ) (xs : List A) : Type 0 where
    pub inside : j < length xs
    pub others :
        (c : ℕ)
        → 0 < c
        → c < length xs
        → c ≢ j
        → less (get_or xs c d) (get_or xs (parent c) d) ≡ false
    pub over :
        (c : ℕ)
        → 0 < c
        → c < length xs
        → 0 < j
        → parent c ≡ j
        → less (get_or xs c d) (get_or xs (parent j) d) ≡ false

  swap-Rising :
      (j : ℕ) (xs : List A)
      → 0 < j
      → Rising j xs
      → less (get_or xs j d) (get_or xs (parent j) d) ≡ true
      → Rising (parent j) (exchanged d xs (parent j) j)
  swap-Rising j xs pos r below =
      let hj = r.inside in
      let hi : parent j < length xs = omega arith in
      let at = get_or-exchanged d xs (parent j) j hi hj in
      let size = length-exchanged d xs (parent j) j hi hj in
      let x = get_or xs j d in
      let p = get_or xs (parent j) d in
      record {
        inside = omega (arith, size);
        others = λ c h k ne. ground (
          arith,
          size,
          at c,
          at (parent c),
          r.others c h,
          r.over c h,
          o.asym x p below,
          o.chain x p (get_or xs c d),
        );
        over = λ c h k q e. ground (
          arith,
          size,
          at c,
          at (parent (parent j)),
          r.others c h,
          r.others (parent j) q,
          o.chain (get_or xs (parent (parent j)) d) p (get_or xs c d),
        );
      }

  -- `up` ends, and leaves a heap of the same entries.
  pub up_restores :
      (fuel j : ℕ) (xs : List A)
      → j ≤ fuel
      → Rising j xs
      → Yields (λ ys. IsHeap less d (length ys) ys × Perm ys xs) (up less fuel j xs)
  unfolding up
  up_restores zero j xs f r = yields xs (λ c h k. ground (arith, r.others c h k), Perm.rfl)
  up_restores (suc fuel) j xs f r = elim (Bool-cases (parent j == j)) [
    | inl root ↦ rw root (yields xs (λ c h k. ground (arith, r.others c h k), Perm.rfl))
    | inr inner ↦
        let pos : 0 < j = ground arith in
        let hi : parent j < length xs = omega (arith, r.inside) in
        rw (inner, less_at-eq less d xs j (parent j) r.inside hi)
          (Yields-test (less (get_or xs j d) (get_or xs (parent j) d))
            (λ below. rw (swap-eq d xs (parent j) j hi r.inside) (
              Yields-weaken
                (up_restores fuel (parent j) (exchanged d xs (parent j) j) (omega arith)
                  (swap-Rising j xs pos r below))
                (λ ys s. (s.0, Perm.trans s.1 (exchanged-perm d xs (parent j) j hi r.inside)))))
            (λ settled. yields xs (
              λ c h k. elim (Bool-cases (c == j)) [
                | inl e ↦ ground arith
                | inr ne ↦ r.others c h k (ground arith)
              ],
              Perm.rfl,
            )))
  ]
