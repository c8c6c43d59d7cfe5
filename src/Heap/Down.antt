-- ===== src/Heap/Down.antt =====
-- `heap.down` over the first `n` entries: the entry at `i` sinks until it stands before its children.
use mathlib.Core.List.Perm
use nxchain.Base.{
  ℕ, zero, suc, ◌+◌, ◌*◌, ◌≤◌, ◌<◌, ◌≡◌, ◌≢◌, refl, ◌∙◌, Bool, true, false, List, Perm, arith,
  length, get_or, ◌==◌, Yields, yields, Yields-weaken, Yields-test, Yields-then, Bool-cases, inl,
  inr, ◌⊎◌, ltb,
}
use nxchain.Base.Arrays.{exchanged, exchanged-perm, get_or-exchanged, length-exchanged}
use nxchain.Heap.{parent, choose, down}
use nxchain.Heap.Order.{IsOrder, IsHeap, less_at-eq, swap-eq}

module _ {ℓ} {A : Type ℓ} (less : A → A → Bool) (d : A) (o : IsOrder less) where
  -- Only the entry at `i` may stand above entries that should precede it.
  pub record Sinking (n i : ℕ) (xs : List A) : Type 0 where
    pub fits : n ≤ length xs
    pub others :
        (c : ℕ)
        → 0 < c
        → c < n
        → parent c ≢ i
        → less (get_or xs c d) (get_or xs (parent c) d) ≡ false
    pub over :
        (c : ℕ)
        → 0 < c
        → c < n
        → 0 < i
        → parent c ≡ i
        → less (get_or xs c d) (get_or xs (parent i) d) ≡ false

  -- `j` is a child of `i` that no other child of `i` precedes.
  record IsFirstChild (n i : ℕ) (xs : List A) (j : ℕ) : Type 0 where
    inside : j < n
    child : (j ≡ 2 * i + 1) ⊎ (j ≡ 2 * i + 2)
    first : (c : ℕ) → 0 < c → c < n → parent c ≡ i → less (get_or xs c d) (get_or xs j d) ≡ false

  same_first : (x : A) → less x x ≡ false
  same_first x = elim (Bool-cases (less x x)) [ inl t ↦ o.asym x x t | inr f ↦ f ]

  choose-IsFirstChild :
      (n i : ℕ) (xs : List A)
      → n ≤ length xs
      → 2 * i + 1 < n
      → Yields (IsFirstChild n i xs) (choose less i n xs)
  unfolding choose
  choose-IsFirstChild n i xs fits h =
      let l = get_or xs (2 * i + 1) d in
      let r = get_or xs (2 * i + 2) d in
      Yields-test (ltb (2 * i + 2) n)
        (λ two.
          rw (less_at-eq less d xs (2 * i + 2) (2 * i + 1) (ground arith) (ground arith))
            (elim (Bool-cases (less r l)) [
              | inl t ↦ rw t (
                  yields (2 * i + 2) (record {
                    inside = ground arith;
                    child = omega arith;
                    first = λ c p q e. elim (Bool-cases (c == 2 * i + 1)) [
                      | inl left ↦ ground (arith, o.asym r l t)
                      | inr other ↦ ground (arith, same_first r)
                    ];
                  }))
              | inr f ↦ rw f (
                  yields (2 * i + 1) (record {
                    inside = ground arith;
                    child = omega arith;
                    first = λ c p q e. elim (Bool-cases (c == 2 * i + 1)) [
                      | inl left ↦ ground (arith, same_first l)
                      | inr other ↦ ground arith
                    ];
                  }))
            ]))
        (λ one. yields (2 * i + 1) (record {
          inside = h;
          child = omega arith;
          first = λ c p q e. ground (arith, same_first l);
        }))

  swap-Sinking :
      (n i j : ℕ) (xs : List A)
      → Sinking n i xs
      → IsFirstChild n i xs j
      → less (get_or xs j d) (get_or xs i d) ≡ true
      → Sinking n j (exchanged d xs i j)
  swap-Sinking n i j xs s t below =
      let hj : j < length xs = omega (arith, s.fits, t.inside) in
      let hi : i < length xs = omega (arith, t.child) in
      let at = get_or-exchanged d xs i j hi hj in
      let size = length-exchanged d xs i j hi hj in
      let x = get_or xs i d in
      let y = get_or xs j d in
      record {
        fits = omega (arith, size, s.fits);
        others = λ c h k ne. ground (
          arith,
          at c,
          at (parent c),
          t.child,
          s.others c h k,
          s.over c h k,
          t.first c h k,
          s.over j,
          o.asym y x below,
        );
        over = λ c h k q e. ground (arith, at c, at (parent j), t.child, s.others c h k);
      }

  -- What `down` leaves: a heap of the first `n` entries, and the others as they were.
  abbrev pub Sunk : ℕ → List A → List A → Type ℓ
  Sunk n xs ys = IsHeap less d n ys × Perm ys xs × ((k : ℕ) → n ≤ k → get_or ys k d ≡ get_or xs k d)

  pub down_restores :
      (fuel n i : ℕ) (xs : List A)
      → n ≤ fuel + i
      → Sinking n i xs
      → Yields (Sunk n xs) (down less fuel i n xs)
  unfolding down
  down_restores zero n i xs f s =
      yields xs (λ c h k. s.others c h k (omega arith), Perm.rfl, λ k h. refl)
  down_restores (suc fuel) n i xs f s =
      Yields-test (ltb (2 * i + 1) n)
        (λ more. Yields-then (choose-IsFirstChild n i xs s.fits (ground arith)) λ j t.
          let hj : j < length xs = omega (arith, s.fits, t.inside) in
          let hi : i < length xs = omega (arith, t.child) in
          rw (less_at-eq less d xs j i hj hi) (
            Yields-test (less (get_or xs j d) (get_or xs i d))
              (λ below. rw (swap-eq d xs i j hi hj) (
                Yields-weaken
                  (down_restores fuel n j (exchanged d xs i j) (omega (arith, t.child))
                    (swap-Sinking n i j xs s t below))
                  (λ ys w. (
                    w.0,
                    Perm.trans w.1 (exchanged-perm d xs i j hi hj),
                    λ k h.
                        w.2 k h
                        ∙ ground (arith, get_or-exchanged d xs i j hi hj k, t.child, t.inside),
                  ))))
              (λ settled. yields xs (
                λ c h k. elim (Bool-cases (parent c == i)) [
                  | inl e ↦
                      o.chain (get_or xs (parent c) d) (get_or xs j d) (get_or xs c d)
                        (ground arith) (t.first c h k (ground arith))
                  | inr ne ↦ s.others c h k (ground arith)
                ],
                Perm.rfl,
                λ k h. refl,
              ))))
        (λ leaf. yields xs (λ c h k. s.others c h k (ground arith), Perm.rfl, λ k h. refl))
