-- ===== src/Heap/Ends.antt =====
-- `heap.Push` and `heap.Pop`.
use mathlib.Core.List.Perm
use nxchain.Base.{
  ℕ, suc, ◌-◌, ◌<◌, ◌≡◌, ◌∙◌, Bool, false, List, [], ◌∷◌, ◌++◌, Perm, arith, length, get_or, take,
  All, Yields, yields, Yields-weaken, Yields-then, some, length-append, length-take_le,
}
use nxchain.Base.Arrays.{
  exchanged, exchanged-perm, get_or-exchanged, length-exchanged, length-perm, push_back-perm,
  get_or-append, get_or-take, take-append-last, get_elem?-get_or,
}
use nxchain.Heap.{parent, push, pop, pop_last}
use nxchain.Heap.Order.{IsOrder, IsHeap, root_first, swap-eq}
use nxchain.Heap.Up.{Rising, up_restores}
use nxchain.Heap.Down.{Sinking, down_restores, Sunk}

module _ {ℓ} {A : Type ℓ} (d : A) where
  pop_last-eq :
      (xs : List A)
      → 0 < length xs
      → pop_last xs ≡ some (get_or xs (length xs - 1) d, take (length xs - 1) xs)
  unfolding pop_last
  pop_last-eq xs h = rw (get_elem?-get_or d xs (length xs - 1) (omega arith))

  All-index {κ} :
      (P : A → Type κ) (xs : List A) → ((i : ℕ) → i < length xs → P (get_or xs i d)) → All P xs
  All-index P [] h = tt
  All-index P (x ∷ xs) h = (h 0 (omega arith), All-index P xs (λ i k. h (suc i) (omega arith)))

module _ {ℓ} {A : Type ℓ} (less : A → A → Bool) (d : A) (o : IsOrder less) where
  -- The root of a heap stands before every entry.
  pub root-All :
      (xs : List A) → IsHeap less d (length xs) xs → All (λ y. less y (get_or xs 0 d) ≡ false) xs
  root-All xs h =
      All-index d (λ y. less y (get_or xs 0 d) ≡ false) xs
        (λ i k. root_first less d o (suc i) (length xs) xs i (omega arith) h k)

  push-Rising :
      (x : A) (xs : List A)
      → IsHeap less d (length xs) xs
      → Rising less d o (length xs) (xs ++ x ∷ [])
  push-Rising x xs h =
      let size = length-append xs (x ∷ []) in
      record {
        inside = omega (arith, size);
        others = λ c p q ne. ground (
          arith,
          size,
          h c,
          get_or-append d xs (x ∷ []) c,
          get_or-append d xs (x ∷ []) (parent c),
        );
        over = λ c p q z e. absurd (omega (arith, size));
      }

  -- Pushing keeps the heap and adds exactly the entry.
  pub push_correct :
      (x : A) (xs : List A)
      → IsHeap less d (length xs) xs
      → Yields (λ ys. IsHeap less d (length ys) ys × Perm ys (x ∷ xs)) (push less x xs)
  unfolding push
  push_correct x xs h =
      let last : length (xs ++ x ∷ []) - 1 ≡ length xs = omega (arith, length-append xs (x ∷ [])) in
      rw last (
        Yields-weaken
          (up_restores less d o (length xs) (length xs) (xs ++ x ∷ []) (omega arith)
            (push-Rising x xs h))
          (λ ys s. (s.0, Perm.trans s.1 (push_back-perm xs x))))

  -- What `heap.Pop` returns: the first entry of the order, and a heap of the others.
  pub record Popped (xs : List A) (r : A × List A) : Type ℓ where
    pub root : r.0 ≡ get_or xs 0 d
    pub rest : IsHeap less d (length r.1) r.1
    pub kept : Perm (r.0 ∷ r.1) xs
    pub first : All (λ y. less y r.0 ≡ false) xs

  module _ (n : ℕ) (xs : List A) (size : length xs ≡ suc n) where
    cut-Sinking : IsHeap less d (suc n) xs → Sinking less d o n 0 (exchanged d xs 0 n)
    cut-Sinking h =
        let at = get_or-exchanged d xs 0 n (omega arith) (omega arith) in
        record {
          fits = omega (arith, size, length-exchanged d xs 0 n (omega arith) (omega arith));
          others = λ c p q ne. ground (arith, at c, at (parent c), h c p);
          over = λ c p q z e. absurd (omega arith);
        }

    cut-Popped :
        (ys : List A)
        → IsHeap less d (suc n) xs
        → Sunk less d o n (exchanged d xs 0 n) ys
        → Popped xs (get_or ys n d, take n ys)
    cut-Popped ys h s =
        let perm = Perm.trans s.1 (exchanged-perm d xs 0 n (omega arith) (omega arith)) in
        let long : length ys ≡ suc n = length-perm perm ∙ size in
        let short : length (take n ys) ≡ n = length-take_le n ys (omega arith) in
        let top : get_or ys n d ≡ get_or xs 0 d =
          ground
            (arith, s.2 n (omega arith), get_or-exchanged d xs 0 n (omega arith) (omega arith) n) in
        record {
          root = top;
          rest = λ c p q.
              ground (arith, s.0 c p, get_or-take d n ys c, get_or-take d n ys (parent c), short);
          kept =
              Perm.trans (Perm.symm (push_back-perm (take n ys) (get_or ys n d)))
                (rw (take-append-last d n ys long) perm);
          first = rw top (root-All xs (rw size h));
        }

  -- Popping a non-empty heap ends, and returns an entry that no other precedes.
  pub pop_correct :
      (xs : List A)
      → 0 < length xs
      → IsHeap less d (length xs) xs
      → Yields (Popped xs) (pop less xs)
  unfolding pop
  pop_correct xs pos h =
      let n = length xs - 1 in
      let size : length xs ≡ suc n = omega arith in
      rw (swap-eq d xs 0 n (omega arith) (omega arith)) (
        Yields-then
          (down_restores less d o n n 0 (exchanged d xs 0 n) (omega arith)
            (cut-Sinking n xs size (rw (← size) h)))
          (λ ys s.
            let perm = Perm.trans s.1 (exchanged-perm d xs 0 n (omega arith) (omega arith)) in
            let long : length ys - 1 ≡ n = omega (arith, length-perm perm) in
            rw (pop_last-eq d ys (omega (arith, length-perm perm)), long)
              (yields (get_or ys n d, take n ys) (cut-Popped n xs size ys (rw (← size) h) s))))
