-- ===== src/Snapshot/Headers/Lookups.antt =====
-- The snapshot store's searches stay in range on every list, and its changes keep what holds of each
-- snapshot.
use nxchain.Base.{
  ℕ, zero, suc, ◌+◌, ◌-◌, ◌/◌, ◌≤◌, ◌<◌, ◌≡◌, Bool, Option, none, some, List, [], ◌∷◌, ◌++◌, arith,
  length, get_elem?, drop, All, All-append, Yields, yields, Yields-then, Yields-test, Bool-cases,
  inl, inr, ltb, leb, ◌==◌, ◌>>=◌, ◌⊎◌,
}
use nxchain.Snapshot.{Snapshot}
use nxchain.Snapshot.Store.{
  search, sort_search, number_at, found_at, find, insert_sorted, sort_into, sort, add_snapshot,
  closest_loop,
}

search_bounded :
    (f : ℕ → Option Bool) (n fuel i j : ℕ)
    → ((k : ℕ) → k < n → Yields (λ b. Unit {0}) (f k))
    → i ≤ j
    → j ≤ n
    → Yields (λ r. r ≤ n) (search f fuel i j)
unfolding search
search_bounded f n zero i j total h hn = yields i (omega arith)
search_bounded f n (suc fuel) i j total h hn = elim (Bool-cases (ltb i j)) [
  | inr done ↦ rw (done, search) (yields i (omega arith))
  | inl more ↦
      let inside : i < j = ground arith in
      rw (more, search)
        (Yields-then (total ((i + j) / 2) (omega arith)) (λ b u.
          Yields-test b
            (λ t. search_bounded f n fuel i ((i + j) / 2) total (omega arith) (omega arith))
            (λ t. search_bounded f n fuel ((i + j) / 2 + 1) j total (omega arith) hn)))
]

module _ (P : Snapshot → Type 0) where
  entry_at : (l : List Snapshot) (i : ℕ) → All P l → i < length l → Yields P (get_elem? l i)
  entry_at [] i h k = absurd (omega arith)
  entry_at (s ∷ l) zero h k = yields s h.0
  entry_at (s ∷ l) (suc i) h k = entry_at l i h.1 (omega arith)

  All-insert_sorted : (s : Snapshot) (l : List Snapshot) → P s → All P l → All P (insert_sorted s l)
  unfolding insert_sorted
  All-insert_sorted s [] p h = (p, tt)
  All-insert_sorted s (t ∷ l) p h = elim (Bool-cases (ltb s.number t.number)) [
    | inl first ↦ rw first (p, h)
    | inr later ↦ rw later (h.0, All-insert_sorted s l p h.1)
  ]

  All-sort_into : (acc l : List Snapshot) → All P acc → All P l → All P (sort_into acc l)
  unfolding sort_into
  All-sort_into acc [] a h = a
  All-sort_into acc (s ∷ l) a h =
      All-sort_into (insert_sorted s acc) l (All-insert_sorted s acc h.0 a) h.1

  pub All-add_snapshot :
      (s : Snapshot) (l : List Snapshot) → P s → All P l → All P (add_snapshot s l)
  unfolding add_snapshot sort
  All-add_snapshot s l p h = All-sort_into [] (l ++ s ∷ []) tt (All-append P l (s ∷ []) h (p, tt))

  pub All-drop : (i : ℕ) (l : List Snapshot) → All P l → All P (drop i l)
  All-drop zero l h = h
  All-drop (suc i) [] h = tt
  All-drop (suc i) (s ∷ l) h = All-drop i l h.1

-- What holds of every snapshot holds of the answer of `find`.
pub data Answers (P : Snapshot → Type 0) : Option Snapshot → Type 0 where
  nil : Answers P none
  answer : (s : Snapshot) → P s → Answers P (some s)

module _ (P : Snapshot → Type 0) where
  found_at-Answers :
      (num i : ℕ) (l : List Snapshot)
      → All P l
      → i < length l
      → Yields (Answers P) (found_at num i l)
  unfolding found_at
  found_at-Answers num i l h k = Yields-then (entry_at P l i h k) (λ s p.
      Yields-test (i == 0) (λ t. yields (some s) (answer s p))
        (λ t.
          Yields-test (s.number == num) (λ t. yields (some s) (answer s p))
            (λ t.
              Yields-then (entry_at P l (i - 1) h (omega arith))
                (λ u q. yields (some u) (answer u q)))))

  number_at-known :
      (l : List Snapshot) (i : ℕ) → All P l → i < length l → Yields (λ n. Unit {0}) (number_at l i)
  unfolding number_at
  number_at-known l i h k = Yields-then (entry_at P l i h k) (λ s p. yields s.number tt)

  pub find-Answers : (num : ℕ) (l : List Snapshot) → All P l → Yields (Answers P) (find num l)
  unfolding find sort_search
  find-Answers num l h =
      Yields-test (length l == 0) (λ t. yields none nil)
        (λ full. Yields-then (entry_at P l (length l - 1) h (ground arith)) (λ last p.
          Yields-test (ltb last.number num) (λ t. yields (some last) (answer last p))
            (λ t.
              Yields-then
                (search_bounded (λ i. number_at l i >>= λ n. some (leb num n)) (length l) (length l)
                  0 (length l)
                  (λ k a. Yields-then (number_at-known l k h a) (λ n u. yields (leb num n) tt))
                  (omega arith) (omega arith))
                (λ i a.
                  Yields-test (ltb i (length l)) (λ t. found_at-Answers num i l h (ground arith))
                    (λ t. yields none nil)))))

-- Where the search of findClosestSnapshotIndex ends.
pub data Closest (n : ℕ) : ℕ ⊎ ℕ × ℕ → Type 0 where
  exact : (i : ℕ) → i < n → Closest n (inl i)
  between : (low end : ℕ) → low < n → 0 < end → end ≤ n → Closest n (inr (low, end))

pub closest_loop-Closest :
    (fuel num low end : ℕ) (l : List Snapshot)
    → ((k : ℕ)
        → k < length l
        → (m : ℕ) × (number_at l k ≡ some m) × (k ≡ 0 → m ≤ num) × (suc k ≡ length l → num ≤ m))
    → low ≤ end
    → low < length l
    → 0 < end
    → end ≤ length l
    → Yields (Closest (length l)) (closest_loop fuel num l low end)
unfolding closest_loop
closest_loop-Closest zero num low end l known o a b c =
    yields (inr (low, end)) (between low end a b c)
closest_loop-Closest (suc fuel) num low end l known o a b c = elim (Bool-cases (ltb low end)) [
  | inr done ↦ rw (done, closest_loop) (yields (inr (low, end)) (between low end a b c))
  | inl more ↦
      let inside : low < end = ground arith in
      let mid = (end - 1 + low) / 2 in
      let (m, at, first, last) = known mid (omega arith) in
      rw (more, closest_loop, at)
        (Yields-test (ltb num m)
          (λ t.
            closest_loop-Closest fuel num low mid l known (omega arith) a (ground (arith, first))
              (omega arith))
          (λ t.
            Yields-test (ltb m num)
              (λ u.
                closest_loop-Closest fuel num (mid + 1) end l known (omega arith)
                  (ground (arith, last)) b c)
              (λ u. yields (inl mid) (exact mid (omega arith)))))
]
