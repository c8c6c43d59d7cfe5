-- ===== src/Snapshot/Store/Laws.antt =====
-- The binary search, and `find` on a list of snapshots in order.
use nxchain.Base.{
  ℕ, zero, suc, ◌+◌, ◌-◌, ◌/◌, ◌≤◌, ◌<◌, ◌≡◌, refl, Bool, true, false, Option, none, some, List, [],
  ◌∷◌, arith, length, get_elem?, Yields, yields, Yields-value, Bool-cases, inl, inr, ltb, leb, ◌==◌,
  ◌>>=◌, ◌⊎◌,
}
use nxchain.Snapshot.{Snapshot}
use nxchain.Snapshot.Store.{search, sort_search, number_at, found_at, find}

-- The test fails below the place and holds from it on.
pub record Boundary (test : ℕ → Bool) (n r : ℕ) : Type 0 where
  pub bounded : r ≤ n
  pub below : (k : ℕ) → k < r → test k ≡ false
  pub above : (k : ℕ) → r ≤ k → k < n → test k ≡ true

module _ (f : ℕ → Option Bool) (test : ℕ → Bool) (n : ℕ)
    (total : (k : ℕ) → k < n → f k ≡ some (test k))
    (mono : (a b : ℕ) → a ≤ b → b < n → test a ≡ true → test b ≡ true) where
  search-Boundary :
      (fuel i j : ℕ)
      → i ≤ j
      → j ≤ n
      → j ≤ i + fuel
      → ((k : ℕ) → k < i → test k ≡ false)
      → ((k : ℕ) → j ≤ k → k < n → test k ≡ true)
      → Yields (Boundary test n) (search f fuel i j)
  unfolding search
  search-Boundary zero i j h hn hf lo hi =
      yields i (record { bounded = omega arith; below = lo; above = λ k a b. hi k (omega arith) b })
  search-Boundary (suc fuel) i j h hn hf lo hi = elim (Bool-cases (ltb i j)) [
    | inr done ↦
        rw (done, search)
          (yields i
            (record { bounded = omega arith; below = lo; above = λ k a b. hi k (ground arith) b }))
    | inl more ↦
        let mid = (i + j) / 2 in
        let inside : i < j = ground arith in
        let probed = total mid (omega arith) in
        rw (more, search, probed)
          (elim (Bool-cases (test mid)) [
            | inl high ↦ rw high (
                search-Boundary fuel i mid (omega arith) (omega arith) (omega arith) lo
                  (λ k a b. mono mid k a b high))
            | inr low ↦ rw low (
                search-Boundary fuel (mid + 1) j (omega arith) hn (omega arith)
                  (λ k a. elim (Bool-cases (test k)) [
                    | inr fails ↦ fails
                    | inl holds ↦
                        absurd (ground (arith, mono k mid (omega arith) (omega arith) holds))
                  ])
                  hi)
          ])
  ]

-- The numbers of a list of snapshots.
unfoldable pub numbers : List Snapshot → ℕ → ℕ
numbers [] i = 0
numbers (s ∷ l) zero = s.number
numbers (s ∷ l) (suc i) = numbers l i

abbrev pub IsOrdered : List Snapshot → Type 0
IsOrdered l = (i j : ℕ) → i < j → j < length l → numbers l i < numbers l j

snapshot_at :
    (l : List Snapshot) (i : ℕ)
    → i < length l
    → (s : Snapshot) × (get_elem? l i ≡ some s) × (s.number ≡ numbers l i)
unfolding numbers
snapshot_at [] i h = absurd (omega arith)
snapshot_at (s ∷ l) zero h = (s, refl, refl)
snapshot_at (s ∷ l) (suc i) h = snapshot_at l i (omega arith)

-- What `find` answers: the last snapshot up to the number, or the first one where all are above it.
pub data Found (num : ℕ) (l : List Snapshot) : Option Snapshot → Type 0 where
  empty : l ≡ [] → Found num l none
  found :
      (i : ℕ) (s : Snapshot)
      → get_elem? l i ≡ some s
      → (i ≡ 0) ⊎ (s.number ≤ num)
      → ((k : ℕ) → i < k → k < length l → num < numbers l k)
      → Found num l (some s)

found_at-Found :
    (num r : ℕ) (l : List Snapshot)
    → IsOrdered l
    → r < length l
    → Boundary (λ k. leb num (numbers l k)) (length l) r
    → Yields (Found num l) (found_at num r l)
unfolding found_at
found_at-Found num r l ordered inside b =
    let (s, at, value) = snapshot_at l r inside in
    let high : num ≤ numbers l r = ground (arith, b.above r (omega arith) inside) in
    rw (at) (elim (Bool-cases (r == 0)) [
      | inl first ↦ rw first (
          yields (some s)
            (found r s at (inl (ground arith)) (λ k a c. omega (arith, ordered r k a c))))
      | inr later ↦ rw later (elim (Bool-cases (s.number == num)) [
        | inl same ↦ rw same (
            yields (some s)
              (found r s at (inr (ground arith)) (λ k a c. omega (arith, ordered r k a c))))
        | inr other ↦
            let positive : 0 < r = ground arith in
            let (t, before, low) = snapshot_at l (r - 1) (omega arith) in
            let under : numbers l (r - 1) < num = ground (arith, b.below (r - 1) (omega arith)) in
            rw (other, before)
              (yields (some t) (
                found (r - 1) t before (inr (omega arith)) (λ k a c. elim (Bool-cases (k == r)) [
                  | inl here ↦ ground (arith, value)
                  | inr past ↦ ground (arith, ordered r k (ground arith) c)
                ])))
      ])
    ])

-- On a list of snapshots with rising numbers, `find` never panics. It answers nil on the empty list,
-- and else the last snapshot whose number is at most the given one, or the first snapshot where
-- every number is higher.
pub find_correct : (num : ℕ) (l : List Snapshot) → IsOrdered l → Yields (Found num l) (find num l)
unfolding find number_at sort_search
find_correct num [] ordered = yields none (empty refl)
find_correct num (s ∷ l) ordered =
    let all = s ∷ l in
    let (t, last, value) = snapshot_at all (length all - 1) (omega arith) in
    let full : (length all == 0) ≡ false = ground arith in
    rw (full, last)
      (elim (Bool-cases (ltb t.number num)) [
        | inl high ↦ rw high (
            yields (some t)
              (found (length all - 1) t last (inr (ground arith)) (λ k a c. absurd (omega arith))))
        | inr low ↦
            let (r, searched, b) = Yields-value (
              search-Boundary (λ i. number_at all i >>= λ n. some (leb num n))
                (λ k. leb num (numbers all k)) (length all)
                (λ k h. let (u, at, v) = snapshot_at all k h in rw (at, v) refl)
                (λ i j a c e. elim (Bool-cases (i == j)) [
                  | inl same ↦ ground arith
                  | inr other ↦ ground (arith, ordered i j (ground arith) c)
                ])
                (length all) 0 (length all) (omega arith) (omega arith) (omega arith)
                (λ k h. absurd (omega arith)) (λ k h c. absurd (omega arith))) in
            let inside : r < length all = elim (Bool-cases (ltb r (length all))) [
              | inl near ↦ ground arith
              | inr far ↦ absurd (ground (arith, b.below (length all - 1) (ground arith)))
            ] in
            let within : ltb r (length all) ≡ true = ground arith in
            rw (low, searched, within) (found_at-Found num r all ordered inside b)
      ])
