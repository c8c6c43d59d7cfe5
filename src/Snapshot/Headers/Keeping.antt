-- ===== src/Snapshot/Headers/Keeping.antt =====
-- Each change of the snapshot store keeps a store of valid snapshots.
use nxchain.Base.{
  ℕ, zero, suc, ◌+◌, ◌-◌, ◌%◌, ◌<◌, ◌≡◌, refl, false, some, List, [], ◌∷◌, ◌++◌, arith, length,
  drop, All, Yields, yields, Yields-then, Yields-test, Bool-cases, inl, inr, ltb, ◌==◌,
  if◌then◌else◌, ◌⊎◌,
}
use nxchain.Types.{u64_mod}
use nxchain.Snapshot.{Snapshot, count_votes, count_by_voter_and_candidate, equal_snapshot}
use nxchain.Snapshot.Voting.Laws.{IsSnapshot}
use nxchain.Snapshot.Store.{
  SnapshotStore, add_snapshot, number_at, find_closest, delete_lower, nearer, update_last_block,
  sort, sort_into, insert_sorted,
}
use nxchain.Snapshot.Headers.{Header, save_snapshot_if_changed}
use nxchain.Snapshot.Headers.Lookups.{Closest, closest_loop-Closest, All-add_snapshot, All-drop}

-- There is a snapshot, and each is valid.
pub record IsStore (s : SnapshotStore) : Type 0 where
  pub filled : 0 < length s.list
  pub valid : All IsSnapshot s.list

number_known : (l : List Snapshot) (i : ℕ) → i < length l → (m : ℕ) × (number_at l i ≡ some m)
unfolding number_at
number_known [] i h = absurd (omega arith)
number_known (s ∷ l) zero h = (s.number, refl)
number_known (s ∷ l) (suc i) h = number_known l i (omega arith)

find_closest-bounded :
    (num : ℕ) (l : List Snapshot) → 0 < length l → Yields (λ i. i < length l) (find_closest num l)
unfolding find_closest nearer
find_closest-bounded num l full =
    let (first, start) = number_known l 0 full in
    let (last, end) = number_known l (length l - 1) (omega arith) in
    rw (start, end)
      (Yields-test (ltb num first) (λ low. yields 0 full)
        (λ low.
          Yields-test (ltb last num) (λ high. yields (length l - 1) (omega arith))
            (λ high.
              Yields-then
                (closest_loop-Closest (length l) num 0 (length l) l
                  (λ k a.
                    let (m, at) = number_known l k a in
                    (m, at, (λ z. ground (arith, at, start)), (λ z. ground (arith, at, end))))
                  (omega arith) full full (omega arith))
                (λ r c. chosen r c))))
  where
    chosen :
        (r : ℕ ⊎ ℕ × ℕ)
        → Closest (length l) r
        → Yields
            (λ i. i < length l)
            (elim r [ inl i ↦ some i | inr (low, end) ↦ nearer num l low end ])
    chosen (inl i) (Closest.exact _ h) = yields i h
    chosen (inr (low, end)) (Closest.between _ _ a b c) =
        let (above, at) = number_known l low a in
        let (below, under) = number_known l (end - 1) (omega arith) in
        let positive : (end == 0) ≡ false = ground arith in
        rw (at, positive, under)
          (yields
            (if ltb ((above + u64_mod - num) % u64_mod) ((num + u64_mod - below) % u64_mod)
              then end - 1
              else low)
            (ground arith))

length-drop_pos : (i : ℕ) (l : List Snapshot) → i < length l → 0 < length (drop i l)
length-drop_pos zero l h = h
length-drop_pos (suc i) [] h = absurd (omega arith)
length-drop_pos (suc i) (s ∷ l) h = length-drop_pos i l (omega arith)

pub delete_lower-IsStore :
    (num : ℕ) (s : SnapshotStore) → IsStore s → Yields IsStore (delete_lower num s)
unfolding delete_lower
delete_lower-IsStore num s h = Yields-then (find_closest-bounded num s.list h.filled) (λ i k.
    yields (record s { list = drop i s.list })
      (record {
        filled = length-drop_pos i s.list k;
        valid = All-drop IsSnapshot i s.list h.valid;
      }))

insert_sorted-pos : (s : Snapshot) (l : List Snapshot) → 0 < length (insert_sorted s l)
unfolding insert_sorted
insert_sorted-pos s [] = omega arith
insert_sorted-pos s (t ∷ l) = elim (Bool-cases (ltb s.number t.number)) [
  | inl first ↦ rw first (omega arith)
  | inr later ↦ rw later (omega arith)
]

sort_into-pos : (acc l : List Snapshot) → 0 < length acc → 0 < length (sort_into acc l)
unfolding sort_into
sort_into-pos acc [] h = h
sort_into-pos acc (s ∷ l) h = sort_into-pos (insert_sorted s acc) l (insert_sorted-pos s acc)

add_snapshot-pos : (s : Snapshot) (l : List Snapshot) → 0 < length (add_snapshot s l)
unfolding add_snapshot sort
add_snapshot-pos s [] = sort_into-pos (insert_sorted s []) [] (insert_sorted-pos s [])
add_snapshot-pos s (t ∷ l) =
    sort_into-pos (insert_sorted t []) (l ++ s ∷ []) (insert_sorted-pos t [])

renumbered :
    (s : Snapshot) (header : Header)
    → IsSnapshot s
    → IsSnapshot (record s { number = header.number; hash = header.hash })
unfolding count_by_voter_and_candidate
renumbered s header h = record { set = h.set; voters = h.voters; once = h.once }

pub without_votes : (s : Snapshot) → IsSnapshot s → IsSnapshot (record s { votes = [] })
unfolding count_by_voter_and_candidate count_votes
without_votes s h = record { set = h.set; voters = tt; once = λ a c. omega arith }

pub saved-IsStore :
    (parent snap : Snapshot) (header : Header) (s : SnapshotStore)
    → IsSnapshot snap
    → IsStore s
    → IsStore (save_snapshot_if_changed parent snap header s)
unfolding save_snapshot_if_changed
saved-IsStore parent snap header s v h = elim (Bool-cases (equal_snapshot snap parent)) [
  | inl unchanged ↦ rw unchanged h
  | inr changed ↦ rw changed (record {
    filled = add_snapshot-pos (record snap { number = header.number; hash = header.hash }) s.list;
    valid =
        All-add_snapshot IsSnapshot (record snap { number = header.number; hash = header.hash })
          s.list (renumbered snap header v) h.valid;
  })
]

pub noted-IsStore : (num : ℕ) (s : SnapshotStore) → IsStore s → IsStore (update_last_block num s)
unfolding update_last_block
noted-IsStore num s h = record { filled = h.filled; valid = h.valid }
