-- ===== src/Snapshot/Store.antt =====
-- validators/store/snapshot/types.go: `snapshotStore`, the snapshots in the order of their numbers.
-- `none` is a run-time panic. `sort.Search` is the binary search of Go's library, and `sort.Sort`
-- is modelled by insertion; which of two equal numbers comes first, Go leaves open.
pub mod Laws
use nxchain.Base.{
  ℕ, zero, suc, ◌+◌, ◌-◌, ◌/◌, ◌%◌, ◌^◌, Bool, true, false, Option, none, some, List, [], ◌∷◌, ◌++◌,
  ◌==◌, ltb, leb, if◌then◌else◌, length, get_elem?, set, drop, ◌>>=◌, not, ◌⊎◌, inl, inr,
}
use nxchain.Types.{u64_mod}
use nxchain.Snapshot.{Snapshot}

pub record SnapshotStore : Type 0 where
  pub last_number : ℕ
  pub list : List Snapshot

-- `sort.Search` between `i` and `j`; the distance is fuel enough.
unfoldable pub search : (ℕ → Option Bool) → ℕ → ℕ → ℕ → Option ℕ
search f zero i j = some i
search f (suc fuel) i j =
    let left = search f fuel i ((i + j) / 2) in
    let right = search f fuel ((i + j) / 2 + 1) j in
    let probe = f ((i + j) / 2) >>= λ b. if b then left else right in
    if ltb i j then probe else some i

unfoldable pub sort_search : ℕ → (ℕ → Option Bool) → Option ℕ
unfolding search
sort_search n f = search f n 0 n

unfoldable pub number_at : List Snapshot → ℕ → Option ℕ
number_at l i = get_elem? l i >>= λ s. some s.number

unfoldable pub insert_sorted : Snapshot → List Snapshot → List Snapshot
insert_sorted s [] = s ∷ []
insert_sorted s (t ∷ l) = if ltb s.number t.number then s ∷ t ∷ l else t ∷ insert_sorted s l

unfoldable pub sort_into : List Snapshot → List Snapshot → List Snapshot
sort_into sorted [] = sorted
sort_into sorted (s ∷ l) = sort_into (insert_sorted s sorted) l

unfoldable pub sort : List Snapshot → List Snapshot
unfolding sort_into insert_sorted
sort l = sort_into [] l

unfoldable pub add_snapshot : Snapshot → List Snapshot → List Snapshot
add_snapshot snap l = sort (l ++ snap ∷ [])

-- What `find` answers at the position of the search; nil is the inner `none`.
unfoldable pub found_at : ℕ → ℕ → List Snapshot → Option (Option Snapshot)
found_at num i l = do
  s ← get_elem? l i
  let before = get_elem? l (i - 1) >>= λ t. some (some t)
  if i == 0 then some (some s) else if s.number == num then some (some s) else before

unfoldable pub find : ℕ → List Snapshot → Option (Option Snapshot)
unfolding found_at number_at sort_search
find num l =
    let from_search = sort_search (length l) (λ i. number_at l i >>= λ n. some (leb num n)) >>= λ i.
    (let at = found_at num i l in if ltb i (length l) then at else some none) in
    let fast = get_elem? l (length l - 1) >>= λ last.
    if ltb last.number num then some (some last) else from_search in
    if length l == 0 then some none else fast

unfoldable pub put_by_number : Snapshot → List Snapshot → Option (List Snapshot)
unfolding number_at sort_search
put_by_number snap l = do
  i ← sort_search (length l) (λ k. number_at l k >>= λ n. some (n == snap.number))
  some (if ltb i (length l) then set l i snap else sort (l ++ snap ∷ []))

unfoldable pub update_last_block : ℕ → SnapshotStore → SnapshotStore
update_last_block num s = record s { last_number = num }

-- The binary search of findClosestSnapshotIndex: `inl` is the position of the number, `inr` the final
-- `low` with the final `high` plus one. The distance is fuel enough.
unfoldable pub closest_loop : ℕ → ℕ → List Snapshot → ℕ → ℕ → Option (ℕ ⊎ ℕ × ℕ)
closest_loop zero num l low end = some (inr (low, end))
closest_loop (suc fuel) num l low end =
    let lower = closest_loop fuel num l low ((end - 1 + low) / 2) in
    let upper = closest_loop fuel num l ((end - 1 + low) / 2 + 1) end in
    let probe = number_at l ((end - 1 + low) / 2) >>= λ n.
    if ltb num n then lower else if ltb n num then upper else some (inl ((end - 1 + low) / 2)) in
    if ltb low end then probe else some (inr (low, end))

-- What follows the search: `high` where the upper position is nearer, else `low`. A `high` of -1 is
-- out of range.
unfoldable pub nearer : ℕ → List Snapshot → ℕ → ℕ → Option ℕ
nearer num l low end = do
  above ← number_at l low
  below ← if end == 0 then none else number_at l (end - 1)
  some (
      if ltb ((above + u64_mod - num) % u64_mod) ((num + u64_mod - below) % u64_mod)
      then end - 1
      else low)

unfoldable pub find_closest : ℕ → List Snapshot → Option ℕ
unfolding closest_loop nearer number_at
find_closest num l = do
  first ← number_at l 0
  last ← number_at l (length l - 1)
  let searched = closest_loop (length l) num l 0 (length l) >>= λ r. elim r [
    | inl i ↦ some i
    | inr (low, end) ↦ nearer num l low end
  ]
  if ltb num first then some 0 else if ltb last num then some (length l - 1) else searched

unfoldable pub delete_lower : ℕ → SnapshotStore → Option SnapshotStore
delete_lower num s = find_closest num s.list >>= λ i. some (record s { list = drop i s.list })
