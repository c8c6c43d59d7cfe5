-- ===== src/Snapshot/Candidates.antt =====
-- validators/store/snapshot/snapshot.go: the candidates that a validator votes on. The snapshot
-- store's `find` may panic, hence the outer `none` of `propose`.
pub mod Readings
pub mod Next
pub mod Proposing
use nxchain.Base.{
  ℕ, Bool, true, false, Option, none, some, List, [], ◌∷◌, ◌++◌, ◌==◌, same, if◌then◌else◌,
  get_elem?, ◌>>=◌, ◌&&◌, not, ◌≡◌,
}
use nxchain.Types.{Address}
use nxchain.Validators.{Validator, addr_of, Set, includes, index}
use nxchain.Snapshot.{Vote, Snapshot, count_votes, count_by_voter_and_candidate}
use nxchain.Snapshot.Store.{SnapshotStore, find}

pub record Candidate : Type 0 where
  pub validator : Validator
  pub authorize : Bool

pub data ProposeError : Type 0 where
  already_candidate snapshot_not_found candidate_is_validator : ProposeError
  candidate_not_exist_in_set already_voted : ProposeError

unfoldable pub is_candidate : Address → List Candidate → Bool
is_candidate addr [] = false
is_candidate addr (c ∷ cs) = if addr_of c.validator == addr then true else is_candidate addr cs

-- To remove a validator, its entry of the set is the candidate.
unfoldable pub add_candidate :
    Set → Validator → Bool → List Candidate → Option (Option ProposeError × List Candidate)
add_candidate set candidate authorize cs =
    let joined = λ (v : Validator).
      some (none, cs ++ (record { validator = v; authorize = authorize }) ∷ []) in
    let removal : Option (Option ProposeError × List Candidate) =
      elim (index (addr_of candidate) set) [
        | none ↦ some (some candidate_not_exist_in_set, cs)
        | some i ↦ get_elem? set.members i >>= joined
      ] in
    if authorize then joined candidate else removal

-- `Propose` on the latest snapshot.
unfoldable pub propose_on :
    Validator
    → Bool
    → Address
    → List Candidate
    → Snapshot
    → Option (Option ProposeError × List Candidate)
propose_on candidate auth proposer cs snap =
    let included = includes (addr_of candidate) snap.set in
    if auth && included
    then some (some candidate_is_validator, cs)
    else if not auth && not included
    then some (some candidate_not_exist_in_set, cs)
    else if count_by_voter_and_candidate proposer candidate snap == 1
    then some (some already_voted, cs)
    else add_candidate snap.set candidate auth cs

unfoldable pub propose :
    Validator
    → Bool
    → Address
    → SnapshotStore
    → List Candidate
    → Option (Option ProposeError × List Candidate)
propose candidate auth proposer store cs =
    let looked = find store.last_number store.list >>= λ latest. elim latest [
      | none ↦ some (some snapshot_not_found, cs)
      | some snap ↦ propose_on candidate auth proposer cs snap
    ] in
    if is_candidate (addr_of candidate) cs then some (some already_candidate, cs) else looked

unfoldable pub clean_obsolete_candidates : Set → List Candidate → List Candidate
clean_obsolete_candidates set [] = []
clean_obsolete_candidates set (c ∷ cs) =
    let rest = clean_obsolete_candidates set cs in
    if same c.authorize (includes (addr_of c.validator) set) then rest else c ∷ rest

-- The proposer's votes on a candidate's address.
unfoldable pub votes_on : Snapshot → Address → Candidate → ℕ
votes_on snap proposer c =
    count_votes (λ v. addr_of v.candidate == addr_of c.validator && v.validator == proposer)
      snap.votes

unfoldable pub pick_one_candidate : Snapshot → Address → List Candidate → Option Candidate
pick_one_candidate snap proposer [] = none
pick_one_candidate snap proposer (c ∷ cs) =
    let rest = pick_one_candidate snap proposer cs in
    if votes_on snap proposer c == 0 then some c else rest

unfoldable pub get_next_candidate :
    Snapshot → Address → List Candidate → Option Candidate × List Candidate
get_next_candidate snap proposer cs =
    let kept = clean_obsolete_candidates snap.set cs in
    (pick_one_candidate snap proposer kept, kept)
