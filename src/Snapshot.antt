-- ===== src/Snapshot.antt =====
-- validators/store/snapshot/: the validator set as blocks vote on it. Votes and snapshots
-- (validators/store/types.go, types.go); a copy of a snapshot is the snapshot.
pub mod Voting
pub mod Store
pub mod Candidates
pub mod Headers
pub mod Proposals
mod Tests
use nxchain.Base.{
  ℕ, suc, Bool, true, false, List, [], ◌∷◌, ◌++◌, ◌==◌, same, if◌then◌else◌, length, ◌&&◌, not,
}
use nxchain.Types.{Address, Hash}
use nxchain.Validators.{Validator, equal, Set, equal_sets}

pub record Vote : Type 0 where
  pub validator : Address
  pub candidate : Validator
  pub authorize : Bool

unfoldable pub equal_vote : Vote → Vote → Bool
equal_vote v w =
    if not (v.validator == w.validator)
    then false
    else if not (equal v.candidate w.candidate)
    then false
    else if not (same v.authorize w.authorize)
    then false
    else true

pub record Snapshot : Type 0 where
  pub number : ℕ
  pub hash : Hash
  pub votes : List Vote
  pub set : Set

unfoldable pub equal_votes : List Vote → List Vote → Bool
equal_votes [] [] = true
equal_votes (v ∷ vs) (w ∷ ws) = equal_vote v w && equal_votes vs ws
equal_votes _ _ = false

-- The number and the hash are not compared.
unfoldable pub equal_snapshot : Snapshot → Snapshot → Bool
unfolding equal_votes
equal_snapshot s t =
    if not (length s.votes == length t.votes)
    then false
    else if not (equal_votes s.votes t.votes)
    then false
    else equal_sets s.set t.set

unfoldable pub count_votes : (Vote → Bool) → List Vote → ℕ
count_votes h [] = 0
count_votes h (v ∷ vs) = let rest = count_votes h vs in if h v then suc rest else rest

unfoldable pub add_vote : Address → Validator → Bool → Snapshot → Snapshot
add_vote voter candidate authorize s = record s {
  votes =
      s.votes ++ (record { validator = voter; candidate = candidate; authorize = authorize }) ∷ [];
}

abbrev pub by_voter_and_candidate : Address → Validator → Vote → Bool
by_voter_and_candidate voter candidate v = v.validator == voter && equal v.candidate candidate

unfoldable pub count_by_voter_and_candidate : Address → Validator → Snapshot → ℕ
count_by_voter_and_candidate voter candidate s =
    count_votes (by_voter_and_candidate voter candidate) s.votes

unfoldable pub count_by_candidate : Validator → Snapshot → ℕ
count_by_candidate candidate s = count_votes (λ v. equal v.candidate candidate) s.votes

unfoldable pub keep_votes : (Vote → Bool) → List Vote → List Vote
keep_votes should_remove [] = []
keep_votes should_remove (v ∷ vs) =
    let rest = keep_votes should_remove vs in if should_remove v then rest else v ∷ rest

unfoldable pub remove_votes : (Vote → Bool) → Snapshot → Snapshot
remove_votes should_remove s = record s { votes = keep_votes should_remove s.votes }

unfoldable pub remove_votes_by_voter : Address → Snapshot → Snapshot
remove_votes_by_voter addr s = remove_votes (λ v. v.validator == addr) s

unfoldable pub remove_votes_by_candidate : Validator → Snapshot → Snapshot
remove_votes_by_candidate candidate s = remove_votes (λ v. equal v.candidate candidate) s
