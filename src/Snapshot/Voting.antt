-- ===== src/Snapshot/Voting.antt =====
-- validators/store/snapshot/: `processVote` (snapshot.go) and its helpers (helper.go). A block's
-- nonce is the number of its 8 bytes.
pub mod Laws
use nxchain.Base.{
  ℕ, ◌+◌, ◌-◌, ◌*◌, ◌/◌, ◌%◌, ◌^◌, Bool, true, false, Option, none, some, List, [], ◌∷◌, ◌==◌, same,
  ltb, if◌then◌else◌, not,
}
use nxchain.Types.{Address}
use nxchain.Validators.{
  ValidatorType, Validator, ecdsa, bls, addr_of, Set, SetError, len, includes, add, del,
}
use nxchain.Validators.Bls.{FastRlp, bytes_to_address, set_from_bytes}
use nxchain.Snapshot.{
  Snapshot, add_vote, count_by_voter_and_candidate, count_by_candidate, remove_votes_by_voter,
  remove_votes_by_candidate,
}

-- Eight bytes 0xff, and eight bytes 0x00.
abbrev pub nonce_auth_vote : ℕ
nonce_auth_vote = 2 ^ 64 - 1

abbrev pub nonce_drop_vote : ℕ
nonce_drop_vote = 0

-- `set_error` is an error of the validator set, `bad_candidate` one of decoding the miner field.
pub data VoteError : Type 0 where
  incorrect_nonce bad_candidate multiple_votes : VoteError
  set_error : SetError → VoteError

-- `none` is ErrIncorrectNonce.
unfoldable pub is_authorize : ℕ → Option Bool
is_authorize nonce =
    if nonce == nonce_auth_vote
    then some true
    else if nonce == nonce_drop_vote
    then some false
    else none

unfoldable pub should_process_vote : Set → Address → Bool → Bool
should_process_vote set candidate vote_action = not (same vote_action (includes candidate set))

unfoldable pub adds_or_dels_candidate : Set → Validator → Bool → Option SetError × Set
adds_or_dels_candidate set candidate update_action =
    if update_action then add candidate set else del candidate set

module _ {V : Type 0} (rlp : FastRlp V) where
  unfoldable pub miner_to_validator : ValidatorType → List ℕ → Option Validator
  unfolding bytes_to_address
  miner_to_validator ValidatorType.ecdsa_type miner = some (ecdsa (bytes_to_address miner))
  miner_to_validator ValidatorType.bls_type miner = elim (set_from_bytes rlp miner) [
    | none ↦ none
    | some (a, k) ↦ some (bls a k)
  ]

-- The votes that a decided candidate takes along.
unfoldable pub settle_votes : Validator → Bool → Snapshot → Snapshot
settle_votes candidate authorize s =
    remove_votes_by_candidate candidate
      (if authorize then s else remove_votes_by_voter (addr_of candidate) s)

-- The tally: more than half of the validators decide.
unfoldable pub tally : Validator → Bool → Snapshot → Option VoteError × Snapshot
unfolding settle_votes adds_or_dels_candidate
tally candidate authorize s =
    let (err, set) = adds_or_dels_candidate s.set candidate authorize in
    let changed = record s { set = set } in
    let decided : Option VoteError × Snapshot = elim err [
      | some e ↦ (some (set_error e), changed)
      | none ↦ (none, settle_votes candidate authorize changed)
    ] in
    if ltb (len s.set / 2) (count_by_candidate candidate s) then decided else (none, s)

-- processVote once the nonce and the candidate are read.
unfoldable pub cast_vote : Address → Validator → Bool → Snapshot → Option VoteError × Snapshot
cast_vote proposer candidate authorize s =
    let count = count_by_voter_and_candidate proposer candidate s in
    let voted = if count == 0 then add_vote proposer candidate authorize s else s in
    if not (should_process_vote s.set (addr_of candidate) authorize)
    then (none, s)
    else if ltb 1 count
    then (some multiple_votes, s)
    else tally candidate authorize voted

unfoldable pub process_vote :
    {V : Type 0}
    → FastRlp V
    → ℕ
    → List ℕ
    → ValidatorType
    → Address
    → Snapshot
    → Option VoteError × Snapshot
process_vote rlp nonce miner kind proposer s = elim (is_authorize nonce) [
  | none ↦ (some incorrect_nonce, s)
  | some authorize ↦ elim (miner_to_validator rlp kind miner) [
    | none ↦ (some bad_candidate, s)
    | some candidate ↦ cast_vote proposer candidate authorize s
  ]
]
