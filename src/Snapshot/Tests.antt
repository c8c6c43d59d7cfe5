-- ===== src/Snapshot/Tests.antt =====
-- A vote on a small snapshot, and the law of the votes on it.
use nxchain.Base.{
  ◌<◌, ◌^◌, zero, suc, false, Yields, ℕ, ◌≡◌, ◌≢◌, refl, arith, true, Option, none, some, List, [],
  ◌∷◌,
}
use nxchain.Types.{Address}
use nxchain.Validators.{
  bls, ValidatorType, ecdsa, Set, includes, index, index_from, add, len, addr_of, validator_type,
  same_type, equal,
}
use nxchain.Validators.Laws.{has_addr}
use nxchain.Validators.Bls.{bytes_to_address, bytes_of, marshal_rlp_with}
use nxchain.Validators.Bls.Laws.{ParsesWritten}
use nxchain.Validators.Bls.Strings.{strings_rlp, strings_rlp-ReadsValues}
use nxchain.Snapshot.{
  Vote, Snapshot, count_votes, count_by_voter_and_candidate, count_by_candidate, keep_votes,
  remove_votes, remove_votes_by_candidate, add_vote,
}
use nxchain.Snapshot.Voting.{
  multiple_votes, process_vote, cast_vote, tally, nonce_auth_vote, is_authorize, miner_to_validator,
  should_process_vote,
}
use nxchain.Snapshot.Store.{
  SnapshotStore, find, put_by_number, delete_lower, number_at, search, sort_search, found_at, sort,
  find_closest, closest_loop, nearer,
}
use nxchain.Snapshot.Store.Laws.{IsOrdered, numbers, Found, find_correct}
use nxchain.Snapshot.Candidates.{Candidate, propose, get_next_candidate}
use nxchain.Snapshot.Candidates.Next.{NextCandidate, get_next_candidate_correct}
use nxchain.Snapshot.Candidates.Proposing.{Proposes, propose_correct}
use nxchain.Snapshot.Headers.{Header, Signer, process_header}
use nxchain.Snapshot.Headers.Keeping.{IsStore}
use nxchain.Snapshot.Headers.Laws.{Processed, process_header_correct}
use nxchain.Snapshot.Proposals.{vote_in_header, verify_header}
use nxchain.Snapshot.Proposals.Laws.{vote_in_header-read}
use nxchain.Snapshot.Voting.Laws.{IsSnapshot, process_vote-IsSnapshot}

abbrev members : Set
members = record { kind = ValidatorType.ecdsa_type; members = ecdsa 1 ∷ ecdsa 2 ∷ ecdsa 3 ∷ [] }

abbrev vote : Address → Vote
vote voter = record { validator = voter; candidate = ecdsa 9; authorize = true }

-- One of three validators has voted for address 9.
abbrev open_vote : Snapshot
open_vote = record { number = 4; hash = 77; votes = vote 1 ∷ []; set = members }

-- The second vote decides.
run-process_vote :
    process_vote strings_rlp nonce_auth_vote (9 ∷ []) ValidatorType.ecdsa_type 2 open_vote ≡ (
      none,
      record open_vote {
        votes = [];
        set = record members { members = ecdsa 1 ∷ ecdsa 2 ∷ ecdsa 3 ∷ ecdsa 9 ∷ [] };
      },
    )
unfolding process_vote cast_vote tally is_authorize miner_to_validator bytes_to_address
    should_process_vote includes index index_from add len addr_of validator_type same_type equal
    count_votes count_by_voter_and_candidate count_by_candidate keep_votes remove_votes
    remove_votes_by_candidate add_vote
run-process_vote = refl

open_vote-IsSnapshot : IsSnapshot open_vote
unfolding has_addr validator_type addr_of includes index index_from count_votes
    count_by_voter_and_candidate
open_vote-IsSnapshot = record {
  set = ground arith;
  voters = (refl, tt);
  once = λ a c. ground arith;
}

process_vote-IsSnapshot_example :
    IsSnapshot
      (process_vote strings_rlp nonce_auth_vote (9 ∷ []) ValidatorType.ecdsa_type 2 open_vote).1
    × ((process_vote strings_rlp nonce_auth_vote (9 ∷ []) ValidatorType.ecdsa_type 2 open_vote).0
        ≢ some multiple_votes)
unfolding includes index index_from addr_of
process_vote-IsSnapshot_example =
    process_vote-IsSnapshot strings_rlp nonce_auth_vote (9 ∷ []) ValidatorType.ecdsa_type 2
      open_vote refl open_vote-IsSnapshot

abbrev snapshot : ℕ → Snapshot
snapshot number = record { number = number; hash = 0; votes = []; set = members }

abbrev history : List Snapshot
history = snapshot 1 ∷ snapshot 5 ∷ snapshot 10 ∷ []

run-find : find 7 history ≡ some (some (snapshot 5))
unfolding find found_at number_at sort_search search
run-find = refl

-- The search for an equal number passes the snapshot of block 1, and a second one is appended.
run-put_by_number :
    put_by_number (snapshot 1) history
    ≡ some (snapshot 1 ∷ snapshot 1 ∷ snapshot 5 ∷ snapshot 10 ∷ [])
unfolding put_by_number number_at sort_search search sort
run-put_by_number = refl

-- The snapshot of block 5 is in force at block 6 and the nearest to it, and is deleted.
run-delete_lower :
    delete_lower 6 (record { last_number = 10; list = history })
    ≡ some (record { last_number = 10; list = snapshot 10 ∷ [] })
unfolding delete_lower find_closest closest_loop nearer number_at
run-delete_lower = refl

history-IsOrdered : IsOrdered history
unfolding numbers
history-IsOrdered zero zero h k = absurd (omega arith)
history-IsOrdered zero (suc zero) h k = omega arith
history-IsOrdered zero (suc (suc zero)) h k = omega arith
history-IsOrdered (suc zero) (suc (suc zero)) h k = omega arith
history-IsOrdered (suc zero) zero h k = absurd (omega arith)
history-IsOrdered (suc zero) (suc zero) h k = absurd (omega arith)
history-IsOrdered i (suc (suc (suc j))) h k = absurd (omega arith)
history-IsOrdered (suc (suc i)) j h k = absurd (omega arith)

find_correct_example : Yields (Found 7 history) (find 7 history)
find_correct_example = find_correct 7 history history-IsOrdered

abbrev candidate : Address → Candidate
candidate addr = record { validator = ecdsa addr; authorize = true }

-- Address 3 is a validator by now, and validator 1 has voted on address 9.
get_next_candidate_correct_example :
    NextCandidate open_vote 1
      (candidate 3 ∷ candidate 9 ∷ candidate 8 ∷ [])
      (get_next_candidate open_vote 1 (candidate 3 ∷ candidate 9 ∷ candidate 8 ∷ []))
get_next_candidate_correct_example =
    get_next_candidate_correct open_vote 1 (candidate 3 ∷ candidate 9 ∷ candidate 8 ∷ [])

abbrev latest_store : SnapshotStore
latest_store = record { last_number = 10; list = history }

latest_found : find latest_store.last_number latest_store.list ≡ some (some (snapshot 10))
unfolding find found_at number_at sort_search search
latest_found = refl

propose_correct_example :
    Yields
      (Proposes (ecdsa 2) false 1 (some (snapshot 10)) (candidate 9 ∷ []))
      (propose (ecdsa 2) false 1 latest_store (candidate 9 ∷ []))
propose_correct_example =
    propose_correct (ecdsa 2) false 1 latest_store (candidate 9 ∷ []) (some (snapshot 10))
      latest_found

-- Validator 2 seals a block that votes on address 9.
abbrev header : Header
header = record { number = 11; hash = 5; miner = 9 ∷ []; nonce = nonce_auth_vote }

abbrev signers : ℕ → Option Signer
signers number =
    some (record { kind = ValidatorType.ecdsa_type; ecrecover_from_header = λ h. some 2 })

abbrev voting_store : SnapshotStore
voting_store = record { last_number = 10; list = open_vote ∷ [] }

voting_store-IsStore : IsStore voting_store
voting_store-IsStore = record { filled = omega arith; valid = (open_vote-IsSnapshot, tt) }

process_header_correct_example :
    Yields (Processed voting_store) (process_header strings_rlp 50 signers header voting_store)
process_header_correct_example =
    process_header_correct strings_rlp 50 signers header voting_store (omega arith)
      voting_store-IsStore

-- A public key of 48 bytes, so that the array has a prefix of two bytes.
abbrev some_key : List ℕ
some_key =
    177 ∷ 0 ∷ 3 ∷ 255 ∷ 5 ∷ 6 ∷ 7 ∷ 128 ∷ 1 ∷ 2 ∷ 3 ∷ 4 ∷ 5 ∷ 6 ∷ 7 ∷ 8 ∷ 1 ∷ 2 ∷ 3 ∷ 4 ∷ 5 ∷ 6 ∷ 7
    ∷ 8 ∷ 1 ∷ 2 ∷ 3 ∷ 4 ∷ 5 ∷ 6 ∷ 7 ∷ 8 ∷ 1 ∷ 2 ∷ 3 ∷ 4 ∷ 5 ∷ 6 ∷ 7 ∷ 8 ∷ 1 ∷ 2 ∷ 3 ∷ 4 ∷ 5 ∷ 6 ∷ 7
    ∷ 184 ∷ []

abbrev removal : Candidate
removal = record { validator = bls 77777 some_key; authorize = false }

small_address : addr_of removal.validator < 2 ^ 160
unfolding addr_of
small_address = omega arith

removal-ParsesWritten : ParsesWritten strings_rlp removal.validator
unfolding strings_rlp marshal_rlp_with bytes_of
removal-ParsesWritten = refl

vote_in_header-read_example :
    (verify_header (vote_in_header strings_rlp removal header) ≡ true)
    × (is_authorize (vote_in_header strings_rlp removal header).nonce ≡ some false)
    × (miner_to_validator strings_rlp
          (validator_type removal.validator)
          (vote_in_header strings_rlp removal header).miner
        ≡ some removal.validator)
vote_in_header-read_example =
    vote_in_header-read strings_rlp strings_rlp-ReadsValues removal header removal-ParsesWritten
      small_address
