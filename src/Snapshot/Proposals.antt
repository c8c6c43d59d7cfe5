-- ===== src/Snapshot/Proposals.antt =====
-- validators/store/snapshot/snapshot.go: what a block proposer writes into a header, what is asked of a
-- header, and the readings and resets of the store by height. The chain's headers
-- are a parameter. The outer `none` is a run-time panic.
pub mod Laws
use nxchain.Base.{
  ℕ, zero, suc, ◌+◌, ◌-◌, ◌*◌, ◌/◌, ◌%◌, Bool, true, false, Option, none, some, List, [], ◌∷◌, ◌++◌,
  ◌==◌, ltb, if◌then◌else◌, ◌>>=◌, ◌&&◌, not,
}
use nxchain.Types.{Address, Hash, u64_mod}
use nxchain.Validators.{Validator, ecdsa, bls, Set}
use nxchain.Validators.Bls.{FastRlp, bytes_of, bytes}
use nxchain.Snapshot.{Vote, Snapshot}
use nxchain.Snapshot.Voting.{nonce_auth_vote, nonce_drop_vote}
use nxchain.Snapshot.Store.{SnapshotStore, find, add_snapshot, put_by_number}
use nxchain.Snapshot.Candidates.{Candidate, get_next_candidate}
use nxchain.Snapshot.Headers.{Header, Signer, HeaderError, process_header}

unfoldable pub validator_to_miner : {V : Type 0} → FastRlp V → Validator → List ℕ
unfolding bytes_of
validator_to_miner rlp (ecdsa a) = bytes_of 20 a
validator_to_miner rlp (bls a k) = bytes rlp a k

unfoldable pub get_snapshot : ℕ → SnapshotStore → Option (Option Snapshot)
get_snapshot height s = find height s.list

-- The vote of a candidate, in the header's miner and nonce.
unfoldable pub vote_in_header : {V : Type 0} → FastRlp V → Candidate → Header → Header
vote_in_header rlp c header = record header {
  miner = validator_to_miner rlp c.validator;
  nonce = if c.authorize then nonce_auth_vote else nonce_drop_vote;
}

-- False is ErrSnapshotNotFound. The candidates are cleaned on the way.
unfoldable pub modify_header :
    {V : Type 0}
    → FastRlp V
    → Address
    → Header
    → SnapshotStore
    → List Candidate
    → Option (Bool × Header × List Candidate)
modify_header rlp proposer header s cs = get_snapshot header.number s >>= λ found. elim found [
  | none ↦ some (false, header, cs)
  | some snap ↦
      let (picked, kept) = get_next_candidate snap proposer cs in
      elim picked [
        | none ↦ some (true, header, kept)
        | some c ↦ some (true, vote_in_header rlp c header, kept)
      ]
]

-- False is ErrInvalidNonce.
unfoldable pub verify_header : Header → Bool
verify_header header =
    not (not (header.nonce == nonce_auth_vote) && not (header.nonce == nonce_drop_vote))

-- `none` within is ErrSnapshotNotFound, in both readings.
unfoldable pub get_validators_by_height : ℕ → SnapshotStore → Option (Option Set)
get_validators_by_height height s = get_snapshot height s >>= λ found. elim found [
  | none ↦ some none
  | some snap ↦ some (some snap.set)
]

unfoldable pub votes : ℕ → SnapshotStore → Option (Option (List Vote))
votes height s = get_snapshot height s >>= λ found. elim found [
  | none ↦ some none
  | some snap ↦ some (some snap.votes)
]

module _ (get_header_by_number : ℕ → Option Header) where
  -- False is the error on a missing header.
  unfoldable pub update_validator_set : Set → ℕ → SnapshotStore → Option (Bool × SnapshotStore)
  update_validator_set new_validators from_height s =
      elim (get_header_by_number ((from_height + u64_mod - 1) % u64_mod)) [
        | none ↦ some (false, s)
        | some header ↦
            put_by_number
              (record {
                number = header.number;
                hash = header.hash;
                votes = [];
                set = new_validators;
              })
              s.list
            >>= λ l. some (true, record s { list = l })
      ]

  -- The heights from `i` on, `count` of them: `to - from + 1` where `to` is not the last uint64.
  unfoldable pub process_headers :
      (Header → SnapshotStore → Option (Option HeaderError × SnapshotStore))
      → ℕ
      → ℕ
      → SnapshotStore
      → Option (Bool × SnapshotStore)
  process_headers process zero i s = some (true, s)
  process_headers process (suc count) i s =
      let skipped = process_headers process count (i + 1) s in
      let rest = λ (t : SnapshotStore). process_headers process count (i + 1) t in
      let step : Option (Bool × SnapshotStore) = elim (get_header_by_number i) [
        | none ↦ some (false, s)
        | some header ↦ process header s >>= λ r.
            (let t = rest r.1 in elim r.0 [ some e ↦ some (false, r.1) | none ↦ t ])
      ] in
      if i == 0 then skipped else step

  unfoldable pub process_headers_in_range :
      (Header → SnapshotStore → Option (Option HeaderError × SnapshotStore))
      → ℕ
      → ℕ
      → SnapshotStore
      → Option (Bool × SnapshotStore)
  process_headers_in_range process from to s = process_headers process (to + 1 - from) from s
