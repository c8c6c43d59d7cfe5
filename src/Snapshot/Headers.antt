-- ===== src/Snapshot/Headers.antt =====
-- validators/store/snapshot/snapshot.go: `ProcessHeader`, which follows the votes from block to
-- block. The signer of a height and the recovery of a header's proposer are parameters; a number of
-- eight bytes is the header's nonce. The outer `none` is a run-time panic.
pub mod Lookups
pub mod Keeping
pub mod Laws
use nxchain.Base.{
  ℕ, ◌+◌, ◌-◌, ◌*◌, ◌/◌, ◌%◌, Bool, true, false, Option, none, some, List, [], ◌∷◌, ◌==◌, ltb,
  if◌then◌else◌, ◌>>=◌, not,
}
use nxchain.Types.{Address, Hash, u64_mod}
use nxchain.Validators.{ValidatorType, Set, includes, bytes_equal}
use nxchain.Validators.Bls.{FastRlp}
use nxchain.Snapshot.{Snapshot, equal_snapshot}
use nxchain.Snapshot.Voting.{VoteError, process_vote}
use nxchain.Snapshot.Store.{SnapshotStore, find, add_snapshot, update_last_block, delete_lower}

-- The fields of types/header.go that the store reads.
pub record Header : Type 0 where
  pub number : ℕ
  pub hash : Hash
  pub miner : List ℕ
  pub nonce : ℕ

pub record Signer : Type 0 where
  pub kind : ValidatorType
  -- `none` is an error.
  pub ecrecover_from_header : Header → Option Address

pub data HeaderError : Type 0 where
  no_signer bad_seal snapshot_not_found unauthorized_proposer : HeaderError
  vote_error : VoteError → HeaderError

-- The address of 20 zero bytes.
abbrev pub zero_miner : List ℕ
zero_miner = 0 ∷ 0 ∷ 0 ∷ 0 ∷ 0 ∷ 0 ∷ 0 ∷ 0 ∷ 0 ∷ 0 ∷ 0 ∷ 0 ∷ 0 ∷ 0 ∷ 0 ∷ 0 ∷ 0 ∷ 0 ∷ 0 ∷ 0 ∷ []

unfoldable pub save_snapshot_if_changed :
    Snapshot → Snapshot → Header → SnapshotStore → SnapshotStore
save_snapshot_if_changed parent snap header s = if equal_snapshot snap parent then s else record s {
  list = add_snapshot (record snap { number = header.number; hash = header.hash }) s.list;
}

unfoldable pub reset_snapshot : Snapshot → Snapshot → Header → SnapshotStore → SnapshotStore
reset_snapshot parent snap header s =
    save_snapshot_if_changed parent (record snap { votes = [] }) header s

-- The snapshots from two epochs before are deleted.
unfoldable pub remove_lower_snapshots : ℕ → ℕ → SnapshotStore → Option SnapshotStore
remove_lower_snapshots epoch_size height s =
    let deleted = delete_lower ((height / epoch_size - 2) * epoch_size % u64_mod) s in
    if ltb 2 (height / epoch_size) then deleted else some s

module _ {V : Type 0} (rlp : FastRlp V) (epoch_size : ℕ) where
  -- ProcessHeader once the parent's snapshot and the proposer are known. An epoch of no blocks is a
  -- division by zero.
  unfoldable pub follow_header :
      ValidatorType
      → Address
      → Snapshot
      → Header
      → SnapshotStore
      → Option (Option HeaderError × SnapshotStore)
  follow_header kind proposer parent header s =
      let noted = update_last_block header.number s in
      let epoch =
        remove_lower_snapshots epoch_size header.number (reset_snapshot parent parent header s)
        >>= λ t. some (none, update_last_block header.number t) in
      let (err, snap) = process_vote rlp header.nonce header.miner kind proposer parent in
      let voted : Option HeaderError × SnapshotStore = elim err [
        | some e ↦ (some (HeaderError.vote_error e), s)
        | none ↦ (none, save_snapshot_if_changed parent snap header noted)
      ] in
      if epoch_size == 0
      then none
      else if header.number % epoch_size == 0
      then epoch
      else if bytes_equal header.miner zero_miner
      then some (none, noted)
      else some voted

  unfoldable pub process_header :
      (ℕ → Option Signer) → Header → SnapshotStore → Option (Option HeaderError × SnapshotStore)
  process_header get_signer header s = elim (get_signer header.number) [
    | none ↦ some (some HeaderError.no_signer, s)
    | some signer ↦ elim (signer.ecrecover_from_header header) [
      | none ↦ some (some HeaderError.bad_seal, s)
      | some proposer ↦ find ((header.number + u64_mod - 1) % u64_mod) s.list >>= λ found.
          elim found [
            | none ↦ some (some HeaderError.snapshot_not_found, s)
            | some parent ↦
                if not (includes proposer parent.set)
                then some (some HeaderError.unauthorized_proposer, s)
                else follow_header signer.kind proposer parent header s
          ]
    ]
  ]
