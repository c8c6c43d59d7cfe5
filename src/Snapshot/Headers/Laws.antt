-- ===== src/Snapshot/Headers/Laws.antt =====
-- ProcessHeader neither panics nor breaks a snapshot.
use nxchain.Base.{
  ℕ, ◌+◌, ◌-◌, ◌*◌, ◌/◌, ◌%◌, ◌<◌, ◌≡◌, ◌≢◌, refl, true, false, Option, none, some, [], arith,
  Yields, yields, Yields-then, Yields-test, Option-cases, inl, inr, ltb, ◌==◌, if◌then◌else◌, not,
}
use nxchain.Types.{Address, u64_mod}
use nxchain.Validators.{ValidatorType, includes, bytes_equal}
use nxchain.Validators.Bls.{FastRlp}
use nxchain.Snapshot.{Snapshot}
use nxchain.Snapshot.Voting.{VoteError, multiple_votes, process_vote}
use nxchain.Snapshot.Voting.Laws.{IsSnapshot, process_vote-IsSnapshot}
use nxchain.Snapshot.Store.{SnapshotStore, update_last_block}
use nxchain.Snapshot.Headers.{
  Header, Signer, HeaderError, vote_error, save_snapshot_if_changed, reset_snapshot,
  remove_lower_snapshots, follow_header, process_header, zero_miner,
}
use nxchain.Snapshot.Headers.Lookups.{Answers, find-Answers}
use nxchain.Snapshot.Headers.Keeping.{
  IsStore, delete_lower-IsStore, saved-IsStore, noted-IsStore, without_votes,
}

-- What ProcessHeader leaves: a valid store, the same one on an error, and no error on multiple votes.
pub record Processed (s : SnapshotStore) (r : Option HeaderError × SnapshotStore) : Type 0 where
  pub store : IsStore r.1
  pub unchanged : r.0 ≢ none → r.1 ≡ s
  pub single : r.0 ≢ some (vote_error multiple_votes)

removed-IsStore :
    (epoch_size height : ℕ) (s : SnapshotStore)
    → IsStore s
    → Yields IsStore (remove_lower_snapshots epoch_size height s)
unfolding remove_lower_snapshots
removed-IsStore epoch_size height s h =
    Yields-test (ltb 2 (height / epoch_size))
      (λ t. delete_lower-IsStore ((height / epoch_size - 2) * epoch_size % u64_mod) s h)
      (λ t. yields s h)

module _ {V : Type 0} (rlp : FastRlp V) (epoch_size : ℕ) where
  followed :
      (kind : ValidatorType) (proposer : Address) (parent : Snapshot) (header : Header)
      (s : SnapshotStore)
      → 0 < epoch_size
      → includes proposer parent.set ≡ true
      → IsSnapshot parent
      → IsStore s
      → Yields (Processed s) (follow_header rlp epoch_size kind proposer parent header s)
  unfolding follow_header reset_snapshot
  followed kind proposer parent header s positive member p h =
      let vote =
        process_vote-IsSnapshot rlp header.nonce header.miner kind proposer parent member p in
      let ready : (epoch_size == 0) ≡ false = ground arith in
      rw ready (
        Yields-test (header.number % epoch_size == 0)
          (λ t.
            Yields-then
              (removed-IsStore epoch_size header.number
                (save_snapshot_if_changed parent (record parent { votes = [] }) header s)
                (saved-IsStore parent (record parent { votes = [] }) header s
                  (without_votes parent p) h))
              (λ u k.
                yields (none, update_last_block header.number u)
                  (record {
                    store = noted-IsStore header.number u k;
                    unchanged = λ e. absurd (e refl);
                    single = λ e. cc;
                  })))
          (λ t.
            Yields-test (bytes_equal header.miner zero_miner)
              (λ z.
                yields (none, update_last_block header.number s)
                  (record {
                    store = noted-IsStore header.number s h;
                    unchanged = λ e. absurd (e refl);
                    single = λ e. cc;
                  }))
              (λ z.
                voted (process_vote rlp header.nonce header.miner kind proposer parent) vote.0
                  vote.1)))
    where
      voted :
          (r : Option VoteError × Snapshot)
          → IsSnapshot r.1
          → r.0 ≢ some multiple_votes
          → Yields (Processed s) (
              some (
                let answer : Option HeaderError × SnapshotStore = elim r.0 [
                  | some e ↦ (some (HeaderError.vote_error e), s)
                  | none ↦ (
                    none,
                    save_snapshot_if_changed parent r.1 header (update_last_block header.number s),
                  )
                ] in
                answer))
      voted (some e, snap) v m =
          yields (some (HeaderError.vote_error e), s)
            (record { store = h; unchanged = λ k. refl; single = λ k. m (ground arith) })
      voted (none, snap) v m =
          yields
            (none, save_snapshot_if_changed parent snap header (update_last_block header.number s))
            (record {
              store =
                  saved-IsStore parent snap header (update_last_block header.number s) v
                    (noted-IsStore header.number s h);
              unchanged = λ k. absurd (k refl);
              single = λ k. cc;
            })

  refused :
      (e : HeaderError) (s : SnapshotStore)
      → e ≢ vote_error multiple_votes
      → IsStore s
      → Processed s (some e, s)
  refused e s n h = record { store = h; unchanged = λ k. refl; single = λ k. n (ground arith) }

  -- On a store that is not empty and whose snapshots are all valid, with epochs of at least one block,
  -- ProcessHeader never panics, whatever the header, its signer and what fastrlp reads. It
  -- leaves such a store, the same one on an error, and never meets a second vote of one validator.
  pub process_header_correct :
      (get_signer : ℕ → Option Signer) (header : Header) (s : SnapshotStore)
      → 0 < epoch_size
      → IsStore s
      → Yields (Processed s) (process_header rlp epoch_size get_signer header s)
  unfolding process_header
  process_header_correct get_signer header s positive h =
      elim (Option-cases (get_signer header.number)) [
        | inl unsigned ↦
            rw (unsigned, process_header)
              (yields (some HeaderError.no_signer, s) (refused HeaderError.no_signer s (λ e. cc) h))
        | inr (signer, signed) ↦
            rw (signed, process_header)
              (elim (Option-cases (signer.ecrecover_from_header header)) [
                | inl bad ↦ rw bad (
                    yields (some HeaderError.bad_seal, s)
                      (refused HeaderError.bad_seal s (λ e. cc) h))
                | inr (proposer, sealed) ↦ rw sealed (
                    Yields-then
                      (find-Answers IsSnapshot ((header.number + u64_mod - 1) % u64_mod) s.list
                        h.valid)
                      (λ r a. answered signer proposer r a))
              ])
      ]
    where
      answered :
          (signer : Signer) (proposer : Address) (r : Option Snapshot)
          → Answers IsSnapshot r
          → Yields (Processed s) (elim r [
            | none ↦ some (some HeaderError.snapshot_not_found, s)
            | some parent ↦
                if not (includes proposer parent.set)
                then some (some HeaderError.unauthorized_proposer, s)
                else follow_header rlp epoch_size signer.kind proposer parent header s
          ])
      answered signer proposer none a =
          yields (some HeaderError.snapshot_not_found, s)
            (refused HeaderError.snapshot_not_found s (λ e. cc) h)
      answered signer proposer (some parent) (Answers.answer _ p) =
          Yields-test (not (includes proposer parent.set))
            (λ t.
              yields (some HeaderError.unauthorized_proposer, s)
                (refused HeaderError.unauthorized_proposer s (λ e. cc) h))
            (λ t. followed signer.kind proposer parent header s positive (ground arith) p h)
