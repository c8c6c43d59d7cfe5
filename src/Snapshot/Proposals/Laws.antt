-- ===== src/Snapshot/Proposals/Laws.antt =====
-- A vote that a proposer writes into a header is read back from it.
use nxchain.Base.{◌^◌, ◌<◌, ◌≡◌, refl, true, some, arith, Bool-cases, inl, inr}
use nxchain.Validators.{Validator, ecdsa, bls, validator_type, addr_of}
use nxchain.Validators.Bls.{FastRlp, bytes_to_address}
use nxchain.Validators.Bls.Laws.{
  ReadsValues, ParsesWritten, bytes_value-bytes_of, set_from_bytes-bytes,
}
use nxchain.Snapshot.Voting.{is_authorize, miner_to_validator}
use nxchain.Snapshot.Candidates.{Candidate}
use nxchain.Snapshot.Headers.{Header}
use nxchain.Snapshot.Proposals.{validator_to_miner, vote_in_header, verify_header}

module _ {V : Type 0} (rlp : FastRlp V) (reads : ReadsValues rlp) where
  candidate_read :
      (v : Validator)
      → ParsesWritten rlp v
      → addr_of v < 2 ^ 160
      → miner_to_validator rlp (validator_type v) (validator_to_miner rlp v) ≡ some v
  unfolding miner_to_validator validator_to_miner validator_type addr_of bytes_to_address
  candidate_read (ecdsa a) written h =
      let value = bytes_value-bytes_of 20 a h in rw value (ground arith)
  candidate_read (bls a k) written h =
      rw (set_from_bytes-bytes rlp reads a k written h, miner_to_validator) refl

  -- The header that carries a candidate's vote passes VerifyHeader, and processVote reads from it the
  -- way of the vote and the candidate, an address or a BLS validator in RLP, where the candidate's
  -- address has 160 bits, fastrlp's getters return what a value was made of, and fastrlp parses the array
  -- of a BLS candidate's address and key as it was from what it has written of it.
  pub vote_in_header-read :
      (c : Candidate) (header : Header)
      → ParsesWritten rlp c.validator
      → addr_of c.validator < 2 ^ 160
      → (verify_header (vote_in_header rlp c header) ≡ true)
        × (is_authorize (vote_in_header rlp c header).nonce ≡ some c.authorize)
        × (miner_to_validator rlp (validator_type c.validator) (vote_in_header rlp c header).miner
            ≡ some c.validator)
  unfolding vote_in_header verify_header is_authorize
  vote_in_header-read c header written small = elim (Bool-cases c.authorize) [
    | inl yea ↦ rw yea (refl, refl, candidate_read c.validator written small)
    | inr nay ↦ rw nay (refl, refl, candidate_read c.validator written small)
  ]
