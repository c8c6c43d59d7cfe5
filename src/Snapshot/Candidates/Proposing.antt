-- ===== src/Snapshot/Candidates/Proposing.antt =====
-- `Propose`: when a candidate joins the list, and why it is refused.
use nxchain.Base.{
  ℕ, zero, suc, ◌+◌, ◌≡◌, ◌≢◌, refl, arith, Bool, true, false, Option, none, some, List, [], ◌∷◌,
  ◌++◌, ◌==◌, Yields, yields, if◌then◌else◌, Bool-cases, Option-cases, inl, inr, get_elem?,
}
use mathlib.Core.Path.{subst}
use nxchain.Types.{Address}
use nxchain.Validators.{Validator, addr_of, Set, includes, index, index_from}
use nxchain.Snapshot.{Snapshot, count_by_voter_and_candidate}
use nxchain.Snapshot.Store.{SnapshotStore, find}
use nxchain.Snapshot.Candidates.{
  Candidate, ProposeError, is_candidate, add_candidate, propose_on, propose,
}
use nxchain.Snapshot.Candidates.Readings.{
  HasMember, HasCandidate, IsVoteOn, Counted, includes-true, includes-false, is_candidate-true,
  is_candidate-false, count_by-Counted,
}

module _ (candidate : Validator) (auth : Bool) (proposer : Address) (latest : Option Snapshot)
    (cs : List Candidate) where
  -- Why a proposal is refused.
  pub data Barred : ProposeError → Type 0 where
    already : HasCandidate (addr_of candidate) cs → Barred ProposeError.already_candidate
    missing : latest ≡ none → Barred ProposeError.snapshot_not_found
    included :
        (snap : Snapshot)
        → latest ≡ some snap
        → auth ≡ true
        → HasMember (addr_of candidate) snap.set
        → Barred ProposeError.candidate_is_validator
    stranger :
        (snap : Snapshot)
        → latest ≡ some snap
        → auth ≡ false
        → ¬ HasMember (addr_of candidate) snap.set
        → Barred ProposeError.candidate_not_exist_in_set
    voted_before :
        (snap : Snapshot)
        → latest ≡ some snap
        → Counted (IsVoteOn proposer candidate) snap.votes 1
        → Barred ProposeError.already_voted

  -- The entry that joins: the candidate, to add a validator that is none, or a member of the set with the
  -- candidate's address, to remove it.
  pub data Joining (set : Set) : Validator → Type 0 where
    adding : auth ≡ true → ¬ HasMember (addr_of candidate) set → Joining set candidate
    removing :
        (v : Validator) (place : ℕ)
        → auth ≡ false
        → get_elem? set.members place ≡ some v
        → addr_of v ≡ addr_of candidate
        → Joining set v

  -- How a proposal ends: refused, without a change, or with one candidate more.
  pub data Proposes : Option ProposeError × List Candidate → Type 0 where
    refused : (e : ProposeError) → Barred e → Proposes (some e, cs)
    joins :
        (snap : Snapshot) (v : Validator) (votes : ℕ)
        → latest ≡ some snap
        → ¬ HasCandidate (addr_of candidate) cs
        → Counted (IsVoteOn proposer candidate) snap.votes votes
        → votes ≢ 1
        → Joining snap.set v
        → Proposes (none, cs ++ (record { validator = v; authorize = auth }) ∷ [])

index_from-found :
    (n i : ℕ) (addr : Address) (vs : List Validator)
    → index_from n addr vs ≡ some i
    → (k : ℕ) × (i ≡ n + k) × ((v : Validator) × (get_elem? vs k ≡ some v) × (addr_of v ≡ addr))
unfolding index_from
index_from-found n i addr [] e = cc
index_from-found n i addr (v ∷ vs) e = elim (Bool-cases (addr_of v == addr)) [
  | inl here ↦ (zero, ground arith, (v, refl, ground arith))
  | inr later ↦
      let (k, place, (w, at, own)) = index_from-found (n + 1) i addr vs (ground arith) in
      (suc k, omega arith, (w, at, own))
]

index-found :
    (i : ℕ) (addr : Address) (set : Set)
    → index addr set ≡ some i
    → (v : Validator) × (get_elem? set.members i ≡ some v) × (addr_of v ≡ addr)
unfolding index
index-found i addr set e =
    let (k, place, (v, at, own)) = index_from-found 0 i addr set.members e in
    let same_place : i ≡ k = omega arith in (v, rw same_place at, own)

index-none : (addr : Address) (set : Set) → index addr set ≡ none → includes addr set ≡ false
unfolding includes
index-none addr set e = rw (e, includes) refl

index-some :
    (i : ℕ) (addr : Address) (set : Set) → index addr set ≡ some i → includes addr set ≡ true
unfolding includes
index-some i addr set e = rw (e, includes) refl

voted_once :
    (proposer : Address) (candidate : Validator) (snap : Snapshot)
    → (count_by_voter_and_candidate proposer candidate snap == 1) ≡ true
    → Counted (IsVoteOn proposer candidate) snap.votes 1
voted_once proposer candidate snap e =
    let one : count_by_voter_and_candidate proposer candidate snap ≡ 1 = ground arith in
    subst (Counted (IsVoteOn proposer candidate) snap.votes) one
      (count_by-Counted proposer candidate snap)

module _ (candidate : Validator) (proposer : Address) (cs : List Candidate) (snap : Snapshot)
    (new : ¬ HasCandidate (addr_of candidate) cs) where
  -- The end of a proposal that the set allows, with the entry that joins.
  voting-Proposes :
      (auth : Bool) (v : Validator) (r : Option (Option ProposeError × List Candidate))
      → Joining candidate auth proposer (some snap) cs snap.set v
      → r ≡ some (none, cs ++ (record { validator = v; authorize = auth }) ∷ [])
      → Yields (Proposes candidate auth proposer (some snap) cs) (
          if count_by_voter_and_candidate proposer candidate snap == 1
          then some (some ProposeError.already_voted, cs)
          else r)
  voting-Proposes auth v r joining e =
      elim (Bool-cases (count_by_voter_and_candidate proposer candidate snap == 1)) [
        | inl voted ↦ rw voted (
            yields (some ProposeError.already_voted, cs)
              (Proposes.refused ProposeError.already_voted
                (Barred.voted_before snap refl (voted_once proposer candidate snap voted))))
        | inr not_voted ↦
            rw (not_voted, e)
              (yields (none, cs ++ (record { validator = v; authorize = auth }) ∷ [])
                (Proposes.joins snap v (count_by_voter_and_candidate proposer candidate snap) refl
                  new (count_by-Counted proposer candidate snap) (ground arith) joining))
      ]

  propose_on-Proposes :
      (auth : Bool)
      → Yields
          (Proposes candidate auth proposer (some snap) cs)
          (propose_on candidate auth proposer cs snap)
  unfolding propose_on add_candidate
  propose_on-Proposes true = elim (Option-cases (index (addr_of candidate) snap.set)) [
    | inr (i, known) ↦
        let member = index-some i (addr_of candidate) snap.set known in
        rw member (
          yields (some ProposeError.candidate_is_validator, cs)
            (Proposes.refused ProposeError.candidate_is_validator
              (Barred.included snap refl refl (includes-true (addr_of candidate) snap.set member))))
    | inl unknown ↦
        let out = index-none (addr_of candidate) snap.set unknown in
        rw out (
          voting-Proposes true candidate _
            (Joining.adding refl (includes-false (addr_of candidate) snap.set out)) refl)
  ]
  propose_on-Proposes false = elim (Option-cases (index (addr_of candidate) snap.set)) [
    | inl unknown ↦
        let out = index-none (addr_of candidate) snap.set unknown in
        rw out (
          yields (some ProposeError.candidate_not_exist_in_set, cs)
            (Proposes.refused ProposeError.candidate_not_exist_in_set
              (Barred.stranger snap refl refl (includes-false (addr_of candidate) snap.set out))))
    | inr (i, known) ↦
        let (v, at, own) = index-found i (addr_of candidate) snap.set known in
        rw (index-some i (addr_of candidate) snap.set known)
          (voting-Proposes false v _ (Joining.removing v i refl at own) (rw (known, at) refl))
  ]

-- Where `find` answers with a snapshot or nil, Propose does not panic. It refuses, and changes
-- nothing, or the list of candidates gets one more, at its end: the proposed one, or for a removal an
-- entry of the latest snapshot's set with its address. It joins only if no candidate had the address yet,
-- the set has it exactly for a removal, and the number of the proposer's votes on the candidate is not
-- one; each error comes only with the failure that it names.
pub propose_correct :
    (candidate : Validator) (auth : Bool) (proposer : Address) (store : SnapshotStore)
    (cs : List Candidate) (latest : Option Snapshot)
    → find store.last_number store.list ≡ some latest
    → Yields (Proposes candidate auth proposer latest cs) (propose candidate auth proposer store cs)
unfolding propose
propose_correct candidate auth proposer store cs none looked =
    elim (Bool-cases (is_candidate (addr_of candidate) cs)) [
      | inl old ↦ rw old (
          yields (some ProposeError.already_candidate, cs)
            (Proposes.refused ProposeError.already_candidate
              (Barred.already (is_candidate-true (addr_of candidate) cs old))))
      | inr new ↦
          rw (new, looked)
            (yields (some ProposeError.snapshot_not_found, cs)
              (Proposes.refused ProposeError.snapshot_not_found (Barred.missing refl)))
    ]
propose_correct candidate auth proposer store cs (some snap) looked =
    elim (Bool-cases (is_candidate (addr_of candidate) cs)) [
      | inl old ↦ rw old (
          yields (some ProposeError.already_candidate, cs)
            (Proposes.refused ProposeError.already_candidate
              (Barred.already (is_candidate-true (addr_of candidate) cs old))))
      | inr new ↦
          rw (new, looked)
            (propose_on-Proposes candidate proposer cs snap
              (is_candidate-false (addr_of candidate) cs new) auth)
    ]
