-- ===== src/Snapshot/Voting/Laws.antt =====
-- processVote keeps one vote for each voter and candidate, and counts validators.
use nxchain.Base.{
  ℕ, ◌+◌, ◌/◌, ◌≤◌, ◌≡◌, ◌≢◌, ◌∙◌, refl, Bool, true, false, Option, none, some, List, [], ◌∷◌, ◌++◌,
  arith, ◌==◌, Bool-cases, Option-cases, inl, inr, ◌||◌, ◌&&◌, All, All-weaken, All-append, ltb,
}
use nxchain.Types.{Address}
use nxchain.Validators.{
  ValidatorType, Validator, ecdsa, bls, addr_of, equal, bytes_equal, Set, SetError, includes, add,
  del, len,
}
use nxchain.Validators.Laws.{IsValidatorSet, Adds, add_correct, Dels, del_correct}
use nxchain.Validators.Bls.{FastRlp}
use nxchain.Snapshot.{
  Vote, Snapshot, count_votes, add_vote, count_by_voter_and_candidate, count_by_candidate,
  keep_votes, remove_votes, remove_votes_by_voter, remove_votes_by_candidate,
  by_voter_and_candidate,
}
use nxchain.Snapshot.Voting.{
  VoteError, multiple_votes, set_error, should_process_vote, adds_or_dels_candidate, settle_votes,
  tally, cast_vote, process_vote, is_authorize, miner_to_validator,
}

bytes_equal_sound : (k l : List ℕ) → bytes_equal k l ≡ true → k ≡ l
unfolding bytes_equal
bytes_equal_sound [] [] h = refl
bytes_equal_sound [] (b ∷ l) h = cc
bytes_equal_sound (a ∷ k) [] h = cc
bytes_equal_sound (a ∷ k) (b ∷ l) h = ground (arith, bytes_equal_sound k l)

pub equal_sound : (v w : Validator) → equal v w ≡ true → v ≡ w
unfolding equal
equal_sound (ecdsa a) (ecdsa b) h = ground arith
equal_sound (ecdsa a) (bls b l) h = cc
equal_sound (bls a k) (ecdsa b) h = cc
equal_sound (bls a k) (bls b l) h = ground (arith, bytes_equal_sound k l)

count-append :
    (h : Vote → Bool) (vs ws : List Vote)
    → count_votes h (vs ++ ws) ≡ count_votes h vs + count_votes h ws
unfolding count_votes
count-append h [] ws = omega arith
count-append h (v ∷ vs) ws = ground (arith, count-append h vs ws)

count-keep-le :
    (h r : Vote → Bool) (vs : List Vote) → count_votes h (keep_votes r vs) ≤ count_votes h vs
unfolding count_votes keep_votes
count-keep-le h r [] = omega arith
count-keep-le h r (v ∷ vs) = elim (Bool-cases (r v)) [
  | inl gone ↦ rw gone (ground (arith, count-keep-le h r vs))
  | inr kept ↦ rw kept (ground (arith, count-keep-le h r vs))
]

keep-All :
    (P : Vote → Type 0) (r : Vote → Bool) (vs : List Vote)
    → All P vs
    → All (λ v. P v × (r v ≡ false)) (keep_votes r vs)
unfolding keep_votes
keep-All P r [] h = tt
keep-All P r (v ∷ vs) h = elim (Bool-cases (r v)) [
  | inl gone ↦ rw gone (keep-All P r vs h.1)
  | inr kept ↦ rw kept ((h.0, kept), keep-All P r vs h.1)
]

-- The set is valid, every voter is in it, and no voter votes twice on a candidate.
pub record IsSnapshot (s : Snapshot) : Type 0 where
  pub set : IsValidatorSet s.set
  pub voters : All (λ v. includes v.validator s.set ≡ true) s.votes
  pub once : (a : Address) (c : Validator) → count_by_voter_and_candidate a c s ≤ 1

add_vote-IsSnapshot :
    (proposer : Address) (c : Validator) (authorize : Bool) (s : Snapshot)
    → includes proposer s.set ≡ true
    → count_by_voter_and_candidate proposer c s ≡ 0
    → IsSnapshot s
    → IsSnapshot (add_vote proposer c authorize s)
unfolding add_vote count_by_voter_and_candidate count_votes
add_vote-IsSnapshot proposer c authorize s k zero_votes h =
    let v : Vote = record { validator = proposer; candidate = c; authorize = authorize } in
    record {
      set = h.set;
      voters =
          All-append (λ w. includes w.validator s.set ≡ true) s.votes (v ∷ []) h.voters (k, tt);
      once = λ a d. elim (Bool-cases (proposer == a && equal c d)) [
        | inr other ↦
            ground (arith, h.once a d, count-append (by_voter_and_candidate a d) s.votes (v ∷ []))
        | inl same_pair ↦
            let voter : proposer ≡ a = ground arith in
            let candidate : c ≡ d = equal_sound c d (ground arith) in
            let none_yet : count_votes (by_voter_and_candidate a d) s.votes ≡ 0 =
              rw (← voter, ← candidate) zero_votes in
            ground (arith, none_yet, count-append (by_voter_and_candidate a d) s.votes (v ∷ []))
      ];
    }

remove-once :
    (r : Vote → Bool) (s : Snapshot)
    → ((a : Address) (c : Validator) → count_by_voter_and_candidate a c s ≤ 1)
    → (a : Address) (c : Validator) → count_by_voter_and_candidate a c (remove_votes r s) ≤ 1
unfolding count_by_voter_and_candidate remove_votes
remove-once r s h a c = omega (arith, h a c, count-keep-le (by_voter_and_candidate a c) r s.votes)

remove-voters :
    (P : Vote → Type 0) (r : Vote → Bool) (s : Snapshot)
    → All P s.votes
    → All (λ v. P v × (r v ≡ false)) (remove_votes r s).votes
unfolding remove_votes
remove-voters P r s h = keep-All P r s.votes h

-- A candidate was added: every voter is still in the set.
settled-add :
    (c : Validator) (s : Snapshot) (set : Set)
    → IsValidatorSet set
    → ((a : Address) → includes a set ≡ (addr_of c == a || includes a s.set))
    → IsSnapshot s
    → IsSnapshot (settle_votes c true (record s { set = set }))
unfolding settle_votes remove_votes_by_candidate remove_votes count_by_voter_and_candidate
settled-add c s set valid known h = record {
  set = valid;
  voters =
      All-weaken (λ v. (includes v.validator s.set ≡ true) × (equal v.candidate c ≡ false))
        (λ v. includes v.validator set ≡ true) (keep_votes (λ v. equal v.candidate c) s.votes)
        (λ v k. ground (arith, known v.validator))
        (keep-All (λ v. includes v.validator s.set ≡ true) (λ v. equal v.candidate c) s.votes
          h.voters);
  once = remove-once (λ v. equal v.candidate c) s h.once;
}

-- A candidate was removed, and its votes with it.
settled-del :
    (c : Validator) (s : Snapshot) (set : Set)
    → IsValidatorSet set
    → ((a : Address) → a ≢ addr_of c → includes a set ≡ includes a s.set)
    → IsSnapshot s
    → IsSnapshot (settle_votes c false (record s { set = set }))
unfolding settle_votes remove_votes_by_candidate remove_votes_by_voter remove_votes
    count_by_voter_and_candidate
settled-del c s set valid known h =
    let own = λ (v : Vote). v.validator == addr_of c in
    let on = λ (v : Vote). equal v.candidate c in
    let kept = keep_votes own s.votes in
    record {
      set = valid;
      voters =
          All-weaken (λ v. ((includes v.validator s.set ≡ true) × (own v ≡ false)) × (on v ≡ false))
            (λ v. includes v.validator set ≡ true) (keep_votes on kept)
            (λ v k. known v.validator (ground arith) ∙ k.0.0)
            (keep-All (λ v. (includes v.validator s.set ≡ true) × (own v ≡ false)) on kept
              (keep-All (λ v. includes v.validator s.set ≡ true) own s.votes h.voters));
      once = remove-once on (record s { votes = kept }) (remove-once own s h.once);
    }

tally-IsSnapshot :
    (c : Validator) (authorize : Bool) (s : Snapshot)
    → IsSnapshot s
    → IsSnapshot (tally c authorize s).1
unfolding tally
tally-IsSnapshot c true s h = elim (Bool-cases (ltb (len s.set / 2) (count_by_candidate c s))) [
  | inr few ↦ rw few h
  | inl more ↦
      rw more (added (add c s.set) (add_correct c s.set h.set).0 (add_correct c s.set h.set).1)
]
  where
    added :
        (r : Option SetError × Set)
        → Adds c s.set r
        → IsValidatorSet r.1
        → IsSnapshot (
            let t : Option VoteError × Snapshot = elim r.0 [
              | some e ↦ (some (set_error e), record s { set = r.1 })
              | none ↦ (none, settle_votes c true (record s { set = r.1 }))
            ] in
            t.1)
    added (_, _) (Adds.mismatch e) v = record { set = h.set; voters = h.voters; once = h.once }
    added (_, _) (Adds.known e) v = record { set = h.set; voters = h.voters; once = h.once }
    added (_, _) (Adds.added set new kind known size) v = settled-add c s set v known h
tally-IsSnapshot c false s h = elim (Bool-cases (ltb (len s.set / 2) (count_by_candidate c s))) [
  | inr few ↦ rw few h
  | inl more ↦
      rw more (deleted (del c s.set) (del_correct c s.set h.set).0 (del_correct c s.set h.set).1)
]
  where
    deleted :
        (r : Option SetError × Set)
        → Dels c s.set r
        → IsValidatorSet r.1
        → IsSnapshot (
            let t : Option VoteError × Snapshot = elim r.0 [
              | some e ↦ (some (set_error e), record s { set = r.1 })
              | none ↦ (none, settle_votes c false (record s { set = r.1 }))
            ] in
            t.1)
    deleted (_, _) (Dels.mismatch e) v = record { set = h.set; voters = h.voters; once = h.once }
    deleted (_, _) (Dels.unknown e) v = record { set = h.set; voters = h.voters; once = h.once }
    deleted (_, _) (Dels.deleted set old kind gone known size) v = settled-del c s set v known h

-- The tally answers no error but one of the validator set.
tally-not-multiple :
    (c : Validator) (authorize : Bool) (s : Snapshot)
    → (tally c authorize s).0 ≢ some multiple_votes
unfolding tally
tally-not-multiple c authorize s =
    elim (Bool-cases (ltb (len s.set / 2) (count_by_candidate c s))) [
      | inr few ↦ rw few (λ e. cc)
      | inl more ↦ rw more (elim (Option-cases (adds_or_dels_candidate s.set c authorize).0) [
        | inl fine ↦ rw fine (λ e. cc)
        | inr (e, failed) ↦ rw failed (λ e. cc)
      ])
    ]

cast_vote-IsSnapshot :
    (proposer : Address) (c : Validator) (authorize : Bool) (s : Snapshot)
    → includes proposer s.set ≡ true
    → IsSnapshot s
    → IsSnapshot (cast_vote proposer c authorize s).1
      × ((cast_vote proposer c authorize s).0 ≢ some multiple_votes)
unfolding cast_vote
cast_vote-IsSnapshot proposer c authorize s k h =
    elim (Bool-cases (should_process_vote s.set (addr_of c) authorize)) [
      | inr idle ↦ rw idle (h, λ e. cc)
      | inl counts ↦
          let few : ltb 1 (count_by_voter_and_candidate proposer c s) ≡ false =
            ground (arith, h.once proposer c) in
          rw (counts, few)
            (elim (Bool-cases (count_by_voter_and_candidate proposer c s == 0)) [
              | inl fresh ↦ rw fresh (
                tally-IsSnapshot c authorize (add_vote proposer c authorize s)
                    (add_vote-IsSnapshot proposer c authorize s k (ground arith) h),
                tally-not-multiple c authorize (add_vote proposer c authorize s),
              )
              | inr voted ↦
                  rw voted (tally-IsSnapshot c authorize s h, tally-not-multiple c authorize s)
            ])
    ]

-- When the proposer of a block is a validator of a snapshot whose set is valid, whose voters are
-- all validators and in which nobody votes twice on a candidate, then whatever the block's nonce and
-- miner field say, and whatever fastrlp reads of a BLS candidate, processVote leaves such a
-- snapshot, and the error on multiple votes is never raised.
pub process_vote-IsSnapshot :
    {V : Type 0} (rlp : FastRlp V) (nonce : ℕ) (miner : List ℕ) (kind : ValidatorType)
    (proposer : Address) (s : Snapshot)
    → includes proposer s.set ≡ true
    → IsSnapshot s
    → IsSnapshot (process_vote rlp nonce miner kind proposer s).1
      × ((process_vote rlp nonce miner kind proposer s).0 ≢ some multiple_votes)
unfolding process_vote
process_vote-IsSnapshot rlp nonce miner kind proposer s k h =
    elim (Option-cases (is_authorize nonce)) [
      | inl bad ↦ rw (bad, process_vote) (h, λ e. cc)
      | inr (authorize, good) ↦
          rw (good, process_vote)
            (elim (Option-cases (miner_to_validator rlp kind miner)) [
              | inl broken ↦ rw broken (h, λ e. cc)
              | inr (c, read) ↦ rw read (cast_vote-IsSnapshot proposer c authorize s k h)
            ])
    ]
