-- ===== src/Snapshot/Candidates/Readings.antt =====
-- What the tests on votes, candidates and sets read, in words that do not run them.
use nxchain.Base.{
  ℕ, zero, suc, ◌≡◌, ◌≢◌, inl, inr, refl, arith, Bool, true, false, List, [], ◌∷◌, ◌∙◌, sym, ◌==◌,
  Any, Bool-cases, ◌&&◌,
}
use nxchain.Types.{Address}
use nxchain.Validators.{Validator, ecdsa, bls, bytes_equal, equal, addr_of, Set, includes}
use nxchain.Validators.Laws.{has_addr, includes-eq}
use nxchain.Snapshot.{Vote, Snapshot, count_votes, count_by_voter_and_candidate}
use nxchain.Snapshot.Voting.Laws.{equal_sound}
use nxchain.Snapshot.Candidates.{Candidate, is_candidate, votes_on}

-- A member of the set has the address.
abbrev pub HasMember : Address → Set → Type 0
HasMember addr set = Any (λ v. addr_of v ≡ addr) set.members

-- A candidate of the list has the address.
abbrev pub HasCandidate : Address → List Candidate → Type 0
HasCandidate addr cs = Any (λ c. addr_of c.validator ≡ addr) cs

-- The vote of a voter on a candidate.
abbrev pub IsVoteOn : Address → Validator → Vote → Type 0
IsVoteOn voter candidate v = (v.validator ≡ voter) × (v.candidate ≡ candidate)

-- The vote of a voter on an address, with whatever key.
abbrev pub IsVoteAt : Address → Address → Vote → Type 0
IsVoteAt voter addr v = (v.validator ≡ voter) × (addr_of v.candidate ≡ addr)

-- As many of the votes are such.
pub data Counted (P : Vote → Type 0) : List Vote → ℕ → Type 0 where
  none_left : Counted P [] zero
  hit : {v : Vote} {vs : List Vote} {n : ℕ} → P v → Counted P vs n → Counted P (v ∷ vs) (suc n)
  miss : {v : Vote} {vs : List Vote} {n : ℕ} → ¬ P v → Counted P vs n → Counted P (v ∷ vs) n

has_addr-true :
    (addr : Address) (vs : List Validator)
    → has_addr addr vs ≡ true
    → Any (λ v. addr_of v ≡ addr) vs
unfolding has_addr
has_addr-true addr [] e = absurd (cc)
has_addr-true addr (v ∷ vs) e = elim (Bool-cases (addr_of v == addr)) [
  | inl here ↦ inl (ground arith)
  | inr not_here ↦ inr (has_addr-true addr vs (ground arith))
]

has_addr-false :
    (addr : Address) (vs : List Validator)
    → has_addr addr vs ≡ false
    → ¬ Any (λ v. addr_of v ≡ addr) vs
unfolding has_addr
has_addr-false addr [] e m = m
has_addr-false addr (v ∷ vs) e (inl here) = ground arith
has_addr-false addr (v ∷ vs) e (inr later) = has_addr-false addr vs (ground arith) later

module _ (addr : Address) (set : Set) where
  pub includes-true : includes addr set ≡ true → HasMember addr set
  includes-true e = has_addr-true addr set.members (sym (includes-eq addr set) ∙ e)

  pub includes-false : includes addr set ≡ false → ¬ HasMember addr set
  includes-false e = has_addr-false addr set.members (sym (includes-eq addr set) ∙ e)

pub is_candidate-true :
    (addr : Address) (cs : List Candidate) → is_candidate addr cs ≡ true → HasCandidate addr cs
unfolding is_candidate
is_candidate-true addr [] e = absurd (cc)
is_candidate-true addr (c ∷ cs) e = elim (Bool-cases (addr_of c.validator == addr)) [
  | inl here ↦ inl (ground arith)
  | inr not_here ↦ inr (is_candidate-true addr cs (rw not_here at e))
]

pub is_candidate-false :
    (addr : Address) (cs : List Candidate) → is_candidate addr cs ≡ false → ¬ HasCandidate addr cs
unfolding is_candidate
is_candidate-false addr [] e m = m
is_candidate-false addr (c ∷ cs) e (inl here) = ground arith
is_candidate-false addr (c ∷ cs) e (inr later) = is_candidate-false addr cs (ground arith) later

bytes_equal_refl : (k : List ℕ) → bytes_equal k k ≡ true
unfolding bytes_equal
bytes_equal_refl [] = refl
bytes_equal_refl (b ∷ k) = ground (arith, bytes_equal_refl k)

equal_refl : (v : Validator) → equal v v ≡ true
unfolding equal
equal_refl (ecdsa a) = ground arith
equal_refl (bls a k) = ground (arith, bytes_equal_refl k)

count_votes-Counted :
    (P : Vote → Type 0) (h : Vote → Bool)
    → ((v : Vote) → h v ≡ true → P v)
    → ((v : Vote) → h v ≡ false → ¬ P v)
    → (vs : List Vote) → Counted P vs (count_votes h vs)
unfolding count_votes
count_votes-Counted P h yea nay [] = Counted.none_left
count_votes-Counted P h yea nay (v ∷ vs) = elim (Bool-cases (h v)) [
  | inl is_hit ↦ rw is_hit (Counted.hit (yea v is_hit) (count_votes-Counted P h yea nay vs))
  | inr is_miss ↦ rw is_miss (Counted.miss (nay v is_miss) (count_votes-Counted P h yea nay vs))
]

by_voter-true :
    (voter : Address) (candidate : Validator) (v : Vote)
    → (v.validator == voter && equal v.candidate candidate) ≡ true
    → IsVoteOn voter candidate v
by_voter-true voter candidate v e = (ground arith, equal_sound v.candidate candidate (ground arith))

by_voter-false :
    (voter : Address) (candidate : Validator) (v : Vote)
    → (v.validator == voter && equal v.candidate candidate) ≡ false
    → ¬ IsVoteOn voter candidate v
by_voter-false voter candidate v e (own, same) =
    let is_equal : equal v.candidate candidate ≡ true = rw same (equal_refl candidate) in
    ground arith

pub count_by-Counted :
    (voter : Address) (candidate : Validator) (s : Snapshot)
    → Counted (IsVoteOn voter candidate) s.votes (count_by_voter_and_candidate voter candidate s)
unfolding count_by_voter_and_candidate
count_by-Counted voter candidate s =
    count_votes-Counted (IsVoteOn voter candidate) _ (by_voter-true voter candidate)
      (by_voter-false voter candidate) s.votes

-- No vote is counted, or some vote is.
Counted-zero : (P : Vote → Type 0) (vs : List Vote) (n : ℕ) → Counted P vs n → n ≡ 0 → ¬ Any P vs
Counted-zero P vs n Counted.none_left e m = m
Counted-zero P vs n (Counted.hit p c) e m = absurd (omega arith)
Counted-zero P vs n (Counted.miss p c) e (inl here) = p here
Counted-zero P vs n (Counted.miss {vs = ws} p c) e (inr later) = Counted-zero P ws n c e later

Counted-suc : (P : Vote → Type 0) (vs : List Vote) (n : ℕ) → Counted P vs n → n ≢ 0 → Any P vs
Counted-suc P vs n Counted.none_left e = absurd (ground arith)
Counted-suc P vs n (Counted.hit p c) e = inl p
Counted-suc P vs n (Counted.miss {vs = ws} p c) e = inr (Counted-suc P ws n c e)

module _ (snap : Snapshot) (proposer : Address) (c : Candidate) where
  votes_on-Counted :
      Counted (IsVoteAt proposer (addr_of c.validator)) snap.votes (votes_on snap proposer c)
  unfolding votes_on
  votes_on-Counted =
      count_votes-Counted (IsVoteAt proposer (addr_of c.validator)) _
        (λ v e. (ground arith, ground arith)) (λ v e p. ground arith) snap.votes

  pub votes_on-none :
      votes_on snap proposer c ≡ 0 → ¬ Any (IsVoteAt proposer (addr_of c.validator)) snap.votes
  votes_on-none = Counted-zero _ snap.votes (votes_on snap proposer c) votes_on-Counted

  pub votes_on-some :
      votes_on snap proposer c ≢ 0 → Any (IsVoteAt proposer (addr_of c.validator)) snap.votes
  votes_on-some = Counted-suc _ snap.votes (votes_on snap proposer c) votes_on-Counted
