-- ===== src/Snapshot/Candidates/Next.antt =====
-- `getNextCandidate`: which candidates stay, and which one is voted on next.
use nxchain.Base.{
  ◌≡◌, refl, arith, Bool, true, false, Option, none, some, List, [], ◌∷◌, ◌==◌, same, Any,
  Bool-cases, inl, inr, ◌⊎◌,
}
use nxchain.Types.{Address}
use nxchain.Validators.{addr_of, Set, includes}
use nxchain.Snapshot.{Snapshot}
use nxchain.Snapshot.Candidates.{
  Candidate, clean_obsolete_candidates, votes_on, pick_one_candidate, get_next_candidate,
}
use nxchain.Snapshot.Candidates.Readings.{
  HasMember, IsVoteAt, includes-true, includes-false, votes_on-none, votes_on-some,
}

-- The set does not follow the candidate yet: it is to join and no member, or to leave and a member.
abbrev pub IsOpen : Set → Candidate → Type 0
IsOpen set c =
    (c.authorize ≡ true) × (¬ HasMember (addr_of c.validator) set)
    ⊎ (c.authorize ≡ false) × HasMember (addr_of c.validator) set

-- The open candidates of the first list, in their order.
pub data OpenOf (set : Set) : List Candidate → List Candidate → Type 0 where
  no_more : OpenOf set [] []
  keep :
      {c : Candidate} {cs ds : List Candidate}
      → IsOpen set c
      → OpenOf set cs ds
      → OpenOf set (c ∷ cs) (c ∷ ds)
  skip :
      {c : Candidate} {cs ds : List Candidate}
      → ¬ IsOpen set c
      → OpenOf set cs ds
      → OpenOf set (c ∷ cs) ds

-- Some vote of the snapshot is the proposer's on the candidate's address.
abbrev pub HasVoted : Snapshot → Address → Candidate → Type 0
HasVoted snap proposer c = Any (IsVoteAt proposer (addr_of c.validator)) snap.votes

-- The first candidate that the proposer has not voted on, if there is one.
pub data FirstNew (snap : Snapshot) (proposer : Address)
    : List Candidate → Option Candidate → Type 0 where
  all_voted : FirstNew snap proposer [] none
  first :
      {c : Candidate} {cs : List Candidate}
      → ¬ HasVoted snap proposer c
      → FirstNew snap proposer (c ∷ cs) (some c)
  later :
      {c : Candidate} {cs : List Candidate} {o : Option Candidate}
      → HasVoted snap proposer c
      → FirstNew snap proposer cs o
      → FirstNew snap proposer (c ∷ cs) o

-- The candidates that stay, and the one that is voted on.
pub record NextCandidate (snap : Snapshot) (proposer : Address) (cs : List Candidate)
    (r : Option Candidate × List Candidate) : Type 0 where
  pub kept : OpenOf snap.set cs r.1
  pub picked : FirstNew snap proposer r.1 r.0

same-IsOpen :
    (set : Set) (c : Candidate) (way : Bool)
    → c.authorize ≡ way
    → same way (includes (addr_of c.validator) set) ≡ false
    → IsOpen set c
same-IsOpen set c true e unsettled = inl (e, includes-false (addr_of c.validator) set unsettled)
same-IsOpen set c false e unsettled =
    inr (e, includes-true (addr_of c.validator) set (ground arith))

same-not-IsOpen :
    (set : Set) (c : Candidate)
    → same c.authorize (includes (addr_of c.validator) set) ≡ true
    → ¬ IsOpen set c
same-not-IsOpen set c settled (inl (yea, absent)) =
    absent (includes-true (addr_of c.validator) set (rw yea at settled))
same-not-IsOpen set c settled (inr (nay, present)) =
    includes-false (addr_of c.validator) set (ground arith) present

clean-OpenOf : (set : Set) (cs : List Candidate) → OpenOf set cs (clean_obsolete_candidates set cs)
unfolding clean_obsolete_candidates
clean-OpenOf set [] = OpenOf.no_more
clean-OpenOf set (c ∷ cs) =
    elim (Bool-cases (same c.authorize (includes (addr_of c.validator) set))) [
      | inl settled ↦ rw settled (OpenOf.skip (same-not-IsOpen set c settled) (clean-OpenOf set cs))
      | inr unsettled ↦
          rw unsettled
            (OpenOf.keep (same-IsOpen set c c.authorize refl unsettled) (clean-OpenOf set cs))
    ]

pick-FirstNew :
    (snap : Snapshot) (proposer : Address) (cs : List Candidate)
    → FirstNew snap proposer cs (pick_one_candidate snap proposer cs)
unfolding pick_one_candidate
pick-FirstNew snap proposer [] = FirstNew.all_voted
pick-FirstNew snap proposer (c ∷ cs) = elim (Bool-cases (votes_on snap proposer c == 0)) [
  | inl fresh ↦ rw fresh (FirstNew.first (votes_on-none snap proposer c (ground arith)))
  | inr voted ↦ rw voted (
      FirstNew.later (votes_on-some snap proposer c (ground arith))
        (pick-FirstNew snap proposer cs))
]

-- getNextCandidate keeps, in their order, exactly the candidates that the set does not follow yet: those
-- to join that are no members, and those to leave that are. It answers the first of them whose address no
-- vote of the proposer names, and nil only if each has such a vote.
pub get_next_candidate_correct :
    (snap : Snapshot) (proposer : Address) (cs : List Candidate)
    → NextCandidate snap proposer cs (get_next_candidate snap proposer cs)
unfolding get_next_candidate
get_next_candidate_correct snap proposer cs = record {
  kept = clean-OpenOf snap.set cs;
  picked = pick-FirstNew snap proposer (clean_obsolete_candidates snap.set cs);
}
