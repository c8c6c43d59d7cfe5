-- ===== src/Validators/Merging.antt =====
-- validators/set.go: `Merge` of two sets.
use mathlib.Core.Path.{subst}
use nxchain.Base.{
  ◌≡◌, ◌∙◌, inl, inr, refl, sym, true, Option, none, List, [], ◌∷◌, ◌++◌, arith, ◌==◌, Bool-cases,
  ◌||◌,
}
use nxchain.Types.{Address}
use nxchain.Validators.{
  ValidatorType, Validator, validator_type, addr_of, same_type, Set, SetError, includes, merge_loop,
  merge,
}
use nxchain.Validators.Laws.{
  IsValidatorSet, AreMembers, has_addr, includes-eq, has_addr-append, append-AreMembers, add-new,
}

same_type_refl : (a : ValidatorType) → same_type a a ≡ true
unfolding same_type
same_type_refl ValidatorType.ecdsa_type = refl
same_type_refl ValidatorType.bls_type = refl

-- What `merge` leaves.
pub record Merged (vs : List Validator) (s : Set) (r : Option SetError × Set) : Type 0 where
  pub succeeds : r.0 ≡ none
  pub valid : IsValidatorSet r.1
  pub kind : r.1.kind ≡ s.kind
  pub both : (a : Address) → includes a r.1 ≡ (includes a s || has_addr a vs)

merge_loop-Merged :
    (vs : List Validator) (s : Set)
    → AreMembers s.kind vs
    → IsValidatorSet s
    → Merged vs s (merge_loop vs s)
unfolding merge_loop has_addr
merge_loop-Merged [] s k h = record {
  succeeds = refl;
  valid = h;
  kind = refl;
  both = λ a. ground arith;
}
merge_loop-Merged (v ∷ vs) s k h = elim (Bool-cases (includes (addr_of v) s)) [
  | inl old ↦
      let m = merge_loop-Merged vs s k.2 h in
      rw old (record {
        succeeds = m.succeeds;
        valid = m.valid;
        kind = m.kind;
        both = λ a. m.both a ∙ again a old;
      })
  | inr new ↦
      let s' : Set = record s { members = s.members ++ v ∷ [] } in
      let same : same_type s.kind (validator_type v) ≡ true = rw (k.0) (same_type_refl s.kind) in
      let valid =
        append-AreMembers s.kind s.members v k.0 (sym (includes-eq (addr_of v) s) ∙ new) h in
      let m = merge_loop-Merged vs s' k.2 valid in
      rw (new, add-new v s same new, merge_loop, add-new v s same new)
        (record {
          succeeds = m.succeeds;
          valid = m.valid;
          kind = m.kind;
          both = λ a.
              m.both a
              ∙ ground
                  (arith, includes-eq a s', includes-eq a s, has_addr-append a s.members (v ∷ []));
        })
]
  where
    again :
        (a : Address)
        → includes (addr_of v) s ≡ true
        → (includes a s || has_addr a vs) ≡ (includes a s || (addr_of v == a || has_addr a vs))
    again a old = elim (Bool-cases (addr_of v == a)) [
      | inl e ↦ let e' : addr_of v ≡ a = ground arith in rw (← e') (rw old refl)
      | inr ne ↦ rw ne refl
    ]

-- Merge of two valid sets of one kind succeeds, and leaves a set of that kind with exactly the
-- addresses of both, one validator for each.
pub merge_correct :
    (ss s : Set)
    → ss.kind ≡ s.kind
    → IsValidatorSet ss
    → IsValidatorSet s
    → Merged ss.members s (merge ss s)
unfolding merge
merge_correct ss s e hs h =
    let same : same_type s.kind ss.kind ≡ true = rw e (same_type_refl s.kind) in
    rw same (merge_loop-Merged ss.members s (subst (λ k. AreMembers k ss.members) e hs) h)
