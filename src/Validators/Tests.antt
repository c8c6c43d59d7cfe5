-- ===== src/Validators/Tests.antt =====
-- Small validator sets, and the laws of the set on them.
use nxchain.Base.{◌≡◌, refl, arith, none, some, [], ◌∷◌}
use nxchain.Validators.{
  ValidatorType, ecdsa, bls, Set, mismatch_validator_type, add, del, merge, includes, index,
  index_from, addr_of, validator_type, same_type,
}
use nxchain.Validators.Merging.{Merged, merge_correct}
use nxchain.Validators.Laws.{IsValidatorSet, has_addr, Adds, Dels, add_correct, del_correct}

abbrev three : Set
three = record { kind = ValidatorType.ecdsa_type; members = ecdsa 1 ∷ ecdsa 2 ∷ ecdsa 3 ∷ [] }

abbrev two : Set
two = record { kind = ValidatorType.ecdsa_type; members = ecdsa 3 ∷ ecdsa 4 ∷ [] }

run-del : del (ecdsa 2) three ≡ (none, record three { members = ecdsa 1 ∷ ecdsa 3 ∷ [] })
unfolding del index index_from validator_type same_type addr_of
run-del = refl

run-mismatch : add (bls 5 (7 ∷ [])) three ≡ (some mismatch_validator_type, three)
unfolding add validator_type same_type
run-mismatch = refl

run-merge :
    merge two three ≡ (none, record three { members = ecdsa 1 ∷ ecdsa 2 ∷ ecdsa 3 ∷ ecdsa 4 ∷ [] })
unfolding merge add includes index index_from validator_type same_type addr_of
run-merge = refl

three-IsValidatorSet : IsValidatorSet three
unfolding has_addr validator_type addr_of
three-IsValidatorSet = ground arith

two-IsValidatorSet : IsValidatorSet two
unfolding has_addr validator_type addr_of
two-IsValidatorSet = ground arith

add_correct_example :
    Adds (ecdsa 4) three (add (ecdsa 4) three) × IsValidatorSet (add (ecdsa 4) three).1
add_correct_example = add_correct (ecdsa 4) three three-IsValidatorSet

del_correct_example :
    Dels (ecdsa 2) three (del (ecdsa 2) three) × IsValidatorSet (del (ecdsa 2) three).1
del_correct_example = del_correct (ecdsa 2) three three-IsValidatorSet

merge_correct_example : Merged two.members three (merge two three)
merge_correct_example = merge_correct two three refl two-IsValidatorSet three-IsValidatorSet
