-- ===== src/Validators.antt =====
-- validators/: the kinds of validators (types.go, ecdsa.go, bls.go) and the set of them (set.go).
-- A copy of a validator is the validator. RLP coding is in Bls; JSON encoding is not modelled.
pub mod Laws
pub mod Bls
pub mod Merging
mod Tests
use nxchain.Base.{
  ℕ, zero, suc, ◌+◌, Bool, true, false, Option, none, some, List, [], ◌∷◌, ◌++◌, ◌==◌,
  if◌then◌else◌, length, get_elem?, take, drop, ◌&&◌, not,
}
use nxchain.Types.{Address}

pub data ValidatorType : Type 0 where
  ecdsa_type bls_type : ValidatorType

-- A BLS public key is its bytes.
pub data Validator : Type 0 where
  ecdsa : Address → Validator
  bls : Address → List ℕ → Validator

unfoldable pub validator_type : Validator → ValidatorType
validator_type (ecdsa a) = ValidatorType.ecdsa_type
validator_type (bls a k) = ValidatorType.bls_type

unfoldable pub addr_of : Validator → Address
addr_of (ecdsa a) = a
addr_of (bls a k) = a

unfoldable pub same_type : ValidatorType → ValidatorType → Bool
same_type ValidatorType.ecdsa_type ValidatorType.ecdsa_type = true
same_type ValidatorType.bls_type ValidatorType.bls_type = true
same_type _ _ = false

-- `bytes.Equal`
unfoldable pub bytes_equal : List ℕ → List ℕ → Bool
bytes_equal [] [] = true
bytes_equal (a ∷ k) (b ∷ l) = a == b && bytes_equal k l
bytes_equal _ _ = false

-- Validators of two kinds are never equal.
unfoldable pub equal : Validator → Validator → Bool
unfolding bytes_equal
equal (ecdsa a) (ecdsa b) = a == b
equal (bls a k) (bls b l) = a == b && bytes_equal k l
equal _ _ = false

pub data SetError : Type 0 where
  mismatch_validator_type mismatch_validators_type already_exists not_found : SetError

pub record Set : Type 0 where
  pub kind : ValidatorType
  pub members : List Validator

unfoldable pub len : Set → ℕ
len s = length s.members

-- The loop of `Index`, from position `i`; `none` is -1.
unfoldable pub index_from : ℕ → Address → List Validator → Option ℕ
index_from i addr [] = none
index_from i addr (v ∷ vs) = if addr_of v == addr then some i else index_from (i + 1) addr vs

unfoldable pub index : Address → Set → Option ℕ
index addr s = index_from 0 addr s.members

unfoldable pub includes : Address → Set → Bool
includes addr s = elim (index addr s) [ none ↦ false | some i ↦ true ]

-- `none` is the nil error.
unfoldable pub add : Validator → Set → Option SetError × Set
add v s =
    if not (same_type s.kind (validator_type v))
    then (some mismatch_validator_type, s)
    else if includes (addr_of v) s
    then (some already_exists, s)
    else (none, record s { members = s.members ++ v ∷ [] })

abbrev pub remove_at : ℕ → List Validator → List Validator
remove_at i vs = take i vs ++ drop (suc i) vs

unfoldable pub del : Validator → Set → Option SetError × Set
del v s =
    if not (same_type s.kind (validator_type v))
    then (some mismatch_validator_type, s)
    else elim (index (addr_of v) s) [
      | none ↦ (some not_found, s)
      | some i ↦ (none, record s { members = remove_at i s.members })
    ]

-- The loop of `Merge`, which stops at an error and keeps what it has added.
unfoldable pub merge_loop : List Validator → Set → Option SetError × Set
merge_loop [] s = (none, s)
merge_loop (v ∷ vs) s =
    let skip = merge_loop vs s in
    let rest = merge_loop vs (add v s).1 in
    let added : Option SetError × Set = elim (add v s).0 [
      | none ↦ rest
      | some e ↦ (some e, (add v s).1)
    ] in
    if includes (addr_of v) s then skip else added

unfoldable pub merge : Set → Set → Option SetError × Set
unfolding merge_loop
merge ss s =
    if not (same_type s.kind ss.kind)
    then (some mismatch_validators_type, s)
    else merge_loop ss.members s

unfoldable pub equal_members : List Validator → List Validator → Bool
equal_members [] [] = true
equal_members (v ∷ vs) (w ∷ ws) = equal v w && equal_members vs ws
equal_members _ _ = false

-- The loop runs over the places of two lists of one length.
unfoldable pub equal_sets : Set → Set → Bool
unfolding equal_members
equal_sets s t =
    if not (same_type s.kind t.kind)
    then false
    else if not (len s == len t)
    then false
    else equal_members s.members t.members
