-- ===== src/Validators/Laws.antt =====
-- A set keeps one validator for each address, all of its kind.
use nxchain.Base.{
  ℕ, zero, suc, ◌+◌, ◌≡◌, ◌≢◌, ◌⊎◌, ◌∙◌, inl, inr, refl, sym, ap, Bool, true, false, Option, none,
  some, List, [], ◌∷◌, ◌++◌, arith, ◌==◌, length, length-append, Bool-cases, ◌||◌,
}
use nxchain.Types.{Address}
use nxchain.Validators.{
  ValidatorType, Validator, validator_type, addr_of, same_type, Set, SetError, index_from, index,
  includes, add, del, remove_at, mismatch_validator_type, already_exists, not_found,
}

-- Some validator of the list has the address.
unfoldable pub has_addr : Address → List Validator → Bool
has_addr addr [] = false
has_addr addr (v ∷ vs) = addr_of v == addr || has_addr addr vs

-- No address stands twice, and all are of one kind.
abbrev pub AreMembers : ValidatorType → List Validator → Type 0
AreMembers kind [] = Unit
AreMembers kind (v ∷ vs) =
    (validator_type v ≡ kind) × (has_addr (addr_of v) vs ≡ false) × AreMembers kind vs

abbrev pub IsValidatorSet : Set → Type 0
IsValidatorSet s = AreMembers s.kind s.members

-- The first validator with the address stands at the place.
data FoundAt (addr : Address) : List Validator → ℕ → Type 0 where
  here : {v : Validator} {vs : List Validator} → addr_of v ≡ addr → FoundAt addr (v ∷ vs) zero
  there :
      {v : Validator} {vs : List Validator} {j : ℕ}
      → addr_of v ≢ addr
      → FoundAt addr vs j
      → FoundAt addr (v ∷ vs) (suc j)

index_from-cases :
    (i : ℕ) (addr : Address) (vs : List Validator)
    → (index_from i addr vs ≡ none) × (has_addr addr vs ≡ false)
      ⊎ ((j : ℕ) × (index_from i addr vs ≡ some (i + j))
          × FoundAt addr vs j
          × (has_addr addr vs ≡ true))
unfolding index_from has_addr
index_from-cases i addr [] = inl (refl, refl)
index_from-cases i addr (v ∷ vs) = elim (Bool-cases (addr_of v == addr)) [
  | inl e ↦ inr (0, rw e (ap some (omega arith)), FoundAt.here (ground arith), rw e refl)
  | inr ne ↦ elim (index_from-cases (i + 1) addr vs) [
    | inl absent ↦ inl (rw ne absent.0, rw ne absent.1)
    | inr (j, e, f, t) ↦
        inr (suc j, rw ne (e ∙ ap some (omega arith)), FoundAt.there (ground arith) f, rw ne t)
  ]
]

index-cases :
    (addr : Address) (s : Set)
    → (index addr s ≡ none) × (has_addr addr s.members ≡ false)
      ⊎ ((j : ℕ) × (index addr s ≡ some j)
          × FoundAt addr s.members j
          × (has_addr addr s.members ≡ true))
unfolding index
index-cases addr s = elim (index_from-cases 0 addr s.members) [
  | inl absent ↦ inl absent
  | inr (j, e, f, t) ↦ inr (j, e ∙ ap some (omega arith), f, t)
]

pub includes-eq : (addr : Address) (s : Set) → includes addr s ≡ has_addr addr s.members
unfolding includes
includes-eq addr s = elim (index-cases addr s) [
  | inl absent ↦ rw (absent.0, absent.1, includes)
  | inr (j, e, f, t) ↦ rw (e, t, includes)
]

pub has_addr-append :
    (addr : Address) (vs ws : List Validator)
    → has_addr addr (vs ++ ws) ≡ (has_addr addr vs || has_addr addr ws)
unfolding has_addr
has_addr-append addr [] ws = refl
has_addr-append addr (v ∷ vs) ws = ground (arith, has_addr-append addr vs ws)

pub append-AreMembers :
    (kind : ValidatorType) (vs : List Validator) (v : Validator)
    → validator_type v ≡ kind
    → has_addr (addr_of v) vs ≡ false
    → AreMembers kind vs
    → AreMembers kind (vs ++ v ∷ [])
unfolding has_addr
append-AreMembers kind [] v k n h = (k, refl, tt)
append-AreMembers kind (w ∷ vs) v k n h = (
  h.0,
  has_addr-append (addr_of w) vs (v ∷ []) ∙ ground arith,
  append-AreMembers kind vs v k (ground arith) h.2,
)

-- Removing the place where an address is found removes that address alone.
remove-has :
    (addr b : Address) {vs : List Validator} {j : ℕ}
    → FoundAt addr vs j
    → b ≢ addr
    → has_addr b (remove_at j vs) ≡ has_addr b vs
unfolding has_addr
remove-has addr b (FoundAt.here e) ne = ground arith
remove-has addr b (FoundAt.there d f) ne = ground (arith, remove-has addr b f ne)

remove-gone :
    (kind : ValidatorType) (addr : Address) {vs : List Validator} {j : ℕ}
    → FoundAt addr vs j
    → AreMembers kind vs
    → has_addr addr (remove_at j vs) ≡ false
unfolding has_addr
remove-gone kind addr (FoundAt.here {v = v} e) h = rw (← e) h.1
remove-gone kind addr (FoundAt.there d f) h = ground (arith, remove-gone kind addr f h.2)

has_addr-remove_le :
    (addr b : Address) {vs : List Validator} {j : ℕ}
    → FoundAt addr vs j
    → has_addr b vs ≡ false
    → has_addr b (remove_at j vs) ≡ false
unfolding has_addr
has_addr-remove_le addr b (FoundAt.here e) n = ground arith
has_addr-remove_le addr b (FoundAt.there d f) n = ground (arith, has_addr-remove_le addr b f)

remove-AreMembers :
    (kind : ValidatorType) (addr : Address) {vs : List Validator} {j : ℕ}
    → FoundAt addr vs j
    → AreMembers kind vs
    → AreMembers kind (remove_at j vs)
remove-AreMembers kind addr (FoundAt.here e) h = h.2
remove-AreMembers kind addr (FoundAt.there {v = v} d f) h =
    (h.0, has_addr-remove_le addr (addr_of v) f h.1, remove-AreMembers kind addr f h.2)

remove-length :
    (addr : Address) {vs : List Validator} {j : ℕ}
    → FoundAt addr vs j
    → suc (length (remove_at j vs)) ≡ length vs
remove-length addr (FoundAt.here e) = refl
remove-length addr (FoundAt.there d f) = ap suc (remove-length addr f)

-- How `add` ends.
pub data Adds (v : Validator) (s : Set) : Option SetError × Set → Type 0 where
  mismatch :
      same_type s.kind (validator_type v) ≡ false → Adds v s (some mismatch_validator_type, s)
  known : includes (addr_of v) s ≡ true → Adds v s (some already_exists, s)
  added :
      (s' : Set)
      → includes (addr_of v) s ≡ false
      → s'.kind ≡ s.kind
      → ((a : Address) → includes a s' ≡ (addr_of v == a || includes a s))
      → length s'.members ≡ length s.members + 1
      → Adds v s (none, s')

same_type-eq : (a b : ValidatorType) → same_type a b ≡ true → b ≡ a
unfolding same_type
same_type-eq ValidatorType.ecdsa_type ValidatorType.ecdsa_type h = refl
same_type-eq ValidatorType.ecdsa_type ValidatorType.bls_type h = cc
same_type-eq ValidatorType.bls_type ValidatorType.ecdsa_type h = cc
same_type-eq ValidatorType.bls_type ValidatorType.bls_type h = refl

-- On a set with one validator for each address and one kind, Add leaves such a set. It refuses,
-- and changes nothing, a validator of another kind or with an address that the set has; else the
-- set has that address besides those it had.
pub add_correct :
    (v : Validator) (s : Set) → IsValidatorSet s → Adds v s (add v s) × IsValidatorSet (add v s).1
unfolding add has_addr
add_correct v s h = elim (Bool-cases (same_type s.kind (validator_type v))) [
  | inr differs ↦ rw differs (Adds.mismatch differs, h)
  | inl same ↦ rw same (elim (Bool-cases (includes (addr_of v) s)) [
    | inl old ↦ rw old (Adds.known old, h)
    | inr new ↦
        let s' : Set = record s { members = s.members ++ v ∷ [] } in
        rw new (
          Adds.added s' new refl
              (λ a.
                ground
                  (arith, includes-eq a s', includes-eq a s, has_addr-append a s.members (v ∷ [])))
              (omega (arith, length-append s.members (v ∷ []))),
          append-AreMembers s.kind s.members v (same_type-eq s.kind (validator_type v) same)
              (sym (includes-eq (addr_of v) s) ∙ new) h,
        )
  ])
]

-- How `del` ends.
pub data Dels (v : Validator) (s : Set) : Option SetError × Set → Type 0 where
  mismatch :
      same_type s.kind (validator_type v) ≡ false → Dels v s (some mismatch_validator_type, s)
  unknown : includes (addr_of v) s ≡ false → Dels v s (some not_found, s)
  deleted :
      (s' : Set)
      → includes (addr_of v) s ≡ true
      → s'.kind ≡ s.kind
      → includes (addr_of v) s' ≡ false
      → ((a : Address) → a ≢ addr_of v → includes a s' ≡ includes a s)
      → suc (length s'.members) ≡ length s.members
      → Dels v s (none, s')

-- On a set with one validator for each address and one kind, Del leaves such a set. It refuses,
-- and changes nothing, a validator of another kind or with an address that the set lacks; else the
-- set lacks that address and no other.
pub del_correct :
    (v : Validator) (s : Set) → IsValidatorSet s → Dels v s (del v s) × IsValidatorSet (del v s).1
unfolding del
del_correct v s h = elim (Bool-cases (same_type s.kind (validator_type v))) [
  | inr differs ↦ rw differs (Dels.mismatch differs, h)
  | inl same ↦ elim (index-cases (addr_of v) s) [
    | inl absent ↦ rw (same, absent.0, del) (Dels.unknown (includes-eq (addr_of v) s ∙ absent.1), h)
    | inr (j, e, f, t) ↦
        let s' : Set = record s { members = remove_at j s.members } in
        rw (same, e, del)
          (
            Dels.deleted s' (includes-eq (addr_of v) s ∙ t) refl
                (includes-eq (addr_of v) s' ∙ remove-gone s.kind (addr_of v) f h)
                (λ a ne. includes-eq a s' ∙ remove-has (addr_of v) a f ne ∙ sym (includes-eq a s))
                (remove-length (addr_of v) f),
            remove-AreMembers s.kind (addr_of v) f h,
          )
  ]
]

pub add-new :
    (v : Validator) (s : Set)
    → same_type s.kind (validator_type v) ≡ true
    → includes (addr_of v) s ≡ false
    → add v s ≡ (none, record s { members = s.members ++ v ∷ [] })
unfolding add
add-new v s same new = rw (same, new)
