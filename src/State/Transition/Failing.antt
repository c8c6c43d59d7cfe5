-- ===== src/State/Transition/Failing.antt =====
-- state/executor.go: the state that a failed call leaves.
use nxchain.Base.{
  ℕ, ◌≤◌, ◌<◌, ◌⊎◌, arith, refl, Option-cases, ◌*◌, ◌%◌, Bool, true, false, Option, none, some, ltb,
  if◌then◌else◌, ◌&&◌, length, ◌≡◌, inl, inr, Bool-cases, sym,
}
use mathlib.Core.Path.{subst}
use nxchain.Types.{u64_mod, Hash}
use nxchain.Chain.{ForksInTime}
use nxchain.State.Runtime.{VmError, CallType, Contract, ExecutionResult, failed}
use nxchain.State.Transition.{
  Ledger, Runtimes, transfer, stopped_with, is_plain_call, max_depth, spurious_dragon_max_code_size,
  pays_for_code, run, run_call, apply_call, has_code_or_nonce, store_code, run_create, apply_create,
  is_create, callx,
}

-- The caller cannot pay the value of the call out of the state `s`.
abbrev pub CannotPay : {S : Type 0} → Ledger S → Contract → S → Type 0
CannotPay l c s = (amount : ℕ) × (c.value ≡ some amount) × (l.sub_balance c.caller amount s ≡ none)

-- The state once a creation has its account, with the nonce of a contract.
abbrev pub with_account : {S : Type 0} → Ledger S → Contract → S → S
with_account l c s = l.incr_nonce c.address (l.create_account c.address (l.incr_nonce c.caller s))

-- What may be left of a call that has failed with the result `r`, and when.
pub data LeftBy {S : Type 0} (l : Ledger S) (config : ForksInTime) (c : Contract) (s : S)
    (r : ExecutionResult) : S → Type 0 where
  -- A call, or a creation that is too deep, leaves nothing.
  nothing : (is_create c.type ≡ false) ⊎ (max_depth < c.depth) → LeftBy l config c s r s
  -- A call that the caller cannot pay leaves the mark that its account was touched.
  touch :
      is_create c.type ≡ false
      → CannotPay l c (l.touch_account c.address s)
      → r ≡ stopped_with VmError.insufficient_balance c.gas
      → LeftBy l config c s r (l.touch_account c.address s)
  -- A creation leaves the nonce that it takes of its creator.
  nonce :
      is_create c.type ≡ true
      → c.depth ≤ max_depth
      → LeftBy l config c s r (l.incr_nonce c.caller s)
  -- With the rules of EIP158, a creation that the creator cannot pay leaves the new account as well.
  account :
      is_create c.type ≡ true
      → config.eip158 ≡ true
      → CannotPay l c (with_account l c s)
      → r ≡ stopped_with VmError.insufficient_balance c.gas
      → LeftBy l config c s r (with_account l c s)

transfer-none :
    {S : Type 0} (l : Ledger S) (t : Runtimes S) (config : ForksInTime) (empty_code_hash : Hash)
    (c : Contract) (s : S)
    → transfer l t config empty_code_hash c.caller c.address c.value s ≡ none
    → CannotPay l c s
unfolding transfer
transfer-none l t config empty_code_hash c s e = elim (Option-cases c.value) [
  | inl free ↦ absurd (ground (arith, e, free))
  | inr (amount, v) ↦ elim (Option-cases (l.sub_balance c.caller amount s)) [
    | inl poor ↦ (amount, v, poor)
    | inr (s', paid) ↦ absurd (ground (arith, e, v, paid))
  ]
]

module _ {S : Type 0} (l : Ledger S) (t : Runtimes S) (config : ForksInTime)
    (empty_code_hash : Hash) (homestead : config.homestead ≡ true) (c : Contract) (s : S) where
  abbrev Reverts : ExecutionResult × S → Type 0
  Reverts (r, s') = failed r ≡ true → LeftBy l config c s r s'

  Reverts-if :
      (b : Bool) (p q : ExecutionResult × S)
      → (b ≡ true → Reverts p)
      → (b ≡ false → Reverts q)
      → Reverts (if b then p else q)
  Reverts-if true p q left right = left refl
  Reverts-if false p q left right = right refl

  Reverts-run :
      (r : ExecutionResult) (s1 s2 : S)
      → LeftBy l config c s r s1
      → Reverts (r, if failed r then s1 else s2)
  Reverts-run r s1 s2 left e =
      subst (λ b. LeftBy l config c s r (if b then s1 else s2)) (sym e) left

  run_call-Reverts :
      (paid : Option S)
      → is_create c.type ≡ false
      → (paid ≡ none → CannotPay l c (l.touch_account c.address s))
      → Reverts (run_call l t config empty_code_hash c s paid (l.touch_account c.address s))
  unfolding run_call
  run_call-Reverts none call poor e = LeftBy.touch call (poor refl) refl
  run_call-Reverts (some s') call poor e =
      let out = run l t config empty_code_hash c s' in
      Reverts-run out.0 s out.1 (LeftBy.nothing (inl call)) e

  -- What `apply_call` pays with.
  called-CannotPay :
      (kind : CallType) (s' : S)
      → (if is_plain_call kind
          then transfer l t config empty_code_hash c.caller c.address c.value s'
          else some s')
        ≡ none
      → CannotPay l c s'
  called-CannotPay kind s' e = elim (Bool-cases (is_plain_call kind)) [
    | inl plain ↦ transfer-none l t config empty_code_hash c s' (rw plain at e)
    | inr free ↦ absurd (ground (arith, e, free))
  ]

  module _ (create : is_create c.type ≡ true) (shallow : c.depth ≤ max_depth) where
    store_code-Reverts :
        (out : ExecutionResult × S)
        → Reverts (store_code l t config empty_code_hash c (l.incr_nonce c.caller s) out)
    unfolding store_code pays_for_code failed
    store_code-Reverts (r, s') = elim (Bool-cases (failed r)) [
      | inl bad ↦ rw bad λ e. LeftBy.nonce create shallow
      | inr good ↦
          elim (Bool-cases
            (config.eip158 && ltb spurious_dragon_max_code_size (length r.return_value))) [
              | inl long ↦ rw (good, long) λ e. LeftBy.nonce create shallow
              | inr fits ↦
                  elim (Bool-cases (ltb r.gas_left (length r.return_value * 200 % u64_mod))) [
                    | inl poor ↦ rw (good, fits, poor, homestead) λ e. LeftBy.nonce create shallow
                    | inr pays ↦ rw (good, fits, pays) λ e. cc
                  ]
            ]
    ]

    run_create-Reverts :
        (created : S) (paid : Option S)
        → created ≡ (if config.eip158 then with_account l c s else l.incr_nonce c.caller s)
        → (paid ≡ none → CannotPay l c created)
        → Reverts (run_create l t config empty_code_hash c (l.incr_nonce c.caller s) paid created)
    unfolding run_create
    run_create-Reverts created none made poor e = elim (Bool-cases config.eip158) [
      | inl on ↦
          let here : created ≡ with_account l c s = rw on at made in
          rw here (LeftBy.account create on (rw here at (poor refl)) refl)
      | inr off ↦
          let here : created ≡ l.incr_nonce c.caller s = rw off at made in
          rw here (LeftBy.nonce create shallow)
    ]
    run_create-Reverts created (some s') made poor e =
        store_code-Reverts (run l t config empty_code_hash c s') e

  -- With the rules of Homestead, a call or a creation that ends in an error leaves nothing of what its
  -- contract did. A call leaves nothing, or the mark that its account was touched, where the caller could
  -- not pay. A creation leaves nothing where it is too deep, and else the nonce of its creator, with the
  -- new account only under EIP158 and where the creator could not pay.
  pub callx-LeftBy :
      failed (callx l t config empty_code_hash c s).0 ≡ true
      → LeftBy l config c s
          (callx l t config empty_code_hash c s).0
          (callx l t config empty_code_hash c s).1
  unfolding callx apply_create apply_call
  callx-LeftBy =
      Reverts-if (is_create c.type) _ _
        (λ create.
          Reverts-if (ltb max_depth c.depth) _ _ (λ deep e. LeftBy.nothing (inr (ground arith)))
            (λ shallow.
              Reverts-if
                (has_code_or_nonce l t config empty_code_hash c.address (l.incr_nonce c.caller s)) _
                _ (λ used e. LeftBy.nonce create (ground arith))
                (λ unused.
                  run_create-Reverts create (ground arith) _ _ refl
                    (transfer-none l t config empty_code_hash c _))))
        (λ call.
          Reverts-if (ltb max_depth c.depth) _ _ (λ deep e. LeftBy.nothing (inl call))
            (λ shallow. run_call-Reverts _ call (called-CannotPay c.type _)))
