-- ===== src/State/Transition.antt =====
-- state/executor.go: calls and creations of contracts, which Callx runs for the EVM. The state of
-- state/txn.go is behind the record `Ledger`; a snapshot is the state itself. Tracing is left out.
pub mod Gas
pub mod Failing
mod Tests
use nxchain.Base.{
  ℕ, ◌+◌, ◌-◌, ◌*◌, ◌%◌, Bool, true, false, Option, none, some, List, [], ltb, ◌==◌, if◌then◌else◌,
  ◌&&◌, ◌||◌, not, length,
}
use nxchain.Types.{Address, Hash, u64_mod}
use nxchain.Chain.{ForksInTime}
use nxchain.State.Runtime.{VmError, CallType, Contract, ExecutionResult, failed}

-- The operations of `Txn` that calls use; `sub_balance` is none on ErrNotEnoughFunds.
pub record Ledger (S : Type 0) : Type 0 where
  pub sub_balance : Address → ℕ → S → Option S
  pub add_balance : Address → ℕ → S → S
  pub get_nonce : Address → S → ℕ
  pub incr_nonce : Address → S → S
  pub get_code_hash : Address → S → Hash
  pub set_code : Address → List ℕ → S → S
  pub create_account : Address → S → S
  pub touch_account : Address → S → S
  pub get_balance : Address → S → ℕ
  pub get_code : Address → S → List ℕ
  pub get_refund : S → ℕ

-- The runtimes: the precompiled contracts, which say what they can run, and the EVM, which runs the rest.
pub record Runtimes (S : Type 0) : Type 0 where
  pub precompiled : Contract → Bool
  pub run_precompiled : Contract → S → ExecutionResult × S
  pub run_evm : Contract → S → ExecutionResult × S

abbrev pub max_depth : ℕ
max_depth = 1025

abbrev pub spurious_dragon_max_code_size : ℕ
spurious_dragon_max_code_size = 24576

unfoldable pub stopped_with : VmError → ℕ → ExecutionResult
stopped_with e gas = record { return_value = []; gas_left = gas; gas_used = 0; err = some e }

-- `gas_left -= cost`, which wraps, and the other ends of a creation whose run has succeeded.
unfoldable pub pays_for_code : ExecutionResult → ℕ → ExecutionResult
pays_for_code r cost = record r { gas_left = (r.gas_left + u64_mod - cost) % u64_mod }

unfoldable pub code_store_failed : Bool → ExecutionResult → ExecutionResult
code_store_failed homestead r = record r {
  return_value = [];
  err = some VmError.code_store_out_of_gas;
  gas_left = if homestead then 0 else r.gas_left;
}

unfoldable pub is_plain_call : CallType → Bool
is_plain_call CallType.call = true
is_plain_call _ = false

unfoldable pub is_create : CallType → Bool
is_create CallType.create = true
is_create _ = false

module _ {S : Type 0} (l : Ledger S) (t : Runtimes S) (config : ForksInTime)
    (empty_code_hash : Hash) where
  unfoldable pub run : Contract → S → ExecutionResult × S
  run c s =
      let first = t.run_precompiled c s in
      let second = t.run_evm c s in if t.precompiled c then first else second

  -- `none` is ErrInsufficientBalance.
  unfoldable pub transfer : Address → Address → Option ℕ → S → Option S
  transfer from to none s = some s
  transfer from to (some amount) s = elim (l.sub_balance from amount s) [
    | none ↦ none
    | some s' ↦ some (l.add_balance to amount s')
  ]

  -- The run of a call, with the snapshot that a failure goes back to.
  unfoldable pub run_call : Contract → S → Option S → S → ExecutionResult × S
  unfolding run
  run_call c snapshot none touched = (stopped_with VmError.insufficient_balance c.gas, touched)
  run_call c snapshot (some s) touched =
      let (r, s') = run c s in (r, if failed r then snapshot else s')

  unfoldable pub apply_call : Contract → CallType → S → ExecutionResult × S
  unfolding run_call is_plain_call transfer
  apply_call c kind s =
      let touched = l.touch_account c.address s in
      let paid = transfer c.caller c.address c.value touched in
      let called = run_call c s (if is_plain_call kind then paid else some touched) touched in
      if ltb max_depth c.depth then (stopped_with VmError.call_depth c.gas, s) else called

  unfoldable pub has_code_or_nonce : Address → S → Bool
  has_code_or_nonce addr s =
      not (l.get_nonce addr s == 0)
      || (not (l.get_code_hash addr s == empty_code_hash) && not (l.get_code_hash addr s == 0))

  -- What a creation does with the result of its run.
  unfoldable pub store_code : Contract → S → ExecutionResult × S → ExecutionResult × S
  unfolding pays_for_code code_store_failed
  store_code c snapshot (r, s) =
      let gas_cost = length r.return_value * 200 % u64_mod in
      if failed r
      then (r, snapshot)
      else if config.eip158 && ltb spurious_dragon_max_code_size (length r.return_value)
      then (stopped_with VmError.max_code_size_exceeded 0, snapshot)
      else if ltb r.gas_left gas_cost
      then (code_store_failed config.homestead r, if config.homestead then snapshot else s)
      else (pays_for_code r gas_cost, l.set_code c.address r.return_value s)

  unfoldable pub run_create : Contract → S → Option S → S → ExecutionResult × S
  unfolding run store_code
  run_create c snapshot none created = (stopped_with VmError.insufficient_balance c.gas, created)
  run_create c snapshot (some s) created = store_code c snapshot (run c s)

  unfoldable pub apply_create : Contract → S → ExecutionResult × S
  unfolding run_create transfer has_code_or_nonce
  apply_create c s =
      let snapshot = l.incr_nonce c.caller s in
      let created =
        if config.eip158
        then l.incr_nonce c.address (l.create_account c.address snapshot)
        else snapshot in
      let run_it = run_create c snapshot (transfer c.caller c.address c.value created) created in
      if ltb max_depth c.depth
      then (stopped_with VmError.call_depth c.gas, s)
      else if has_code_or_nonce c.address snapshot
      then (stopped_with VmError.contract_address_collision 0, snapshot)
      else run_it

  unfoldable pub callx : Contract → S → ExecutionResult × S
  unfolding is_create
  callx c s =
      let created = apply_create c s in
      let called = apply_call c c.type s in if is_create c.type then created else called
