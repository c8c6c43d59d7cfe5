-- ===== src/State/Transition/Gas.antt =====
-- state/executor.go: the gas that Callx returns, and the state that a failure leaves.
use nxchain.Base.{
  ℕ, ◌*◌, ◌%◌, ◌≤◌, Bool, true, false, Option, none, some, ltb, if◌then◌else◌, ◌&&◌, length, arith,
  Bool-cases, inl, inr,
}
use nxchain.Types.{u64_mod, Hash}
use nxchain.Chain.{ForksInTime}
use nxchain.State.Runtime.{CallType, Contract, ExecutionResult, Host, failed}
use nxchain.State.Transition.{
  Ledger, Runtimes, max_depth, spurious_dragon_max_code_size, stopped_with, pays_for_code,
  code_store_failed, run, run_call, apply_call, has_code_or_nonce, store_code, run_create,
  apply_create, is_create, callx,
}
use nxchain.Evm.Gas.Calls.{ReturnsGas}

-- A runtime returns at most the gas of the contract.
abbrev pub KeepsGas : {S : Type 0} → (Contract → S → ExecutionResult × S) → Type 0
KeepsGas {S} r = (c : Contract) (s : S) → (r c s).0.gas_left ≤ c.gas

pub if_le :
    {S : Type 0} (b : Bool) (p q : ExecutionResult × S) (n : ℕ)
    → p.0.gas_left ≤ n
    → q.0.gas_left ≤ n
    → (if b then p else q).0.gas_left ≤ n
if_le true p q n a b = a
if_le false p q n a b = b

module _ {S : Type 0} (l : Ledger S) (t : Runtimes S) (config : ForksInTime)
    (empty_code_hash : Hash) (precompiled : KeepsGas t.run_precompiled)
    (evm : KeepsGas t.run_evm) where
  run_gas : (c : Contract) (s : S) → (run l t config empty_code_hash c s).0.gas_left ≤ c.gas
  unfolding run
  run_gas c s = if_le (t.precompiled c) _ _ c.gas (precompiled c s) (evm c s)

  run_call_gas :
      (c : Contract) (snapshot : S) (paid : Option S) (touched : S)
      → (run_call l t config empty_code_hash c snapshot paid touched).0.gas_left ≤ c.gas
  unfolding run_call stopped_with
  run_call_gas c snapshot none touched = omega arith
  run_call_gas c snapshot (some s) touched = run_gas c s

  store_code_gas :
      (c : Contract) (snapshot : S) (r : ExecutionResult) (s : S)
      → r.gas_left ≤ c.gas
      → (store_code l t config empty_code_hash c snapshot (r, s)).0.gas_left ≤ c.gas
  unfolding store_code stopped_with pays_for_code code_store_failed
  store_code_gas c snapshot r s le = if_le (failed r) _ _ c.gas le (
      if_le (config.eip158 && ltb spurious_dragon_max_code_size (length r.return_value)) _ _ c.gas
        (omega arith)
        (elim (Bool-cases (ltb r.gas_left (length r.return_value * 200 % u64_mod))) [
          | inl poor ↦ rw poor (ground arith)
          | inr pays ↦ rw pays (ground arith)
        ]))

  run_create_gas :
      (c : Contract) (snapshot : S) (paid : Option S) (created : S)
      → (run_create l t config empty_code_hash c snapshot paid created).0.gas_left ≤ c.gas
  unfolding run_create stopped_with
  run_create_gas c snapshot none created = omega arith
  run_create_gas c snapshot (some s) created =
      store_code_gas c snapshot (run l t config empty_code_hash c s).0
        (run l t config empty_code_hash c s).1 (run_gas c s)

  pub apply_create_gas :
      (c : Contract) (s : S) → (apply_create l t config empty_code_hash c s).0.gas_left ≤ c.gas
  unfolding apply_create stopped_with
  apply_create_gas c s = if_le (ltb max_depth c.depth) _ _ c.gas (omega arith) (
      if_le (has_code_or_nonce l t config empty_code_hash c.address (l.incr_nonce c.caller s)) _ _
        c.gas (omega arith) (run_create_gas c _ _ _))

  pub apply_call_gas :
      (c : Contract) (kind : CallType) (s : S)
      → (apply_call l t config empty_code_hash c kind s).0.gas_left ≤ c.gas
  unfolding apply_call stopped_with
  apply_call_gas c kind s =
      if_le (ltb max_depth c.depth) _ _ c.gas (omega arith) (run_call_gas c s _ _)

  callx_gas : (c : Contract) (s : S) → (callx l t config empty_code_hash c s).0.gas_left ≤ c.gas
  unfolding callx
  callx_gas c s =
      if_le (is_create c.type) _ _ c.gas (apply_create_gas c s) (apply_call_gas c c.type s)

  -- Where the precompiled contracts and the EVM return at most the gas they are given, so does Callx in each
  -- of its ends: a host that calls by Callx keeps to what the run of the EVM asks of its host.
  pub callx-ReturnsGas :
      (h : Host S) → ReturnsGas (record h { callx = callx l t config empty_code_hash })
  callx-ReturnsGas h = callx_gas
