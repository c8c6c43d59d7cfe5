-- ===== src/State/Apply/Accounting.antt =====
-- state/executor.go: the gas that a transaction takes, and the accounts after an error.
use nxchain.Base.{
  ℕ, ◌+◌, ◌-◌, ◌%◌, ◌≤◌, ◌<◌, Bool, true, false, Option, none, some, ltb, ◌==◌, if◌then◌else◌, inl,
  inr, ◌≡◌, refl, arith, Bool-cases, ==_iff,
}
use nxchain.Base.Int.{pos, ltb_ℤ}
use nxchain.Types.{Address, Hash, Transaction, is_contract_creation, u64_mod}
use nxchain.Chain.{ForksInTime}
use nxchain.State.Runtime.{
  CallType, ExecutionResult, new_contract, new_contract_call, new_contract_creation,
}
use nxchain.State.Runtime.Refund.{update_gas_used-refund}
use nxchain.State.IntrinsicGas.{transaction_gas_cost}
use nxchain.State.Transition.{Ledger, Runtimes}
use nxchain.State.Transition.Gas.{KeepsGas, if_le, apply_create_gas, apply_call_gas}
use nxchain.Evm.Instructions.Calls.{Hashes}
use nxchain.State.Apply.{
  ApplyError, Block, Applied, run_message, settle, apply_bought, buy_gas, apply_message,
  revert_on_error, apply,
}

-- A rejected transaction leaves the accounts, and no more gas in the pool; one that is applied had the
-- nonce of its sender, splits its gas into gas left and gas used, and takes the gas used from the pool.
pub data Accounts {S : Type 0} (l : Ledger S) (msg : Transaction) (b : Block S)
    : Applied S → Type 0 where
  rejected :
      {e : ApplyError} {b' : Block S}
      → b'.txn ≡ b.txn
      → b'.gas_pool ≤ b.gas_pool
      → Accounts l msg b (inl e, b')
  applied :
      {r : ExecutionResult} {b' : Block S}
      → l.get_nonce msg.from b.txn ≡ msg.nonce
      → r.gas_left + r.gas_used ≡ msg.gas
      → b'.gas_pool + r.gas_used ≡ b.gas_pool
      → Accounts l msg b (inr r, b')

-- The same before the accounts go back.
data Spends {S : Type 0} (msg : Transaction) (pool : ℕ) : Applied S → Type 0 where
  none_run : {e : ApplyError} {b' : Block S} → b'.gas_pool ≤ pool → Spends msg pool (inl e, b')
  has_run :
      {r : ExecutionResult} {b' : Block S}
      → r.gas_left + r.gas_used ≡ msg.gas
      → b'.gas_pool + r.gas_used ≡ pool
      → Spends msg pool (inr r, b')

Spends-if :
    {S : Type 0} {msg : Transaction} {pool : ℕ} (b : Bool) (p q : Applied S)
    → Spends msg pool p
    → Spends msg pool q
    → Spends msg pool (if b then p else q)
Spends-if true p q left right = left
Spends-if false p q left right = right

module _ {S : Type 0} (x : Hashes) (l : Ledger S) (t : Runtimes S) (config : ForksInTime)
    (empty_code_hash : Hash) (coinbase : Address) (precompiled : KeepsGas t.run_precompiled)
    (evm : KeepsGas t.run_evm) (msg : Transaction) (small : msg.gas < u64_mod) where
  run_message_gas :
      (gas : ℕ) (s : S)
      → (run_message x l t config empty_code_hash coinbase msg gas s).0.gas_left ≤ gas
  unfolding run_message new_contract_call new_contract_creation new_contract
  run_message_gas gas s =
      if_le (is_contract_creation msg) _ _ gas
        (apply_create_gas l t config empty_code_hash precompiled evm _ s)
        (apply_call_gas l t config empty_code_hash precompiled evm _ CallType.call _)

  settle-Spends :
      (pool : ℕ) (out : ExecutionResult × S)
      → out.0.gas_left ≤ msg.gas
      → msg.gas ≤ pool
      → pool < u64_mod
      → Spends msg pool (settle x l t config empty_code_hash coinbase msg out (pool - msg.gas))
  unfolding settle
  settle-Spends pool (r, s) le room lt =
      let split = (update_gas_used-refund msg.gas (l.get_refund s) r le small).1 in
      Spends.has_run split (omega (arith, split))

  bought-Spends :
      (pool : ℕ) (cost : Option ℕ) (s : S)
      → msg.gas ≤ pool
      → pool < u64_mod
      → Spends msg pool
          (apply_bought x l t config empty_code_hash coinbase msg cost s (pool - msg.gas))
  unfolding apply_bought
  bought-Spends pool none s room lt = Spends.none_run (omega arith)
  bought-Spends pool (some cost) s room lt =
      let left = (msg.gas + u64_mod - cost) % u64_mod in
      elim (Bool-cases (ltb msg.gas left)) [
        | inl over ↦ rw over (Spends.none_run (omega arith))
        | inr under ↦ elim (Bool-cases (ltb_ℤ (pos (l.get_balance msg.from s)) msg.value)) [
          | inl poor ↦ rw (under, poor) (Spends.none_run (omega arith))
          | inr rich ↦
              let kept = run_message_gas left s in
              rw (under, rich)
                (settle-Spends pool (run_message x l t config empty_code_hash coinbase msg left s)
                  (ground (arith, kept)) room lt)
        ]
      ]

  buy_gas-Spends :
      (s : Option S) (b : Block S)
      → b.gas_pool < u64_mod
      → Spends msg b.gas_pool (buy_gas x l t config empty_code_hash coinbase msg s b)
  unfolding buy_gas
  buy_gas-Spends none b lt = Spends.none_run (omega arith)
  buy_gas-Spends (some s) b lt = elim (Bool-cases (ltb b.gas_pool msg.gas)) [
    | inl full ↦ rw full (Spends.none_run (omega arith))
    | inr room ↦ rw room (
        bought-Spends b.gas_pool (transaction_gas_cost msg config.homestead config.istanbul) s
          (ground arith) lt)
  ]

  reverted-Accounts :
      (b : Block S) (out : Applied S)
      → l.get_nonce msg.from b.txn ≡ msg.nonce
      → Spends msg b.gas_pool out
      → Accounts l msg b (revert_on_error x l t config empty_code_hash coinbase msg b.txn out)
  unfolding revert_on_error
  reverted-Accounts b _ e (Spends.none_run le) = Accounts.rejected refl le
  reverted-Accounts b _ e (Spends.has_run split pool) = Accounts.applied e split pool

  -- Where the runtimes return at most the gas they are given, a transaction of a 64-bit gas limit on a pool of
  -- 64 bits is rejected, with the accounts as they were and no more gas in the pool, or it is applied: then it
  -- had the nonce of its sender, its gas is the gas left and the gas used, and the pool has lost the gas used.
  pub apply-Accounts :
      (b : Block S)
      → b.gas_pool < u64_mod
      → Accounts l msg b (apply x l t config empty_code_hash coinbase msg b)
  unfolding apply apply_message revert_on_error
  apply-Accounts b lt = elim (Bool-cases (l.get_nonce msg.from b.txn == msg.nonce)) [
    | inl same ↦ rw same (reverted-Accounts b _ ((==_iff _ _).0 same) (buy_gas-Spends _ b lt))
    | inr other ↦ rw other (Accounts.rejected refl (omega arith))
  ]
