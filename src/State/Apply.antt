-- ===== src/State/Apply.antt =====
-- state/executor.go: Apply, which runs a transaction on the state and the gas pool of the block. The value
-- of a transaction is not negative. The price and the origin that the context takes are what the runtimes
-- are given for the transaction. Tracing and the hook after a transaction are left out.
pub mod Accounting
use nxchain.Base.{
  ℕ, ◌+◌, ◌-◌, ◌*◌, ◌%◌, Bool, true, false, Option, none, some, List, [], ltb, ◌==◌, if◌then◌else◌,
  ◌⊎◌, inl, inr,
}
use nxchain.Base.Int.{pos, pos_part, ltb_ℤ}
use nxchain.Types.{Address, Hash, Transaction, is_contract_creation, u64_mod}
use nxchain.Chain.{ForksInTime}
use nxchain.State.Runtime.{
  CallType, Contract, ExecutionResult, update_gas_used, new_contract_call, new_contract_creation,
}
use nxchain.State.IntrinsicGas.{transaction_gas_cost}
use nxchain.State.Transition.{Ledger, Runtimes, apply_call, apply_create}
use nxchain.Evm.Instructions.Calls.{Hashes, create_address}

pub data ApplyError : Type 0 where
  nonce_incorrect not_enough_funds_for_gas block_limit_reached : ApplyError
  intrinsic_gas_overflow not_enough_intrinsic_gas not_enough_funds : ApplyError

-- The state of the block's accounts, and the gas that is left for the block.
pub record Block (S : Type 0) : Type 0 where
  pub txn : S
  pub gas_pool : ℕ

-- What a transaction comes to.
abbrev pub Applied : Type 0 → Type 0
Applied S = (ApplyError ⊎ ExecutionResult) × Block S

unfoldable pub receiver : Option Address → Address
receiver none = 0
receiver (some to) = to

module _ {S : Type 0} (x : Hashes) (l : Ledger S) (t : Runtimes S) (config : ForksInTime)
    (empty_code_hash : Hash) (coinbase : Address) (msg : Transaction) where
  -- Create2 and Call2, with the nonce that a call takes first.
  unfoldable pub run_message : ℕ → S → ExecutionResult × S
  unfolding receiver
  run_message gas s =
      let value = pos_part msg.value in
      let address = create_address x msg.from (l.get_nonce msg.from s) in
      let created =
        apply_create l t config empty_code_hash
          (new_contract_creation 1 msg.from msg.from address (some value) gas msg.input) s in
      let s' = l.incr_nonce msg.from s in
      let called =
        apply_call l t config empty_code_hash
          (new_contract_call 1 msg.from msg.from (receiver msg.to) (some value) gas
            (l.get_code (receiver msg.to) s') msg.input)
          CallType.call s' in
      if is_contract_creation msg then created else called

  -- The refunds and the fee, once the message has run.
  unfoldable pub settle : ExecutionResult × S → ℕ → Applied S
  settle (r, s) pool =
      let result = update_gas_used msg.gas (l.get_refund s) r in
      let refunded = l.add_balance msg.from (result.gas_left * msg.gas_price) s in
      (
        inr result,
        record {
          txn = l.add_balance coinbase (result.gas_used * msg.gas_price) refunded;
          gas_pool = (pool + result.gas_left) % u64_mod;
        },
      )

  -- The checks from the intrinsic gas on; the gas is bought and taken from the pool.
  unfoldable pub apply_bought : Option ℕ → S → ℕ → Applied S
  unfolding settle run_message
  apply_bought none s pool =
      (inl ApplyError.intrinsic_gas_overflow, record { txn = s; gas_pool = pool })
  apply_bought (some cost) s pool =
      let gas_left = (msg.gas + u64_mod - cost) % u64_mod in
      let run = settle (run_message gas_left s) pool in
      if ltb msg.gas gas_left
      then (inl ApplyError.not_enough_intrinsic_gas, record { txn = s; gas_pool = pool })
      else if ltb_ℤ (pos (l.get_balance msg.from s)) msg.value
      then (inl ApplyError.not_enough_funds, record { txn = s; gas_pool = pool })
      else run

  unfoldable pub buy_gas : Option S → Block S → Applied S
  unfolding apply_bought
  buy_gas none b = (inl ApplyError.not_enough_funds_for_gas, b)
  buy_gas (some s) b =
      let bought =
        apply_bought (transaction_gas_cost msg config.homestead config.istanbul) s
          (b.gas_pool - msg.gas) in
      if ltb b.gas_pool msg.gas
      then (inl ApplyError.block_limit_reached, record b { txn = s })
      else bought

  unfoldable pub apply_message : Block S → Applied S
  unfolding buy_gas
  apply_message b =
      let bought = buy_gas (l.sub_balance msg.from (msg.gas_price * msg.gas) b.txn) b in
      if l.get_nonce msg.from b.txn == msg.nonce
      then bought
      else (inl ApplyError.nonce_incorrect, b)

  -- `Apply`, which goes back to the snapshot of the accounts on an error.
  unfoldable pub revert_on_error : S → Applied S → Applied S
  revert_on_error snapshot (inl e, b) = (inl e, record b { txn = snapshot })
  revert_on_error snapshot (inr r, b) = (inr r, b)

  unfoldable pub apply : Block S → Applied S
  unfolding revert_on_error apply_message
  apply b = revert_on_error b.txn (apply_message b)
