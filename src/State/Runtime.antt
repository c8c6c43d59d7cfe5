-- ===== src/State/Runtime.antt =====
-- state/runtime/runtime.go: what a runtime is given and what it answers. Tracing is left out.
pub mod Refund
use nxchain.Base.{
  ℕ, ◌+◌, ◌-◌, ◌/◌, ◌%◌, Bool, true, false, Option, none, some, List, [], ltb, if◌then◌else◌,
}
use nxchain.Types.{Address, Hash, u64_mod}
use nxchain.Chain.{ForksInTime}

-- The fields are never negative.
pub record TxContext : Type 0 where
  pub gas_price : Hash
  pub origin : Address
  pub coinbase : Address
  pub number : ℕ
  pub timestamp : ℕ
  pub gas_limit : ℕ
  pub chain_id : ℕ
  pub difficulty : Hash

pub data StorageStatus : Type 0 where
  unchanged modified modified_again added deleted : StorageStatus

-- The errors of runtime.go and those of evm/state.go.
pub data VmError : Type 0 where
  out_of_gas stack_overflow stack_underflow not_enough_funds insufficient_balance : VmError
  max_code_size_exceeded contract_address_collision call_depth execution_reverted : VmError
  code_store_out_of_gas gas_uint_overflow write_protection invalid_jump : VmError
  op_code_not_found return_data_out_of_bounds : VmError

pub data CallType : Type 0 where
  call call_code delegate_call static_call create create2 : CallType

pub record Contract : Type 0 where
  pub code : List ℕ
  pub type : CallType
  pub code_address : Address
  pub address : Address
  pub origin : Address
  pub caller : Address
  pub depth : ℕ
  pub value : Option ℕ
  pub input : List ℕ
  pub gas : ℕ
  pub static : Bool

-- `none` is the nil error.
pub record ExecutionResult : Type 0 where
  pub return_value : List ℕ
  pub gas_left : ℕ
  pub gas_used : ℕ
  pub err : Option VmError

unfoldable pub succeeded : ExecutionResult → Bool
succeeded r = elim r.err [ none ↦ true | some e ↦ false ]

unfoldable pub failed : ExecutionResult → Bool
failed r = elim r.err [ none ↦ false | some e ↦ true ]

unfoldable pub is_revert : Option VmError → Bool
is_revert (some VmError.execution_reverted) = true
is_revert _ = false

unfoldable pub reverted : ExecutionResult → Bool
unfolding is_revert
reverted r = is_revert r.err

-- The refund is at most half of the gas used.
unfoldable pub update_gas_used : ℕ → ℕ → ExecutionResult → ExecutionResult
update_gas_used gas_limit refund r =
    let used = (gas_limit + u64_mod - r.gas_left) % u64_mod in
    let granted = if ltb (used / 2) refund then used / 2 else refund in
    record r {
      gas_left = (r.gas_left + granted) % u64_mod;
      gas_used = (used + u64_mod - granted) % u64_mod;
    }

unfoldable pub new_contract : ℕ → Address → Address → Address → Option ℕ → ℕ → List ℕ → Contract
new_contract depth origin from to value gas code = record {
  code = code;
  type = CallType.call;
  code_address = to;
  address = to;
  origin = origin;
  caller = from;
  depth = depth;
  value = value;
  input = [];
  gas = gas;
  static = false;
}

unfoldable pub new_contract_creation :
    ℕ → Address → Address → Address → Option ℕ → ℕ → List ℕ → Contract
new_contract_creation = new_contract

unfoldable pub new_contract_call :
    ℕ → Address → Address → Address → Option ℕ → ℕ → List ℕ → List ℕ → Contract
unfolding new_contract
new_contract_call depth origin from to value gas code input =
    record (new_contract depth origin from to value gas code) { input = input }

-- The host that a runtime calls, over a state of the world that its calls change.
pub record Host (W : Type 0) : Type 0 where
  pub account_exists : Address → W → Bool
  pub get_storage : Address → Hash → W → Hash
  pub set_storage : Address → Hash → Hash → ForksInTime → W → StorageStatus × W
  pub get_balance : Address → W → ℕ
  pub get_code_size : Address → W → ℕ
  pub get_code_hash : Address → W → Hash
  pub get_code : Address → W → List ℕ
  pub selfdestruct : Address → Address → W → W
  pub get_tx_context : TxContext
  pub get_block_hash : ℕ → W → Hash
  pub emit_log : Address → List Hash → List ℕ → W → W
  pub callx : Contract → W → ExecutionResult × W
  pub empty : Address → W → Bool
  pub get_nonce : Address → W → ℕ
