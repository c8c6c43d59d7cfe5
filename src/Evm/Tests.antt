-- ===== src/Evm/Tests.antt =====
-- Programs that the machine runs, and its word arithmetic at single numbers.
use nxchain.Base.{
  ℕ, ◌+◌, ◌-◌, ◌%◌, ◌^◌, ◌≤◌, ◌<◌, true, false, none, some, List, [], ◌∷◌, ◌≡◌, ◌↔◌, refl, arith,
  length, get_elem?,
}
use nxchain.Chain.{ForksInTime}
use nxchain.State.Runtime.{CallType, Contract, StorageStatus, Host, update_gas_used}
use nxchain.State.Runtime.Refund.{update_gas_used-refund}
use nxchain.Evm.Words.{tt256, to256, op_exp, op_sar, op_sign_extend, shift_right, of_bytes}
use nxchain.Evm.Words.Exp.{op_exp-pow}
use nxchain.Evm.Words.Signed.{signed_low, op_sar-signed, op_sign_extend-signed}
use nxchain.Evm.Bitmap.{is_set, set_bit, set_code, set_code_loop, is_push_op, push_size, zeros}
use nxchain.Evm.Bitmap.Loop.{is_set-set_code}
use nxchain.Evm.Bitmap.Marks.{StartsAt}
use nxchain.Evm.OpCode.{op_code, entry, handler}
use nxchain.Evm.{
  State, allocate_memory, current_op_code, push, popping, pop_from, consume_gas, valid_jumpdest,
}
use nxchain.Evm.Instructions.Flow.{push_op, push_data, jump, jump_to}
use nxchain.Evm.Instructions.Data.{returndatacopy}
use nxchain.Evm.Instructions.Calls.{Hashes}
use nxchain.Evm.Run.{
  Outcome, evm_run, round, round_at, round_byte, round_of, end_round, initial_state,
}
use nxchain.Evm.Run.Dispatch.{execute}
use nxchain.Evm.Memory.{IsAllocation, allocate_memory-IsAllocation}
use nxchain.Evm.Memory.Copy.{returndatacopy-none}
use nxchain.Evm.Gas.Calls.{ReturnsGas}
use nxchain.Evm.Gas.Round.{Halts}
use nxchain.Evm.Gas.Result.{AccountsFor, evm_run-Halts}
use nxchain.Evm.Gas.Position.{Reaches, position-StartsAt}
use nxchain.Evm.Run.{Outcome, evm_from, evm_result, result_of, is_failure, run, after}
use nxchain.Evm.Words.{to_bytes, op_add}
use nxchain.Evm.Instructions.Values.{binary}
use nxchain.Evm.Instructions.Data.{mstore}
use nxchain.Evm.{
  allocating, grow, memory_cost, extend_byte_slice, store, write, getting, slice, halt,
}
use nxchain.Evm.Instructions.Flow.{return_op}

abbrev all_forks : ForksInTime
all_forks = record {
  homestead = true;
  byzantium = true;
  constantinople = true;
  petersburg = true;
  istanbul = true;
  eip150 = true;
  eip158 = true;
  eip155 = true;
}

-- A world of one number, the storage of every place; a callee that spends nothing and returns one byte.
abbrev host : Host ℕ
host = record {
  account_exists = λ a w. true;
  get_storage = λ a k w. w;
  set_storage = λ a k v f w. (StorageStatus.modified, v);
  get_balance = λ a w. 10;
  get_code_size = λ a w. 0;
  get_code_hash = λ a w. 0;
  get_code = λ a w. [];
  selfdestruct = λ a b w. w;
  get_tx_context = record {
    gas_price = 0;
    origin = 1;
    coinbase = 2;
    number = 3;
    timestamp = 4;
    gas_limit = 5;
    chain_id = 6;
    difficulty = 7;
  };
  get_block_hash = λ n w. 0;
  emit_log = λ a t d w. w;
  callx = λ k w. (record { return_value = 7 ∷ []; gas_left = k.gas; gas_used = 0; err = none }, w);
  empty = λ a w. false;
  get_nonce = λ a w. 0;
}

abbrev hashes : Hashes
hashes = record { keccak256 = length; marshal = λ a n. a }

abbrev contract : List ℕ → ℕ → Contract
contract code gas = record {
  code = code;
  type = CallType.call;
  code_address = 9;
  address = 9;
  origin = 1;
  caller = 1;
  depth = 0;
  value = none;
  input = [];
  gas = gas;
  static = false;
}

-- PUSH1 2, PUSH1 3, ADD, PUSH1 0, MSTORE, PUSH1 1, PUSH1 31, RETURN: returns the byte 5.
abbrev add_code : List ℕ
add_code = 0x60 ∷ 2 ∷ 0x60 ∷ 3 ∷ 0x01 ∷ 0x60 ∷ 0 ∷ 0x52 ∷ 0x60 ∷ 1 ∷ 0x60 ∷ 31 ∷ 0xf3 ∷ []

-- PUSH1 3, JUMP, JUMPDEST
abbrev jump_code : List ℕ
jump_code = 0x60 ∷ 3 ∷ 0x56 ∷ 0x5b ∷ []

abbrev jump_bitmap : List ℕ
jump_bitmap = 8 ∷ []

jump_made : set_code jump_code ≡ some jump_bitmap
unfolding set_code set_code_loop is_push_op push_size set_bit zeros
jump_made = refl

host_returns : ReturnsGas host
host_returns k w = omega arith

evm_run-Halts_example :
    Halts (AccountsFor 100) (evm_run hashes host (contract add_code 100) all_forks 0)
evm_run-Halts_example =
    evm_run-Halts hashes host host_returns (contract add_code 100) all_forks 0 (omega arith) refl

abbrev jump_start : State ℕ
jump_start = record {
  ip = 0;
  code = jump_code;
  world = 0;
  msg = contract jump_code 100;
  config = all_forks;
  memory = [];
  last_gas_cost = 0;
  stack = [];
  err = none;
  stop = false;
  gas = 100;
  current_consumed_gas = 0;
  bitmap = jump_bitmap;
  return_data = [];
  ret = [];
}

abbrev pushed_state : State ℕ
pushed_state = record jump_start { ip = 2; stack = 3 ∷ []; gas = 97; current_consumed_gas = 3 }

abbrev jumped_state : State ℕ
jumped_state = record jump_start { ip = 3; gas = 89; current_consumed_gas = 11 }

round_push : round hashes host jump_start ≡ some pushed_state
unfolding round round_at round_byte round_of current_op_code op_code entry handler execute push_op
    push push_data of_bytes consume_gas end_round
round_push = refl

round_jump : round hashes host pushed_state ≡ some jumped_state
unfolding round round_at round_byte round_of current_op_code op_code entry handler execute jump
    popping pop_from jump_to valid_jumpdest is_set consume_gas end_round
round_jump = refl

initial_jump : initial_state (contract jump_code 100) all_forks jump_bitmap 0 ≡ jump_start
unfolding initial_state
initial_jump = refl

jump_reached :
    Reaches hashes host
      (initial_state (contract jump_code 100) all_forks jump_bitmap 0)
      jumped_state
unfolding initial_state
jump_reached = Reaches.goes_on (Reaches.goes_on Reaches.starts refl round_push) refl round_jump

position-StartsAt_example : StartsAt jump_code 3
position-StartsAt_example =
    position-StartsAt hashes host host_returns (contract jump_code 100) all_forks jump_bitmap 0
      jumped_state refl (omega arith, (omega arith, (omega arith, (omega arith, tt)))) (omega arith)
      jump_made jump_reached refl

is_set-set_code_example :
    (is_set jump_bitmap 3 ≡ some true)
    ↔ (StartsAt jump_code 3 × (get_elem? jump_code 3 ≡ some 0x5b))
is_set-set_code_example = is_set-set_code jump_code jump_bitmap 3 jump_made (omega arith)

op_exp-pow_example : op_exp 3 200 ≡ 3 ^ 200 % tt256
op_exp-pow_example = op_exp-pow 3 200 (omega arith)

op_sign_extend-signed_example : to256 (op_sign_extend 0 0x1ff) ≡ signed_low 7 0x1ff
op_sign_extend-signed_example = op_sign_extend-signed 0 0x1ff (omega arith)

op_sar-signed_example : to256 (op_sar 4 (tt256 - 100)) ≡ shift_right (to256 (tt256 - 100)) 4
op_sar-signed_example = op_sar-signed 4 (tt256 - 100) (omega arith)

allocate_memory-IsAllocation_example :
    IsAllocation 10 40 jump_start (allocate_memory 10 40 jump_start)
allocate_memory-IsAllocation_example = allocate_memory-IsAllocation 10 40 jump_start

returndatacopy-none_example :
    (returndatacopy (record jump_start { stack = 5 ∷ 0 ∷ 0 ∷ [] }) ≡ none)
    ↔ ((◌≡◌ {A = ℕ} 0 0) × (0 ≤ 0) × (0 < 5))
returndatacopy-none_example = returndatacopy-none 5 0 0 [] jump_start (omega arith) (omega arith)

-- A refund of 30 on a run that used 40 of 100.
update_gas_used-refund_example :
    ((update_gas_used 100 30
        (record { return_value = []; gas_left = 60; gas_used = 0; err = none })).gas_left
      ≡ 80)
    × ((update_gas_used 100 30
            (record { return_value = []; gas_left = 60; gas_used = 0; err = none })).gas_left
          + (update_gas_used 100 30
              (record { return_value = []; gas_left = 60; gas_used = 0; err = none })).gas_used
        ≡ 100)
update_gas_used-refund_example =
    update_gas_used-refund 100 30
      (record { return_value = []; gas_left = 60; gas_used = 0; err = none }) (omega arith)
      (omega arith)

-- The bytes 5 are returned for 24 gas: 21 for seven instructions and 3 for a word of memory.
run-add_code :
    evm_run hashes host (contract add_code 100) all_forks 0
    ≡ Outcome.finished
        (record { return_value = 5 ∷ []; gas_left = 76; gas_used = 24; err = none }, 0)
unfolding evm_run evm_from evm_result result_of is_failure run after round round_at round_byte
    round_of end_round initial_state set_code set_code_loop is_push_op push_size set_bit zeros
    is_set current_op_code op_code entry handler execute push_op push_data of_bytes to_bytes
    consume_gas push popping pop_from binary op_add mstore allocating allocate_memory grow
    memory_cost extend_byte_slice store write return_op getting slice halt
run-add_code = refl
