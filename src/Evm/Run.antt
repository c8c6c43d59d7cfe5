-- ===== src/Evm/Run.antt =====
-- state/runtime/evm/state.go and evm.go: the loop of the machine, over the dispatch table.
pub mod Dispatch
use nxchain.Base.{
  ℕ, zero, suc, ◌+◌, ◌-◌, ◌%◌, Bool, true, false, Option, none, some, List, [], ltb, if◌then◌else◌,
  length, ◌>>=◌, not,
}
use nxchain.Types.{u64_mod}
use nxchain.Chain.{ForksInTime}
use nxchain.State.Runtime.{VmError, Contract, ExecutionResult, Host, is_revert}
use nxchain.Evm.Bitmap.{set_code}
use nxchain.Evm.OpCode.{OpCode, op_code, handler}
use nxchain.Evm.{State, halt, exit, consume_gas, current_op_code, stack_size}
use nxchain.Evm.Instructions.Calls.{Hashes}
use nxchain.Evm.Run.Dispatch.{execute}

-- How a run ends; `unfinished` is fuel that ran out.
pub data Outcome (A : Type 0) : Type 0 where
  finished : A → Outcome A
  panicked unfinished : Outcome A

-- What follows a round, or a panic.
unfoldable pub after : {A B : Type 0} → Option A → (A → Outcome B) → Outcome B
after none k = Outcome.panicked
after (some a) k = k a

unfoldable pub is_failure : Option VmError → Bool
unfolding is_revert
is_failure none = false
is_failure (some e) = not (is_revert (some e))

module _ {W : Type 0} where
  -- What a round does after the instruction.
  unfoldable pub end_round : State W → State W
  end_round c =
      if ltb stack_size (length c.stack)
      then exit VmError.stack_overflow c
      else record c { ip = (c.ip + 1) % u64_mod }

module _ {W : Type 0} (x : Hashes) (h : Host W) where
  -- A round of an instruction of the table.
  unfoldable pub round_of : OpCode → State W → Option (State W)
  round_of op c =
      let (ok, c') = consume_gas (handler op).1 c in
      let done = execute x h op c' >>= λ c''. some (end_round c'') in
      if ltb (length c.stack) (handler op).0
      then some (exit VmError.stack_underflow c)
      else if ok
      then done
      else some (exit VmError.out_of_gas c')

  unfoldable pub round_byte : State W → Option OpCode → Option (State W)
  round_byte c none = some (exit VmError.op_code_not_found c)
  round_byte c (some op) = round_of op c

  unfoldable pub round_at : State W → Option ℕ → Option (State W)
  unfolding round_byte
  round_at c none = some (halt c)
  round_at c (some byte) = round_byte c (op_code byte)

  -- A round of the loop: the code ends, the byte is no instruction, or the instruction is run.
  unfoldable pub round : State W → Option (State W)
  unfolding round_at
  round c = round_at c (current_op_code c)

  -- The loop, `for !c.stop`, on fuel.
  unfoldable pub run : ℕ → State W → Outcome (State W)
  run zero c = if c.stop then Outcome.finished c else Outcome.unfinished
  run (suc n) c = let next = after (round c) (run n) in if c.stop then Outcome.finished c else next

-- The result that `EVM.Run` makes of the state that the loop leaves.
unfoldable pub result_of : {W : Type 0} → ℕ → State W → ExecutionResult
unfolding is_failure
result_of gas c =
    let gas_left = if is_failure c.err then 0 else c.gas in
    record {
      return_value = c.ret;
      gas_left = gas_left;
      gas_used = (gas + u64_mod - gas_left) % u64_mod;
      err = c.err;
    }

-- The state that a contract is run in.
unfoldable pub initial_state : {W : Type 0} → Contract → ForksInTime → List ℕ → W → State W
initial_state k config bitmap w = record {
  ip = 0;
  code = k.code;
  world = w;
  msg = k;
  config = config;
  memory = [];
  last_gas_cost = 0;
  stack = [];
  err = none;
  stop = false;
  gas = k.gas;
  current_consumed_gas = 0;
  bitmap = bitmap;
  return_data = [];
  ret = [];
}

unfoldable pub evm_result : {W : Type 0} → ℕ → Outcome (State W) → Outcome (ExecutionResult × W)
unfolding result_of
evm_result gas (Outcome.finished c) = Outcome.finished (result_of gas c, c.world)
evm_result gas Outcome.panicked = Outcome.panicked
evm_result gas Outcome.unfinished = Outcome.unfinished

-- Each round but the last consumes gas, so that one more than the gas is fuel enough.
unfoldable pub evm_from :
    {W : Type 0}
    → Hashes
    → Host W
    → Contract
    → ForksInTime
    → W
    → Option (List ℕ)
    → Outcome (ExecutionResult × W)
unfolding evm_result run initial_state
evm_from x h k config w none = Outcome.panicked
evm_from x h k config w (some bitmap) =
    evm_result k.gas (run x h (suc k.gas) (initial_state k config bitmap w))

-- `EVM.Run`
unfoldable pub evm_run :
    {W : Type 0} → Hashes → Host W → Contract → ForksInTime → W → Outcome (ExecutionResult × W)
unfolding evm_from
evm_run x h k config w = evm_from x h k config w (set_code k.code)
