-- ===== src/Evm.antt =====
-- state/runtime/evm/state.go: the state of a running contract. Numbers of the stack are natural
-- numbers, the last pushed first; no two places of the stack share a `big.Int`, since `push` copies and
-- `swap` exchanges. `tmp`, the tracer and the pools are left out. `none` is a run-time panic.
pub mod Words
pub mod Bitmap
pub mod OpCode
pub mod Instructions
pub mod Run
pub mod Gas
pub mod Memory
mod Tests
use nxchain.Base.{
  ℕ, zero, suc, ◌+◌, ◌-◌, ◌*◌, ◌/◌, ◌%◌, ◌^◌, Bool, true, false, Option, none, some, List, [], ◌∷◌,
  ◌++◌, ltb, leb, ◌==◌, if◌then◌else◌, length, get_elem?, set, take, drop, ◌>>=◌, ◌||◌, ◌&&◌, not,
}
use nxchain.Types.{Address, Hash, u64_mod}
use nxchain.Chain.{ForksInTime}
use nxchain.State.Runtime.{VmError, Contract}
use nxchain.Evm.Bitmap.{is_set, zeros}

abbrev pub stack_size : ℕ
stack_size = 1024

pub record State (W : Type 0) : Type 0 where
  -- An `int`, modulo 2 ^ 64.
  pub ip : ℕ
  pub code : List ℕ
  -- What the host holds.
  pub world : W
  pub msg : Contract
  pub config : ForksInTime
  pub memory : List ℕ
  pub last_gas_cost : ℕ
  pub stack : List ℕ
  pub err : Option VmError
  pub stop : Bool
  pub gas : ℕ
  pub current_consumed_gas : ℕ
  pub bitmap : List ℕ
  pub return_data : List ℕ
  pub ret : List ℕ

unfoldable pub extend_byte_slice : List ℕ → ℕ → List ℕ
extend_byte_slice b need = take need (b ++ zeros (need - length b))

-- The cost of `w` words of memory, as `uint64` computes it.
unfoldable pub memory_cost : ℕ → ℕ
memory_cost w = (3 * w + w * w % u64_mod / 512) % u64_mod

-- The slice `s[low:high]` of a slice with no spare room.
unfoldable pub slice : ℕ → ℕ → List ℕ → Option (List ℕ)
slice low high s =
    if ltb high low || ltb (length s) high then none else some (take (high - low) (drop low s))

-- `copy` of some bytes to the places of memory from `at` on, which have room for them.
unfoldable pub write : ℕ → List ℕ → List ℕ → List ℕ
write at bytes memory = take at memory ++ bytes ++ drop (at + length bytes) memory

module _ {W : Type 0} where
  -- `BitLen() >= 63` is a number of at least 2 ^ 62.
  unfoldable pub valid_jumpdest : ℕ → State W → Option Bool
  valid_jumpdest dest c =
      let marked = is_set c.bitmap dest in
      if leb (2 ^ 62) dest || leb (length c.code) dest then some false else marked

  unfoldable pub halt : State W → State W
  halt c = record c { stop = true }

  unfoldable pub exit : VmError → State W → State W
  exit e c = record c { stop = true; err = some e }

  unfoldable pub push : ℕ → State W → State W
  push v c = record c { stack = v ∷ c.stack }

  unfoldable pub consume_gas : ℕ → State W → Bool × State W
  unfolding exit
  consume_gas gas c =
      let counted = record c { current_consumed_gas = (c.current_consumed_gas + gas) % u64_mod } in
      if ltb c.gas gas
      then (false, exit VmError.out_of_gas counted)
      else (true, record counted { gas = c.gas - gas })

  -- `if !c.consumeGas(gas) { return }`, and what follows; `out` is what returns the state.
  unfoldable pub paying :
      {A : Type 0} → (State W → A) → ℕ → State W → (State W → Option A) → Option A
  paying out gas c k = let (ok, c') = consume_gas gas c in if ok then k c' else some (out c')

  unfoldable pub reset_return_data : State W → State W
  reset_return_data c = record c { return_data = [] }

  -- The growth to `size` bytes.
  unfoldable pub grow : ℕ → State W → Bool × State W
  unfolding memory_cost
  grow size c =
      let w = (size + 31) / 32 in
      let cost = (memory_cost w + u64_mod - c.last_gas_cost) % u64_mod in
      let (ok, c') = consume_gas cost (record c { last_gas_cost = memory_cost w }) in
      if ok
      then (true, record c' { memory = extend_byte_slice c'.memory (w * 32) })
      else (false, exit VmError.out_of_gas c')

  unfoldable pub allocate_memory : ℕ → ℕ → State W → Bool × State W
  allocate_memory offset size c =
      if leb u64_mod offset || leb u64_mod size
      then (false, exit VmError.gas_uint_overflow c)
      else if size == 0
      then (true, c)
      else if ltb 0xffffffffe0 offset || ltb 0xffffffffe0 size
      then (false, exit VmError.gas_uint_overflow c)
      else if ltb (length c.memory) (offset + size)
      then grow (offset + size) c
      else (true, c)

  -- `if !c.allocateMemory(offset, size) { return }`, and what follows.
  unfoldable pub allocating :
      {A : Type 0} → (State W → A) → ℕ → ℕ → State W → (State W → Option A) → Option A
  allocating out offset size c k =
      let (ok, c') = allocate_memory offset size c in if ok then k c' else some (out c')

  -- `get2`, and what follows with the bytes that it reads.
  unfoldable pub getting :
      {A : Type 0} → (State W → A) → ℕ → ℕ → State W → (List ℕ → State W → Option A) → Option A
  getting out offset size c k =
      let read =
        allocating out offset size c
          λ c'. slice offset (offset + size) c'.memory >>= λ bytes. k bytes c' in
      if size == 0 then k [] c else read

  -- `c.memory[at:]` filled with bytes that it has room for.
  unfoldable pub store : ℕ → List ℕ → State W → Option (State W)
  store at bytes c =
      if ltb (length c.memory) (at + length bytes)
      then none
      else some (record c { memory = write at bytes c.memory })

  unfoldable pub pop_from : {A : Type 0} → State W → (ℕ → State W → Option A) → List ℕ → Option A
  pop_from c k [] = none
  pop_from c k (a ∷ s) = k a (record c { stack = s })

  -- `c.pop()`, and what follows; the machine has checked that the number is there.
  unfoldable pub popping : {A : Type 0} → State W → (ℕ → State W → Option A) → Option A
  unfolding pop_from
  popping c k = pop_from c k c.stack

  -- `c.top()`, and what follows.
  unfoldable pub topping : {A : Type 0} → State W → (ℕ → Option A) → Option A
  topping c k = get_elem? c.stack 0 >>= k

  unfoldable pub replace_top : ℕ → State W → State W
  replace_top v c = record c { stack = v ∷ drop 1 c.stack }

  unfoldable pub current_op_code : State W → Option ℕ
  current_op_code c = get_elem? c.code c.ip
