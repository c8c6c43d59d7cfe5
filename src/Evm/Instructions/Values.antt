-- ===== src/Evm/Instructions/Values.antt =====
-- state/runtime/evm/instructions.go: the instructions that compute on the stack, and those that read the
-- context of the call.
use nxchain.Base.{
  ℕ, ◌+◌, ◌-◌, ◌*◌, ◌%◌, ◌^◌, Bool, Option, none, some, List, [], ◌∷◌, ◌++◌, ltb, leb,
  if◌then◌else◌, length, min, take, drop, ◌&&◌,
}
use nxchain.Types.{Address, u64_mod}
use nxchain.State.Runtime.{VmError, Host}
use nxchain.Evm.Bitmap.{zeros}
use nxchain.Evm.Words.{op_exp, byte_len, op_sign_extend, of_bytes}
use nxchain.Evm.{State, exit, push, paying, popping, topping, replace_top}

-- The bytes that `setBytes` writes: `size` of them, from `offset` on, and zeros where the input ends.
unfoldable pub set_bytes : List ℕ → ℕ → ℕ → List ℕ
unfolding zeros
set_bytes input size offset =
    let begin = min offset (length input) in
    let count = min size (length input - begin) in
    if leb u64_mod offset then zeros size else take count (drop begin input) ++ zeros (size - count)

-- `BytesToAddress` of a word.
abbrev pub address_of : ℕ → Address
address_of b = b % 2 ^ 160

module _ {W : Type 0} where
  abbrev pub same_state : State W → State W
  same_state c = c

  unfoldable pub unary : (ℕ → ℕ) → State W → Option (State W)
  unary f c = popping c λ a c'. some (push (f a) c')

  unfoldable pub binary : (ℕ → ℕ → ℕ) → State W → Option (State W)
  binary f c = popping c λ a c'. popping c' λ b c''. some (push (f a b) c'')

  unfoldable pub ternary : (ℕ → ℕ → ℕ → ℕ) → State W → Option (State W)
  ternary f c = popping c λ a c'. popping c' λ b c''. popping c'' λ z c3. some (push (f a b z) c3)

  -- The word that an instruction pushes.
  unfoldable pub pushing : ℕ → State W → Option (State W)
  pushing v c = some (push v c)

  unfoldable pub exp_op : State W → Option (State W)
  exp_op c = popping c λ x c'. topping c' λ y.
      paying same_state (byte_len 32 y * (if c.config.eip158 then 50 else 10) % u64_mod) c'
        λ c''. some (replace_top (op_exp x y) c'')

  -- With one number on the stack, the extension is popped and nothing else is done.
  unfoldable pub sign_extension : State W → Option (State W)
  sign_extension c = popping c λ ext c'. elim c'.stack [
    | [] ↦ some c'
    | x ∷ s ↦ some (replace_top (op_sign_extend ext x) c')
  ]

  -- An instruction that the fork must allow.
  unfoldable pub allowed_by : Bool → (State W → Option (State W)) → State W → Option (State W)
  allowed_by fork f c =
      let run = f c in if fork then run else some (exit VmError.op_code_not_found c)

  unfoldable pub pop_op : State W → Option (State W)
  pop_op c = popping c λ a c'. some c'

  unfoldable pub calldataload : State W → Option (State W)
  calldataload c =
      topping c λ offset. some (replace_top (of_bytes 0 (set_bytes c.msg.input 32 offset)) c)

  unfoldable pub callvalue : State W → Option (State W)
  callvalue c = elim c.msg.value [ none ↦ pushing 0 c | some v ↦ pushing v c ]

module _ {W : Type 0} (h : Host W) where
  unfoldable pub balance : State W → Option (State W)
  balance c = popping c λ addr c'.
      paying same_state (if c.config.istanbul then 700 else if c.config.eip150 then 400 else 20) c'
        λ c''. pushing (h.get_balance (address_of addr) c''.world) c''

  unfoldable pub selfbalance : State W → Option (State W)
  selfbalance c = pushing (h.get_balance c.msg.address c.world) c

  unfoldable pub extcodesize : State W → Option (State W)
  extcodesize c = popping c λ addr c'.
      paying same_state (if c.config.eip150 then 700 else 20) c'
        λ c''. pushing (h.get_code_size (address_of addr) c''.world) c''

  unfoldable pub extcodehash : State W → Option (State W)
  extcodehash c = popping c λ addr c'.
      paying same_state (if c.config.istanbul then 700 else 400) c' λ c''.
        pushing
          (if h.empty (address_of addr) c''.world
            then 0
            else h.get_code_hash (address_of addr) c''.world)
          c''

  -- The hash of one of the last 256 blocks; the numbers of blocks are far from the ends of an `int64`.
  unfoldable pub block_hash : State W → Option (State W)
  block_hash c = topping c λ num.
      let last = h.get_tx_context.number in
      some (
        replace_top
          (if leb (2 ^ 63) num
            then 0
            else if ltb last (num + 257) && ltb num last
            then h.get_block_hash num c.world
            else 0)
          c)

  unfoldable pub sload : State W → Option (State W)
  sload c = topping c λ loc.
      paying same_state (if c.config.istanbul then 800 else if c.config.eip150 then 200 else 50) c
        λ c'. some (replace_top (h.get_storage c.msg.address loc c'.world) c')
