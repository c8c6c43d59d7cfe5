-- ===== src/Evm/Instructions/Flow.antt =====
-- state/runtime/evm/instructions.go: jumps, pushes, the stack's own instructions, logs and halting.
use nxchain.Base.{
  ℕ, zero, suc, ◌+◌, ◌-◌, ◌*◌, ◌%◌, Option, some, List, [], ◌∷◌, ◌++◌, ltb, ◌==◌, if◌then◌else◌,
  length, take, drop, get_elem?, set, ◌&&◌, not, ◌>>=◌,
}
use nxchain.Types.{Hash, u64_mod}
use nxchain.State.Runtime.{VmError, Host}
use nxchain.Evm.Words.{of_bytes}
use nxchain.Evm.Bitmap.{zeros}
use nxchain.Evm.{State, exit, halt, push, paying, getting, popping, valid_jumpdest}
use nxchain.Evm.Instructions.Values.{same_state, address_of}

-- Where the code ends within the push's data, `n` zeros follow what is left of the code.
unfoldable pub push_data : ℕ → List ℕ → ℕ → ℕ
unfolding zeros
push_data n code ip =
    if ltb (length code) (ip + 1 + n)
    then of_bytes 0 (drop (ip + 1) code ++ zeros n)
    else of_bytes 0 (take n (drop (ip + 1) code))

module _ {W : Type 0} where
  -- The loop adds one to the position that a jump leaves.
  unfoldable pub jump_to : ℕ → State W → Option (State W)
  jump_to dest c = valid_jumpdest dest c >>= λ valid. some (
      if valid
      then record c { ip = (dest + u64_mod - 1) % u64_mod }
      else exit VmError.invalid_jump c)

  unfoldable pub jump : State W → Option (State W)
  jump c = popping c jump_to

  unfoldable pub jumpi : State W → Option (State W)
  jumpi c = popping c λ dest c'.
      popping c'
        λ cond c''. (let jumped = jump_to dest c'' in if cond == 0 then some c'' else jumped)

  unfoldable pub push_op : ℕ → State W → Option (State W)
  push_op n c = some (record (push (push_data n c.code c.ip) c) { ip = (c.ip + n) % u64_mod })

  unfoldable pub dup : ℕ → State W → Option (State W)
  dup n c =
      let copied = get_elem? c.stack (n - 1) >>= λ v. some (push v c) in
      if ltb (length c.stack) n then some (exit VmError.stack_underflow c) else copied

  unfoldable pub swap : ℕ → State W → Option (State W)
  swap n c =
      let swapped = get_elem? c.stack 0 >>= λ a.
      get_elem? c.stack n >>= λ b. some (record c { stack = set (set c.stack 0 b) n a }) in
      if ltb (length c.stack) (n + 1) then some (exit VmError.stack_underflow c) else swapped

  unfoldable pub pop_hashes :
      {A : Type 0} → ℕ → State W → (List Hash → State W → Option A) → Option A
  pop_hashes zero c k = k [] c
  pop_hashes (suc n) c k = popping c λ a c'. pop_hashes n c' λ topics c''. k (a ∷ topics) c''

  unfoldable pub stop_op : State W → Option (State W)
  stop_op c = some (halt c)

  -- RETURN and REVERT.
  unfoldable pub return_op : State W → Option (State W)
  return_op c = popping c λ offset c'. popping c' λ size c''.
      getting same_state offset size c'' λ bytes c3. some (halt (record c3 { ret = bytes }))

  unfoldable pub revert_op : State W → Option (State W)
  revert_op c = popping c λ offset c'. popping c' λ size c''.
      getting same_state offset size c''
        λ bytes c3. some (exit VmError.execution_reverted (record c3 { ret = bytes }))

module _ {W : Type 0} (h : Host W) where
  -- What `opLog` does once its checks have passed.
  unfoldable pub log_topics : ℕ → State W → Option (State W)
  log_topics size c = popping c λ start c'. popping c' λ len c''. pop_hashes size c'' λ topics c3.
      getting same_state start len c3 λ bytes c4.
        paying same_state (size * 375)
          (record c4 { world = h.emit_log c4.msg.address topics bytes c4.world })
          λ c5. paying same_state (len * 8 % u64_mod) c5 λ c6. some c6

  unfoldable pub log : ℕ → State W → Option (State W)
  log size c =
      let logged = log_topics size c in
      if c.msg.static
      then some (exit VmError.write_protection c)
      else if ltb (length c.stack) (2 + size)
      then some (exit VmError.stack_underflow c)
      else logged

  unfoldable pub selfdestruct_cost : ℕ → State W → ℕ
  selfdestruct_cost addr c =
      if c.config.eip150
      then (if c.config.eip158
          then (if h.empty addr c.world && not (h.get_balance c.msg.address c.world == 0)
              then 30000
              else 5000)
          else if h.account_exists addr c.world
          then 5000
          else 30000)
      else 0

  unfoldable pub selfdestruct : State W → Option (State W)
  selfdestruct c =
      let destroyed = popping c λ addr c'.
        paying same_state (selfdestruct_cost (address_of addr) c') c' λ c''. some (
          halt
            (record c'' { world = h.selfdestruct c''.msg.address (address_of addr) c''.world })) in
      if c.msg.static then some (exit VmError.write_protection c) else destroyed
