-- ===== src/Evm/Instructions/Calls.antt =====
-- state/runtime/evm/instructions.go: calls and creations of contracts, with CreateAddress and
-- CreateAddress2 of crypto/crypto.go. The hash and the RLP of a pair are parameters. The memory has no
-- spare room behind its last byte.
use nxchain.Base.{
  ℕ, ◌+◌, ◌-◌, ◌*◌, ◌/◌, ◌%◌, Bool, true, false, Option, none, some, List, ◌∷◌, ◌++◌, ltb, leb,
  ◌==◌, if◌then◌else◌, length, take, get_elem?, ◌&&◌, ◌||◌, not, ◌>>=◌,
}
use nxchain.Types.{Address, Hash, u64_mod}
use nxchain.Chain.{ForksInTime}
use nxchain.State.Runtime.{
  VmError, CallType, Contract, ExecutionResult, Host, succeeded, failed, reverted,
  new_contract_call, new_contract_creation,
}
use nxchain.Evm.Words.{of_bool, to_bytes}
use nxchain.Evm.{
  State, exit, push, paying, allocating, getting, popping, reset_return_data, slice, write,
}
use nxchain.Evm.Instructions.Values.{address_of}

-- `Keccak256`, as a number, and the RLP of an address's bytes and a number.
pub record Hashes : Type 0 where
  pub keccak256 : List ℕ → Hash
  pub marshal : List ℕ → ℕ → List ℕ

unfoldable pub create_address : Hashes → Address → ℕ → Address
create_address x addr nonce = address_of (x.keccak256 (x.marshal (to_bytes 20 addr) nonce))

unfoldable pub create_address2 : Hashes → Address → Hash → List ℕ → Address
create_address2 x addr salt inithash = address_of (
    x.keccak256
      (0xff ∷ to_bytes 20 addr ++ (to_bytes 32 salt ++ to_bytes 32 (x.keccak256 inithash))))

-- What the build of a contract ends in: the run stopped; an error, with the contract whose gas comes
-- back, if there is one; a contract, with the place of memory for what it returns.
pub data Built (W : Type 0) : Type 0 where
  stopped : State W → Built W
  refused : Option Contract → State W → Built W
  built : Contract → ℕ → ℕ → State W → Built W

unfoldable pub is_positive : Option ℕ → Bool
is_positive none = false
is_positive (some v) = not (v == 0)

unfoldable pub covered_by : Option ℕ → ℕ → Bool
covered_by none b = true
covered_by (some v) b = leb v b

-- CALL and CALLCODE, which take a value.
unfoldable pub takes_value : CallType → Bool
takes_value CallType.call = true
takes_value CallType.call_code = true
takes_value _ = false

unfoldable pub is_call : CallType → Bool
is_call CallType.call = true
is_call _ = false

-- The gas for the callee; `none` is `errOutOfGas`.
unfoldable pub callee_gas : Bool → ℕ → ℕ → ℕ → Option ℕ
callee_gas eip150 initial gas cost =
    let available = (gas + u64_mod - cost) % u64_mod in
    let most = available - available / 64 in
    if eip150
    then some (if leb u64_mod initial || ltb most initial then most else initial)
    else if leb u64_mod initial
    then none
    else some initial

-- The callee, as the kind of the call, the value and the parent make it.
unfoldable pub callee : CallType → Contract → Contract → Contract
callee CallType.static_call parent k = record k { static = true }
callee CallType.call_code parent k = record k { address = parent.address; static = parent.static }
callee CallType.delegate_call parent k = record k {
  address = parent.address;
  value = parent.value;
  caller = parent.caller;
  static = parent.static;
}
callee _ parent k = record k { static = parent.static }

unfoldable pub call_allowed : CallType → ForksInTime → Bool
call_allowed CallType.delegate_call f = f.homestead
call_allowed CallType.static_call f = f.byzantium
call_allowed _ f = true

unfoldable pub is_code_store : Option VmError → Bool
is_code_store (some VmError.code_store_out_of_gas) = true
is_code_store _ = false

module _ {W : Type 0} where
  unfoldable pub popping_value :
      {A : Type 0} → Bool → State W → (Option ℕ → State W → Option A) → Option A
  popping_value takes c k =
      let popped = popping c λ v. k (some v) in if takes then popped else k none c

  -- `c.gas += gas`
  unfoldable pub return_gas : ℕ → State W → State W
  return_gas gas c = record c { gas = (c.gas + gas) % u64_mod }

  unfoldable pub refund : Option Contract → State W → State W
  unfolding return_gas
  refund none c = c
  refund (some k) c = return_gas k.gas c

  -- `copy(c.memory[offset:offset+size], bytes)`
  unfoldable pub copy_result : ℕ → ℕ → List ℕ → State W → Option (State W)
  copy_result offset size bytes c = slice offset (offset + size) c.memory >>= λ place.
      some (record c { memory = write offset (take size bytes) c.memory })

  -- What `opCall` does with a result.
  unfoldable pub take_result : ℕ → ℕ → ExecutionResult → State W → Option (State W)
  unfolding of_bool
  take_result offset size r c =
      let pushed = push (of_bool (succeeded r)) c in
      let copied = copy_result offset size r.return_value pushed in
      let filled =
        if (succeeded r || reverted r) && not (length r.return_value == 0)
        then copied
        else some pushed in
      filled >>= λ c'. some (record (return_gas r.gas_left c') { return_data = r.return_value })

  -- CALL in a static call that sends value; the value is the third number of the stack.
  unfoldable pub writes_value : CallType → State W → Option Bool
  writes_value kind c =
      let sends = get_elem? c.stack 2 >>= λ v. some (not (v == 0)) in
      if is_call kind && c.msg.static then sends else some false

  -- What `opCreate` does with a result.
  unfoldable pub take_created : Bool → Address → ExecutionResult → State W → State W
  take_created second addr r c =
      let v =
        if not second && c.config.homestead && is_code_store r.err
        then 0
        else if failed r && not (is_code_store r.err)
        then 0
        else addr in
      let c' = return_gas r.gas_left (push v c) in
      if reverted r then record c' { return_data = r.return_value } else c'

module _ {W : Type 0} (h : Host W) where
  unfoldable pub call_cost : CallType → Bool → Address → State W → ℕ
  call_cost kind transfers addr c =
      let base = if c.config.eip150 then 700 else 40 in
      let new_account =
        if is_call kind
        then (if c.config.eip158
            then (if transfers && h.empty addr c.world then 25000 else 0)
            else if h.account_exists addr c.world
            then 0
            else 25000)
        else 0 in
      base + new_account + (if transfers then 9000 else 0)

  -- The rest of `buildCallContract`, from the callee's gas on.
  unfoldable pub build_callee :
      CallType → Address → Option ℕ → List ℕ → ℕ → ℕ → ℕ → ℕ → State W → Option (Built W)
  build_callee kind addr value args offset size cost gas c =
      paying Built.stopped ((cost + gas) % u64_mod) c λ c'.
        let transfers = is_positive value in
        let contract = callee kind c'.msg (
          new_contract_call (c'.msg.depth + 1) c'.msg.origin c'.msg.address addr value
            (if transfers then (gas + 2300) % u64_mod else gas) (h.get_code addr c'.world) args) in
        some (
          if transfers && not (covered_by value (h.get_balance c'.msg.address c'.world))
          then Built.refused (some contract) c'
          else Built.built contract offset size c')

  unfoldable pub build_call_contract : CallType → State W → Option (Built W)
  build_call_contract kind c = popping c λ initial_gas c'. popping c' λ addr c''.
      popping_value (takes_value kind) c'' λ value c3. popping c3 λ in_offset c4.
        popping c4 λ in_size c5. popping c5 λ ret_offset c6. popping c6 λ ret_size c7.
          getting Built.stopped in_offset in_size c7 λ args c8.
            allocating Built.stopped ret_offset ret_size c8 λ c9.
              let cost = call_cost kind (is_positive value) (address_of addr) c9 in
              elim (callee_gas c9.config.eip150 initial_gas c9.gas cost) [
                | none ↦ some (Built.stopped (exit VmError.out_of_gas c9))
                | some gas ↦
                    build_callee kind (address_of addr) value args ret_offset ret_size cost gas c9
              ]

  unfoldable pub finish_call : CallType → Built W → Option (State W)
  finish_call kind (Built.stopped c) = some c
  finish_call kind (Built.refused contract c) = some (refund contract (push 0 c))
  finish_call kind (Built.built contract offset size c) =
      let (r, world) = h.callx (record contract { type = kind }) c.world in
      take_result offset size r (record c { world = world })

  unfoldable pub call_op : CallType → State W → Option (State W)
  call_op kind c =
      let c' = reset_return_data c in
      let called = build_call_contract kind c' >>= finish_call kind in
      writes_value kind c' >>= λ writes.
      if writes
      then some (exit VmError.write_protection c')
      else if call_allowed kind c'.config
      then called
      else some (exit VmError.op_code_not_found c')

module _ {W : Type 0} (x : Hashes) (h : Host W) where
  -- With a salt, that of CREATE2.
  unfoldable pub created_address : Option ℕ → List ℕ → State W → Address
  created_address none input c = create_address x c.msg.address (h.get_nonce c.msg.address c.world)
  created_address (some salt) input c = create_address2 x c.msg.address salt input

  -- The rest of `buildCreateContract`, once the value is known to be covered.
  unfoldable pub build_created : Bool → ℕ → ℕ → Option ℕ → List ℕ → State W → Option (Built W)
  build_created second value len salt input c =
      let hash_cost = if second then (len % u64_mod + 31) % u64_mod / 32 * 6 % u64_mod else 0 in
      let build = λ (c' : State W).
        (let gas = c'.gas - (if c'.config.eip150 || second then c'.gas / 64 else 0) in
          paying Built.stopped gas c' λ c''. some (
            Built.built
              (new_contract_creation (c''.msg.depth + 1) c''.msg.origin c''.msg.address
                (created_address salt input c'') (some value) gas input)
              0 0 c'')) in
      if second then paying Built.stopped hash_cost c build else build c

  unfoldable pub build_create_contract : Bool → State W → Option (Built W)
  build_create_contract second c = popping c λ value c'. popping c' λ offset c''.
      popping c'' λ len c3. popping_value second c3 λ salt c4.
        getting Built.stopped offset len c4 λ input c5. paying Built.stopped 0 c5 λ c6.
          (let rest = build_created second value len salt input c6 in
            if not (value == 0) && ltb (h.get_balance c6.msg.address c6.world) value
            then some (Built.refused none c6)
            else rest)

  unfoldable pub finish_create : Bool → Built W → Option (State W)
  finish_create second (Built.stopped c) = some c
  finish_create second (Built.refused contract c) = some (refund contract (push 0 c))
  finish_create second (Built.built contract offset size c) =
      let (r, world) = h.callx (record contract { type = CallType.create }) c.world in
      some (take_created second contract.address r (record c { world = world }))

  -- CREATE, and with `second` CREATE2.
  unfoldable pub create_op : Bool → State W → Option (State W)
  create_op second c =
      let c' = reset_return_data c in
      let created = build_create_contract second c' >>= finish_create second in
      if c.msg.static
      then some (exit VmError.write_protection c)
      else if second && not c.config.constantinople
      then some (exit VmError.op_code_not_found c)
      else created
