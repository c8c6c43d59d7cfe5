-- ===== src/Evm/Instructions/Data.antt =====
-- state/runtime/evm/instructions.go: memory, copies, hashing and storage. The hash is a parameter.
use nxchain.Base.{
  ℕ, ◌+◌, ◌-◌, ◌*◌, ◌/◌, ◌%◌, Bool, Option, none, some, List, [], ◌∷◌, ltb, leb, ◌==◌,
  if◌then◌else◌, length, take, ◌&&◌, ◌||◌, not, ◌>>=◌,
}
use nxchain.Types.{Hash, u64_mod}
use nxchain.Chain.{ForksInTime}
use nxchain.State.Runtime.{VmError, StorageStatus, Host}
use nxchain.Evm.Words.{of_bytes, to_bytes}
use nxchain.Evm.{State, exit, paying, allocating, getting, popping, store, slice, write}
use nxchain.Evm.Instructions.Values.{same_state, set_bytes, address_of, pushing}

-- The gas of a copy or of a hash, for each 32 bytes.
unfoldable pub word_gas : ℕ → ℕ → ℕ
word_gas size price = (size + 31) % u64_mod / 32 * price % u64_mod

unfoldable pub legacy_gas_metering : ForksInTime → Bool
legacy_gas_metering f = not f.istanbul && (f.petersburg || not f.constantinople)

unfoldable pub sstore_cost : ForksInTime → StorageStatus → ℕ
unfolding legacy_gas_metering
sstore_cost f StorageStatus.unchanged =
    if f.istanbul then 800 else if legacy_gas_metering f then 5000 else 200
sstore_cost f StorageStatus.modified = 5000
sstore_cost f StorageStatus.modified_again =
    if f.istanbul then 800 else if legacy_gas_metering f then 5000 else 200
sstore_cost f StorageStatus.added = 20000
sstore_cost f StorageStatus.deleted = 5000

module _ {W : Type 0} where
  unfoldable pub mload : State W → Option (State W)
  mload c =
      popping c
        λ offset c'. getting same_state offset 32 c' λ bytes c''. pushing (of_bytes 0 bytes) c''

  unfoldable pub mstore : State W → Option (State W)
  mstore c = popping c λ offset c'.
      popping c'
        λ val c''. allocating same_state offset 32 c'' λ c3. store offset (to_bytes 32 val) c3

  unfoldable pub mstore8 : State W → Option (State W)
  mstore8 c = popping c λ offset c'.
      popping c'
        λ val c''. allocating same_state offset 1 c'' λ c3. store offset (val % 256 ∷ []) c3

  -- CALLDATACOPY and CODECOPY, from the given bytes.
  unfoldable pub copy_from : (State W → List ℕ) → State W → Option (State W)
  copy_from input c = popping c λ mem_offset c'. popping c' λ data_offset c''. popping c'' λ len c3.
      allocating same_state mem_offset len c3 λ c4. paying same_state (word_gas len 3) c4 λ c5.
        (let filled = store mem_offset (set_bytes (input c5) len data_offset) c5 in
          if len == 0 then some c5 else filled)

  -- `copy(c.memory[memOffset:], data)`: an offset past the memory panics, also for no bytes.
  unfoldable pub copy_return_data : ℕ → ℕ → ℕ → State W → Option (State W)
  copy_return_data mem_offset data_offset data_end c =
      slice data_offset data_end c.return_data >>= λ bytes.
      if ltb (length c.memory) mem_offset
      then none
      else some (record c {
        memory = write mem_offset (take (length c.memory - mem_offset) bytes) c.memory;
      })

  -- What `opReturnDataCopy` does once its memory is allocated.
  unfoldable pub return_data_copied : ℕ → ℕ → ℕ → State W → Option (State W)
  return_data_copied mem_offset data_offset len c =
      let copied = paying same_state (word_gas len 3) c λ c'.
        (let done = copy_return_data mem_offset data_offset (data_offset + len) c' in
          if leb u64_mod (data_offset + len) || ltb (length c'.return_data) (data_offset + len)
          then some (exit VmError.return_data_out_of_bounds c')
          else done) in
      if leb u64_mod data_offset then some (exit VmError.gas_uint_overflow c) else copied

  unfoldable pub returndatacopy : State W → Option (State W)
  returndatacopy c = popping c λ mem_offset c'. popping c' λ data_offset c''. popping c'' λ len c3.
      allocating same_state mem_offset len c3 (return_data_copied mem_offset data_offset len)

  unfoldable pub sha3 : (List ℕ → Hash) → State W → Option (State W)
  sha3 keccak256 c = popping c λ offset c'. popping c' λ len c''.
      getting same_state offset len c''
        λ bytes c3. paying same_state (word_gas len 6) c3 λ c4. pushing (keccak256 bytes) c4

module _ {W : Type 0} (h : Host W) where
  unfoldable pub extcodecopy : State W → Option (State W)
  extcodecopy c = popping c λ addr c'. popping c' λ mem_offset c''. popping c'' λ code_offset c3.
      popping c3 λ len c4. allocating same_state mem_offset len c4 λ c5.
        paying same_state (word_gas len 3) c5 λ c6.
          paying same_state (if c6.config.eip150 then 700 else 20) c6 λ c7.
            (let filled =
                store mem_offset (set_bytes (h.get_code (address_of addr) c7.world) len code_offset)
                  c7 in
              if len == 0 then some c7 else filled)

  unfoldable pub sstore : State W → Option (State W)
  sstore c =
      let stored = popping c λ key c'. popping c' λ val c''.
        (let (status, world) = h.set_storage c''.msg.address key val c''.config c''.world in
          paying same_state (sstore_cost c''.config status) (record c'' { world = world })
            λ c3. some c3) in
      if c.msg.static
      then some (exit VmError.write_protection c)
      else if c.config.istanbul && leb c.gas 2300
      then some (exit VmError.out_of_gas c)
      else stored
