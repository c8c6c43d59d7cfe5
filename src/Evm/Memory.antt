-- ===== src/Evm/Memory.antt =====
-- state/runtime/evm: the memory that an instruction asks for is there, and where a copy still panics.
pub mod Copy
use nxchain.Base.{
  ℕ, zero, suc, ◌+◌, ◌-◌, ◌*◌, ◌/◌, ◌%◌, ◌^◌, ◌≤◌, ◌<◌, Bool, true, false, Option, none, some, List,
  [], ◌∷◌, ◌++◌, ◌==◌, ltb, leb, if◌then◌else◌, length, take, drop, ◌≡◌, ◌≢◌, refl, arith, ap, ◌∙◌,
  sym, ◌⊎◌, ◌↔◌, inl, inr, Bool-cases, ◌||◌, length-append, length-take_le, ◌>>=◌,
}
use nxchain.Types.{u64_mod}
use nxchain.Evm.Bitmap.{zeros}
use nxchain.Evm.Bitmap.Loop.{length-zeros}
use nxchain.Evm.{
  State, exit, consume_gas, extend_byte_slice, memory_cost, grow, allocate_memory, slice, store,
  write,
}
use nxchain.State.Runtime.{VmError}

take-append_front :
    (xs ys : List ℕ) (k : ℕ) → length xs ≤ k → take (length xs) (take k (xs ++ ys)) ≡ xs
take-append_front [] ys k le = refl
take-append_front (x ∷ xs) ys zero le = absurd (omega arith)
take-append_front (x ∷ xs) ys (suc k) le = ap (◌∷◌ x) (take-append_front xs ys k (omega arith))

module _ (b : List ℕ) (n : ℕ) where
  length-extend : length (extend_byte_slice b n) ≡ n
  unfolding extend_byte_slice
  length-extend =
      length-take_le n (b ++ zeros (n - length b))
        (omega (arith, length-append b (zeros (n - length b)), length-zeros (n - length b)))

  -- The bytes that were there stay in front.
  extend-keeps : length b ≤ n → take (length b) (extend_byte_slice b n) ≡ b
  unfolding extend_byte_slice
  extend-keeps le = take-append_front b (zeros (n - length b)) n le

-- The least memory of whole words that holds what is asked for, with its cost recorded and the growth of
-- the recorded cost taken from the gas.
abbrev pub Grows : {W : Type 0} → ℕ → ℕ → State W → State W → Type 0
Grows offset size c c' =
    (words : ℕ) × (length c'.memory ≡ words * 32)
    × (words * 32 < offset + size + 32)
    × (length c.memory < offset + size)
    × (c'.last_gas_cost ≡ (3 * words + words * words % u64_mod / 512) % u64_mod)
    × (c'.gas + (c'.last_gas_cost + u64_mod - c.last_gas_cost) % u64_mod ≡ c.gas)

-- What an allocation leaves, in a memory that keeps its bytes: room for what was asked, unless nothing was.
pub record HasRoom {W : Type 0} (offset size : ℕ) (c c' : State W) : Type 0 where
  pub room :
      (size ≡ 0) × (offset < u64_mod)
      ⊎ (offset + size ≤ length c'.memory) × (offset ≤ 0xffffffffe0) × (size ≤ 0xffffffffe0)
  pub keeps : take (length c.memory) c'.memory ≡ c.memory
  pub paid : (c' ≡ c) ⊎ Grows offset size c c'

-- Why an allocation is refused: a place or a size is out of range, or the gas does not cover the growth.
abbrev pub MayRefuse : {W : Type 0} → ℕ → ℕ → State W → State W → VmError → Type 0
MayRefuse offset size c c' VmError.gas_uint_overflow =
    (0xffffffffe0 < offset) ⊎ (0xffffffffe0 < size)
MayRefuse offset size c c' VmError.out_of_gas =
    (length c.memory < offset + size)
    × (c.gas < (c'.last_gas_cost + u64_mod - c.last_gas_cost) % u64_mod)
MayRefuse offset size c c' _ = ⊥

-- What a refused allocation leaves: a stopped run with its error, and the memory and the gas as they were.
pub record IsRefused {W : Type 0} (offset size : ℕ) (c c' : State W) : Type 0 where
  pub stopped : c'.stop ≡ true
  pub error : (e : VmError) × (c'.err ≡ some e) × MayRefuse offset size c c' e
  pub same_memory : c'.memory ≡ c.memory
  pub same_gas : c'.gas ≡ c.gas

take_all : (xs : List ℕ) → take (length xs) xs ≡ xs
take_all [] = refl
take_all (x ∷ xs) = ap (◌∷◌ x) (take_all xs)

-- A test with the state that it leaves: it fails and the run is stopped, or holds of a state with room.
abbrev pub IsAllocation : {W : Type 0} → ℕ → ℕ → State W → Bool × State W → Type 0
IsAllocation offset size c (ok, c') =
    ((ok ≡ false) × IsRefused offset size c c') ⊎ ((ok ≡ true) × HasRoom offset size c c')

module _ {W : Type 0} where
  out_of_range :
      (offset size : ℕ) (c : State W)
      → (0xffffffffe0 < offset) ⊎ (0xffffffffe0 < size)
      → IsAllocation offset size c (false, exit VmError.gas_uint_overflow c)
  unfolding exit
  out_of_range offset size c far = inl (
    refl,
    record {
      stopped = refl;
      error = (VmError.gas_uint_overflow, refl, far);
      same_memory = refl;
      same_gas = refl;
    },
  )

  grow-IsAllocation :
      (offset size : ℕ) (c : State W)
      → length c.memory < offset + size
      → (offset ≤ 0xffffffffe0) × (size ≤ 0xffffffffe0)
      → IsAllocation offset size c (grow (offset + size) c)
  unfolding grow consume_gas exit memory_cost
  grow-IsAllocation offset size c short near =
      let need = (offset + size + 31) / 32 * 32 in
      let cost = (memory_cost ((offset + size + 31) / 32) + u64_mod - c.last_gas_cost) % u64_mod in
      elim (Bool-cases (ltb c.gas cost)) [
        | inl low ↦ rw low (
            inl (
              refl,
              record {
                stopped = refl;
                error = (VmError.out_of_gas, refl, (omega arith, ground arith));
                same_memory = refl;
                same_gas = refl;
              },
            ))
        | inr high ↦ rw high (
            inr (
              refl,
              record {
                room = inr (omega (arith, length-extend c.memory need), near.0, near.1);
                keeps = extend-keeps c.memory need (omega arith);
                paid = inr (
                  (offset + size + 31) / 32,
                  length-extend c.memory need,
                  omega arith,
                  short,
                  refl,
                  ground arith,
                );
              },
            ))
      ]

  -- An allocation is refused or leaves room for all the bytes that are asked for. A refused one stops the
  -- run with an error, and leaves the memory and the gas: ErrGasUintOverflow for a place or a size above
  -- 0xffffffffe0, or ErrOutOfGas for bytes past the end of the memory whose cost the gas does not cover.
  -- The other asks for no byte at a place of 64 bits, or has a place and a size of at most 0xffffffffe0. It
  -- keeps the bytes of the memory and their places; it changes nothing, or, for bytes past the end, makes
  -- the memory the least number of words that holds them, records 3w + w * w / 512 for the words, and
  -- takes the growth of the recorded cost from the gas, where the product, the sum and the growth wrap at
  -- 2 ^ 64.
  pub allocate_memory-IsAllocation :
      (offset size : ℕ) (c : State W) → IsAllocation offset size c (allocate_memory offset size c)
  unfolding allocate_memory exit
  allocate_memory-IsAllocation offset size c =
      elim (Bool-cases (leb u64_mod offset || leb u64_mod size)) [
        | inl far ↦ rw far (out_of_range offset size c (ground arith))
        | inr near ↦ elim (Bool-cases (size == 0)) [
          | inl none_asked ↦
              rw (near, none_asked)
                (inr (
                  refl,
                  record {
                    room = inl (ground arith, ground arith);
                    keeps = take_all c.memory;
                    paid = inl refl;
                  },
                ))
          | inr asked ↦ elim (Bool-cases (ltb 0xffffffffe0 offset || ltb 0xffffffffe0 size)) [
            | inl big ↦ rw (near, asked, big) (out_of_range offset size c (ground arith))
            | inr small ↦ elim (Bool-cases (ltb (length c.memory) (offset + size))) [
              | inl short ↦
                  rw (near, asked, small, short)
                    (grow-IsAllocation offset size c (ground arith) (ground arith, ground arith))
              | inr enough ↦
                  rw (near, asked, small, enough)
                    (inr (
                      refl,
                      record {
                        room = inr (ground arith, ground arith, ground arith);
                        keeps = take_all c.memory;
                        paid = inl refl;
                      },
                    ))
            ]
          ]
        ]
      ]
