-- ===== src/Evm/Memory/Copy.antt =====
-- state/runtime/evm/instructions.go: exactly when RETURNDATACOPY panics.
use nxchain.Base.{
  ℕ, ◌+◌, ◌-◌, ◌≤◌, ◌<◌, Bool, true, false, none, some, List, ◌∷◌, ◌==◌, ltb, leb, if◌then◌else◌,
  length, take, drop, ◌≡◌, ◌≢◌, refl, arith, ◌↔◌, inl, inr, Bool-cases, ◌||◌,
}
use nxchain.Types.{u64_mod}
use nxchain.Evm.{
  State, exit, consume_gas, paying, allocate_memory, allocating, slice, popping, pop_from,
}
use nxchain.Evm.Instructions.Data.{word_gas, copy_return_data, return_data_copied, returndatacopy}
use nxchain.Evm.Memory.{IsAllocation, allocate_memory-IsAllocation}

slice_within :
    (low high : ℕ) (s : List ℕ)
    → low ≤ high
    → high ≤ length s
    → slice low high s ≡ some (take (high - low) (drop low s))
unfolding slice
slice_within low high s le lt = ground arith

module _ {W : Type 0} where
  -- The last copy panics exactly for a place behind the memory.
  copy_none :
      (m low high : ℕ) (c : State W)
      → low ≤ high
      → high ≤ length c.return_data
      → (copy_return_data m low high c ≡ none) ↔ (length c.memory < m)
  unfolding copy_return_data
  copy_none m low high c le lt =
      rw (slice_within low high c.return_data le lt) (elim (Bool-cases (ltb (length c.memory) m)) [
        | inl behind ↦ rw behind ((λ e. ground arith), λ l. refl)
        | inr inside ↦ rw inside ((λ e. cc), λ l. absurd (ground arith))
      ])

  copied_none :
      (m low len : ℕ) (c : State W)
      → return_data_copied m low len c ≡ none
      → (low + len ≤ length c.return_data) × (length c.memory < m)
  unfolding return_data_copied paying consume_gas exit
  copied_none m low len c = elim (Bool-cases (leb u64_mod low)) [
    | inl far ↦ rw far λ e. cc
    | inr near ↦ elim (Bool-cases (ltb c.gas (word_gas len 3))) [
      | inl poor ↦ rw (near, poor) λ e. cc
      | inr paid ↦
          elim (Bool-cases (leb u64_mod (low + len) || ltb (length c.return_data) (low + len))) [
            | inl out ↦ rw (near, paid, out) λ e. cc
            | inr within ↦
                let inside : low + len ≤ length c.return_data = ground arith in
                rw (near, paid, within)
                  λ e. (inside, (copy_none m low (low + len) _ (omega arith) inside).0 e)
          ]
    ]
  ]

  nothing_copied :
      (m low : ℕ) (c : State W)
      → low ≤ length c.return_data
      → length c.return_data < u64_mod
      → length c.memory < m
      → return_data_copied m low 0 c ≡ none
  unfolding return_data_copied paying consume_gas exit word_gas
  nothing_copied m low c le short behind =
      let near : leb u64_mod low ≡ false = ground arith in
      let within : (leb u64_mod (low + 0) || ltb (length c.return_data) (low + 0)) ≡ false =
        ground arith in
      let free : ltb c.gas 0 ≡ false = ground arith in
      rw (near, free, within) ((copy_none m low (low + 0) _ (omega arith) (omega arith)).1 behind)

  allocated_none :
      (m low len : ℕ) (c : State W) (r : Bool × State W)
      → IsAllocation m len c r
      → len ≢ 0
      → (if r.0 then return_data_copied m low len r.1 else some r.1) ≢ none
  allocated_none m low len c (false, c') p some_asked e = cc
  allocated_none m low len c (true, c') (inl (off, stopped)) some_asked e = cc
  allocated_none m low len c (true, c') (inr (ok, has)) some_asked e = elim has.room [
    | inl nothing ↦ some_asked nothing.0
    | inr (room, _, _) ↦ let behind = copied_none m low len c' e in absurd (omega (arith, behind.1))
  ]

  allocate_nothing : (m : ℕ) (c : State W) → m < u64_mod → allocate_memory m 0 c ≡ (true, c)
  unfolding allocate_memory
  allocate_nothing m c lt = let small : leb u64_mod m ≡ false = ground arith in rw small refl

  -- RETURNDATACOPY of `len` bytes of the return data, from `low` on, to the place `m`, both 64-bit numbers,
  -- panics exactly if no bytes are asked for, from within the return data, to a place behind the memory.
  pub returndatacopy-none :
      (m low len : ℕ) (s : List ℕ) (c : State W)
      → m < u64_mod
      → length c.return_data < u64_mod
      → (returndatacopy (record c { stack = m ∷ low ∷ len ∷ s }) ≡ none)
        ↔ ((len ≡ 0) × (low ≤ length c.return_data) × (length c.memory < m))
  unfolding returndatacopy popping pop_from allocating
  returndatacopy-none m low len s c small short = elim (Bool-cases (len == 0)) [
    | inl nothing ↦
        let c' = record c { stack = s } in
        let zero_len : len ≡ 0 = ground arith in
        rw (zero_len, allocate_nothing m c' small)
          (
            (λ e. let p = copied_none m low 0 c' e in (refl, omega (arith, p.0), p.1)),
            λ h. nothing_copied m low c' h.1 short h.2,
          )
    | inr asked ↦ (
      (λ e. absurd (
          allocated_none m low len (record c { stack = s }) _
            (allocate_memory-IsAllocation m len (record c { stack = s })) (ground arith) e)),
      λ h. absurd (ground (arith, h.0)),
    )
  ]
