-- ===== src/Evm/Gas.antt =====
-- state/runtime/evm: what every instruction keeps and what it spends.
pub mod Frames
pub use Frames.*
pub mod Values
pub mod Data
pub mod Flow
pub mod Calls
pub mod Creations
pub mod Dispatch
pub mod Round
pub mod Result
pub mod Position
use nxchain.Base.{
  ℕ, zero, suc, ◌+◌, ◌-◌, ◌/◌, ◌%◌, ◌||◌, ◌≤◌, ◌<◌, Bool, true, false, Option, none, some, List, [],
  ◌∷◌, ◌≡◌, refl, sym, ap, ◌∙◌, ◌⊎◌, inl, inr, arith, ltb, leb, ◌==◌, if◌then◌else◌, length, ◌>>=◌,
  Bool-cases, get_elem?,
}
use mathlib.Core.Path.{subst}
use mathlib.Core.Option.{some_inj}
use nxchain.Types.{u64_mod}
use nxchain.Chain.{ForksInTime}
use nxchain.State.Runtime.{VmError}
use nxchain.Evm.{
  State, exit, halt, push, consume_gas, paying, memory_cost, grow, allocate_memory, allocating,
  getting, store, slice, pop_from, popping, topping, replace_top,
}

module _ {W : Type 0} where
  module _ {A : Type 0} (P : A → Type 0) {c : State W} where
    pop_from-Yields :
        {n : ℕ} {c' : State W} (k : ℕ → State W → Option A) (xs : List ℕ)
        → Frame n c c'
        → ((a : ℕ) (s : State W) → Frame n c s → Yields P (k a s))
        → Yields P (pop_from c' k xs)
    unfolding pop_from
    pop_from-Yields k [] f h = Yields.panics
    pop_from-Yields k (a ∷ s) f h = h a _ (Frame-stack s f)

    pub popping-Yields :
        {n : ℕ} {c' : State W} (k : ℕ → State W → Option A)
        → Frame n c c'
        → ((a : ℕ) (s : State W) → Frame n c s → Yields P (k a s))
        → Yields P (popping c' k)
    unfolding popping
    popping-Yields {c' = c'} k f h = pop_from-Yields k c'.stack f h

    pub topping-Yields :
        {n : ℕ} {c' : State W} (k : ℕ → Option A)
        → Frame n c c'
        → ((a : ℕ) → Yields P (k a))
        → Yields P (topping c' k)
    unfolding topping
    topping-Yields {c' = c'} k f h = Yields-any (get_elem? c'.stack 0) h

    -- What a stopped run returns satisfies `P`.
    module _ (out : State W → A) (stops : (s : State W) → ((m : ℕ) → Ends m c s) → P (out s)) where
      pub paying-Yields :
          {n : ℕ} {c' : State W} (g : ℕ) (k : State W → Option A)
          → Frame n c c'
          → ((s : State W) → Frame (n + g) c s → Yields P (k s))
          → Yields P (paying out g c' k)
      unfolding paying consume_gas exit
      paying-Yields {c' = c'} g k f h = elim (Bool-cases (ltb c'.gas g)) [
        | inl low ↦ rw low (
            Yields.yields (
              stops _ λ m. Ends.halted refl (record {
                config = f.config;
                code = f.code;
                bitmap = f.bitmap;
                ip = f.ip;
                spent = omega (arith, f.spent);
              })))
        | inr high ↦ rw high (
            h _ (record {
              config = f.config;
              code = f.code;
              bitmap = f.bitmap;
              ip = f.ip;
              spent = ground (arith, f.spent);
            }))
      ]

      grow-Yields :
          {n : ℕ} {c' : State W} (size : ℕ) (k : State W → Option A)
          → Frame n c c'
          → ((s : State W) → Frame n c s → Yields P (k s))
          → Yields P (let (ok, s) = grow size c' in if ok then k s else some (out s))
      unfolding grow consume_gas exit
      grow-Yields {c' = c'} size k f h =
          let cost = (memory_cost ((size + 31) / 32) + u64_mod - c'.last_gas_cost) % u64_mod in
          elim (Bool-cases (ltb c'.gas cost)) [
            | inl low ↦ rw low (
                Yields.yields (
                  stops _ λ m. Ends.halted refl (record {
                    config = f.config;
                    code = f.code;
                    bitmap = f.bitmap;
                    ip = f.ip;
                    spent = omega (arith, f.spent);
                  })))
            | inr high ↦ rw high (
                h _ (record {
                  config = f.config;
                  code = f.code;
                  bitmap = f.bitmap;
                  ip = f.ip;
                  spent = ground (arith, f.spent);
                }))
          ]

      pub allocating-Yields :
          {n : ℕ} {c' : State W} (offset size : ℕ) (k : State W → Option A)
          → Frame n c c'
          → ((s : State W) → Frame n c s → Yields P (k s))
          → Yields P (allocating out offset size c' k)
      unfolding allocating allocate_memory
      allocating-Yields {c' = c'} offset size k f h =
          elim (Bool-cases (leb u64_mod offset || leb u64_mod size)) [
            | inl far ↦ rw far (Yields.yields (stops _ λ m. Ends-exit VmError.gas_uint_overflow f))
            | inr near ↦ elim (Bool-cases (size == 0)) [
              | inl none_asked ↦ rw (near, none_asked) (h _ f)
              | inr asked ↦ elim (Bool-cases (ltb 0xffffffffe0 offset || ltb 0xffffffffe0 size)) [
                | inl big ↦
                    rw (near, asked, big)
                      (Yields.yields (stops _ λ m. Ends-exit VmError.gas_uint_overflow f))
                | inr small ↦ elim (Bool-cases (ltb (length c'.memory) (offset + size))) [
                  | inl short ↦ rw (near, asked, small, short) (grow-Yields (offset + size) k f h)
                  | inr enough ↦ rw (near, asked, small, enough) (h _ f)
                ]
              ]
            ]
          ]

      pub getting-Yields :
          {n : ℕ} {c' : State W} (offset size : ℕ) (k : List ℕ → State W → Option A)
          → Frame n c c'
          → ((bytes : List ℕ) (s : State W) → Frame n c s → Yields P (k bytes s))
          → Yields P (getting out offset size c' k)
      unfolding getting
      getting-Yields {c' = c'} offset size k f h =
          Yields-if (size == 0) (h [] c' f)
            (allocating-Yields offset size _ f λ s g. Yields-any _ λ bytes. h bytes s g)

  pub kept : {m : ℕ} {c c' : State W} → Frame m c c' → Yields (Ends 0 c) (some c')
  kept f = Yields.yields (Ends.spends (Frame-weaken (omega arith) f))

  -- The same for what returns the state itself.
  module _ {c : State W} {n : ℕ} where
    -- A change that no frame reads, after enough is spent.
    pub done : {m : ℕ} {c' : State W} → Frame m c c' → n ≤ m → Yields (Ends n c) (some c')
    done f le = Yields.yields (Ends.spends (Frame-weaken le f))

    pub pushed :
        {m : ℕ} {c' : State W} (v : ℕ) → Frame m c c' → n ≤ m → Yields (Ends n c) (some (push v c'))
    unfolding push
    pushed v f le = Yields.yields (Ends.spends (Frame-stack _ (Frame-weaken le f)))

    pub replaced :
        {m : ℕ} {c' : State W} (v : ℕ)
        → Frame m c c'
        → n ≤ m
        → Yields (Ends n c) (some (replace_top v c'))
    unfolding replace_top
    replaced v f le = Yields.yields (Ends.spends (Frame-stack _ (Frame-weaken le f)))

    pub exited :
        {m : ℕ} {c' : State W} (e : VmError) → Frame m c c' → Yields (Ends n c) (some (exit e c'))
    exited e f = Yields.yields (Ends-exit e f)

    pub paying-Frame :
        {m : ℕ} {c' : State W} (g : ℕ) (k : State W → Option (State W))
        → Frame m c c'
        → ((s : State W) → Frame (m + g) c s → Yields (Ends n c) (k s))
        → Yields (Ends n c) (paying (λ s. s) g c' k)
    paying-Frame = paying-Yields (Ends n c) (λ s. s) λ s f. f n

    pub allocating-Frame :
        {m : ℕ} {c' : State W} (offset size : ℕ) (k : State W → Option (State W))
        → Frame m c c'
        → ((s : State W) → Frame m c s → Yields (Ends n c) (k s))
        → Yields (Ends n c) (allocating (λ s. s) offset size c' k)
    allocating-Frame = allocating-Yields (Ends n c) (λ s. s) λ s f. f n

    pub getting-Frame :
        {m : ℕ} {c' : State W} (offset size : ℕ) (k : List ℕ → State W → Option (State W))
        → Frame m c c'
        → ((bytes : List ℕ) (s : State W) → Frame m c s → Yields (Ends n c) (k bytes s))
        → Yields (Ends n c) (getting (λ s. s) offset size c' k)
    getting-Frame = getting-Yields (Ends n c) (λ s. s) λ s f. f n
