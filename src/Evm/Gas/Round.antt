-- ===== src/Evm/Gas/Round.antt =====
-- A round of the loop and the whole loop: what they keep and spend, and where the position goes.
use nxchain.Base.{
  ℕ, zero, suc, ◌≤◌, ◌<◌, ◌+◌, ◌-◌, ◌%◌, true, false, Option, none, some, ◌≡◌, refl, arith, ltb,
  length, Bool-cases, ◌⊎◌, inl, inr, ap, ◌∙◌,
}
use nxchain.Types.{u64_mod}
use nxchain.Chain.{ForksInTime}
use nxchain.State.Runtime.{VmError, Host}
use nxchain.Evm.OpCode.{OpCode, op_code, handler}
use nxchain.Evm.{State, exit, halt, consume_gas, current_op_code, stack_size}
use nxchain.Evm.Instructions.Calls.{Hashes}
use nxchain.Evm.Run.{Outcome, after, end_round, round_of, round_byte, round_at, round, run}
use nxchain.Evm.Gas.{Ends, Yields, Yields-bind, Yields-if}
use nxchain.Evm.Gas.Flow.{Goes, Flow}
use nxchain.Evm.Gas.Calls.{ReturnsGas}
use nxchain.Evm.Gas.Dispatch.{execute-Flow}

-- The position after a round of the instruction `op`.
pub record Moves {W : Type 0} (c : State W) (j : ℕ) : Type 0 where
  pub byte : ℕ
  pub op : OpCode
  pub left : ℕ
  pub reads : current_op_code c ≡ some byte
  pub decodes : op_code byte ≡ some op
  pub goes : Goes c op left
  pub next : j ≡ (left + 1) % u64_mod

-- What a round keeps; one that does not stop has spent gas and moved.
pub record Rounds {W : Type 0} (c c' : State W) : Type 0 where
  pub config : c'.config ≡ c.config
  pub code : c'.code ≡ c.code
  pub bitmap : c'.bitmap ≡ c.bitmap
  pub gas : c'.gas ≤ c.gas
  pub ends : (c'.stop ≡ true) ⊎ ((c'.gas < c.gas) × Moves c c'.ip)

module _ {W : Type 0} where
  Rounds-exit : {c : State W} (e : VmError) → Rounds c (exit e c)
  unfolding exit
  Rounds-exit e = record {
    config = refl;
    code = refl;
    bitmap = refl;
    gas = omega arith;
    ends = inl refl;
  }

  -- The state once the gas of the table is taken.
  abbrev paid : State W → ℕ → State W
  paid c g = record c {
    gas = c.gas - g;
    current_consumed_gas = (c.current_consumed_gas + g) % u64_mod;
  }

  Goes-paid : {c : State W} {op : OpCode} {i : ℕ} (g : ℕ) → Goes (paid c g) op i → Goes c op i
  Goes-paid g (Goes.stays p) = Goes.stays p
  Goes-paid g (Goes.jumps dest l m) = Goes.jumps dest l m
  Goes-paid g (Goes.passes n p) = Goes.passes n p

  module _ {c : State W} {byte : ℕ} {op : OpCode} (rd : current_op_code c ≡ some byte)
      (dc : op_code byte ≡ some op) where
    Rounds-move :
        {c' : State W} (g : ℕ)
        → g ≤ c.gas
        → Ends (1 - g) (paid c g) (record c' { ip = c.ip })
        → Goes (paid c g) op c'.ip
        → Rounds c (record c' { ip = (c'.ip + 1) % u64_mod })
    Rounds-move {c' = c'} g le (Ends.halted s f) m = record {
      config = f.config;
      code = f.code;
      bitmap = f.bitmap;
      gas = omega (arith, f.spent);
      ends = inl s;
    }
    Rounds-move {c' = c'} g le (Ends.spends f) m = record {
      config = f.config;
      code = f.code;
      bitmap = f.bitmap;
      gas = omega (arith, f.spent);
      ends = inr (
        omega (arith, f.spent),
        record {
          byte = byte;
          op = op;
          left = c'.ip;
          reads = rd;
          decodes = dc;
          goes = Goes-paid g m;
          next = refl;
        },
      );
    }

    Rounds-overflow :
        (c' : State W) (g : ℕ)
        → Ends (1 - g) (paid c g) (record c' { ip = c.ip })
        → Rounds c (exit VmError.stack_overflow c')
    unfolding exit
    Rounds-overflow c' g (Ends.halted s f) = record {
      config = f.config;
      code = f.code;
      bitmap = f.bitmap;
      gas = omega (arith, f.spent);
      ends = inl refl;
    }
    Rounds-overflow c' g (Ends.spends f) = record {
      config = f.config;
      code = f.code;
      bitmap = f.bitmap;
      gas = omega (arith, f.spent);
      ends = inl refl;
    }

    end_round-Rounds :
        {c' : State W} (g : ℕ) → g ≤ c.gas → Flow op (1 - g) (paid c g) c' → Rounds c (end_round c')
    unfolding end_round
    end_round-Rounds {c' = c'} g le f = elim (Bool-cases (ltb stack_size (length c'.stack))) [
      | inl over ↦ rw over (Rounds-overflow c' g f.ends)
      | inr within ↦ rw within (Rounds-move g le f.ends f.goes)
    ]

module _ {W : Type 0} (x : Hashes) (h : Host W) (returns : ReturnsGas h) where
  round_of-Rounds :
      {c : State W} {byte : ℕ} (op : OpCode)
      → c.config.eip150 ≡ true
      → current_op_code c ≡ some byte
      → op_code byte ≡ some op
      → Yields (Rounds c) (round_of x h op c)
  unfolding round_of consume_gas exit
  round_of-Rounds {c = c} op eip150 rd dc =
      Yields-if (ltb (length c.stack) (handler op).0)
        (Yields.yields (Rounds-exit VmError.stack_underflow))
        (elim (Bool-cases (ltb c.gas (handler op).1)) [
          | inl low ↦ rw low (
              Yields.yields (record {
                config = refl;
                code = refl;
                bitmap = refl;
                gas = omega arith;
                ends = inl refl;
              }))
          | inr high ↦ rw high (
              Yields-bind {k = λ s. some (end_round s)}
                (execute-Flow x h returns (paid c (handler op).1) eip150 op)
                λ c' f. Yields.yields (end_round-Rounds rd dc (handler op).1 (ground arith) f))
        ])

  decoded-Rounds :
      {c : State W} (byte : ℕ) (r : Option OpCode)
      → c.config.eip150 ≡ true
      → current_op_code c ≡ some byte
      → op_code byte ≡ r
      → Yields (Rounds c) (round_byte x h c r)
  unfolding round_byte
  decoded-Rounds byte none eip150 rd dc = Yields.yields (Rounds-exit VmError.op_code_not_found)
  decoded-Rounds byte (some op) eip150 rd dc = round_of-Rounds op eip150 rd dc

  read-Rounds :
      {c : State W} (r : Option ℕ)
      → c.config.eip150 ≡ true
      → current_op_code c ≡ r
      → Yields (Rounds c) (round_at x h c r)
  unfolding round_at halt
  read-Rounds none eip150 rd =
      Yields.yields
        (record { config = refl; code = refl; bitmap = refl; gas = omega arith; ends = inl refl })
  read-Rounds (some byte) eip150 rd = decoded-Rounds byte (op_code byte) eip150 rd refl

  pub round-Rounds : (c : State W) → c.config.eip150 ≡ true → Yields (Rounds c) (round x h c)
  unfolding round
  round-Rounds c eip150 = read-Rounds (current_op_code c) eip150 refl

-- A stopped state with at most some gas.
abbrev pub Stopped : {W : Type 0} → ℕ → State W → Type 0
Stopped gas c = (c.stop ≡ true) × (c.gas ≤ gas)

-- The loop has ended in a panic, or in a stopped state that `P` holds of.
pub data Halts {A : Type 0} (P : A → Type 0) : Outcome A → Type 0 where
  by_panic : Halts P Outcome.panicked
  by_stop : {a : A} → P a → Halts P (Outcome.finished a)

module _ {W : Type 0} (x : Hashes) (h : Host W) (returns : ReturnsGas h) where
  run_stopped : (n : ℕ) (c : State W) → c.stop ≡ true → run x h n c ≡ Outcome.finished c
  unfolding run
  run_stopped zero c s = rw s refl
  run_stopped (suc n) c s = rw s refl

  run_going :
      (n : ℕ) (c : State W) → c.stop ≡ false → run x h (suc n) c ≡ after (round x h c) (run x h n)
  unfolding run
  run_going n c go = rw go refl

  after-Halts :
      (n : ℕ) {c : State W} {r : Option (State W)} (P : State W → Type 0)
      → ((c' : State W) → Rounds c c' → Halts P (run x h n c'))
      → Yields (Rounds c) r
      → Halts P (after r (run x h n))
  unfolding after
  after-Halts n P k Yields.panics = Halts.by_panic
  after-Halts n P k (Yields.yields r) = k _ r

  -- One more than the gas is fuel enough.
  pub run-Halts :
      (n bound : ℕ) (c : State W)
      → c.gas < n
      → c.gas ≤ bound
      → c.config.eip150 ≡ true
      → Halts (Stopped bound) (run x h n c)
  run-Halts zero bound c lt le on = absurd (omega arith)
  run-Halts (suc n) bound c lt le on =
      let next : (c' : State W) → Rounds c c' → Halts (Stopped bound) (run x h n c') = λ c' r.
        let within : c'.gas ≤ bound = omega (arith, r.gas) in
        elim r.ends [
          | inl s ↦ rw (run_stopped n c' s) (Halts.by_stop {a = c'} (s, within))
          | inr m ↦
              run-Halts n bound c' (omega (arith, m.0)) within
                (ap (λ (k : ForksInTime). k.eip150) r.config ∙ on)
        ] in
      elim (Bool-cases c.stop) [
        | inl s ↦ rw (run_stopped (suc n) c s) (Halts.by_stop (s, le))
        | inr go ↦
            rw (run_going n c go)
              (after-Halts n (Stopped bound) next (round-Rounds x h returns c on))
      ]
