-- ===== src/Evm/Gas/Flow.antt =====
-- The instructions of Instructions/Flow, as frames; jumps and pushes also move.
use nxchain.Base.{
  ℕ, zero, suc, ◌<◌, ◌+◌, ◌-◌, ◌%◌, ◌||◌, Bool, true, false, Option, none, some, List, [], ◌∷◌, ◌≡◌,
  refl, arith, ltb, leb, ◌==◌, if◌then◌else◌, length, ◌>>=◌, Bool-cases, inl, inr, get_elem?, sym,
  ap, ◌∙◌, ◌^◌,
}
use mathlib.Core.Path.{subst}
use nxchain.Types.{Hash, u64_mod}
use nxchain.State.Runtime.{VmError, Host}
use nxchain.Evm.Bitmap.{is_set}
use nxchain.Evm.OpCode.{OpCode}
use nxchain.Evm.{State, push, exit, valid_jumpdest}
use nxchain.Evm.Instructions.Flow.{
  jump_to, jump, jumpi, push_op, dup, swap, pop_hashes, stop_op, return_op, revert_op, log_topics,
  log, selfdestruct,
}
use nxchain.Evm.Gas.{
  Frame, Ends, Frame-refl, Frame-stack, Ends-halt, Yields, Yields-map, Yields-if, Yields-any,
  popping-Yields, kept, pushed, exited, paying-Frame, getting-Frame,
}
use nxchain.Evm.Gas.Data.{Frame-world}

-- The bytes that an instruction passes as its data.
abbrev pub passed : OpCode → ℕ
passed (OpCode.push n) = n
passed _ = 0

-- Where the position goes.
pub data Goes {W : Type 0} (c : State W) (op : OpCode) : ℕ → Type 0 where
  stays : passed op ≡ 0 → Goes c op c.ip
  jumps :
      (dest : ℕ)
      → dest < length c.code
      → is_set c.bitmap dest ≡ some true
      → Goes c op ((dest + u64_mod - 1) % u64_mod)
  passes : (n : ℕ) → op ≡ OpCode.push n → Goes c op ((c.ip + n) % u64_mod)

-- An instruction that ends so at its position, and moves as `Goes` says.
pub record Flow {W : Type 0} (op : OpCode) (n : ℕ) (c c' : State W) : Type 0 where
  pub ends : Ends n c (record c' { ip = c.ip })
  pub goes : Goes c op c'.ip

module _ {W : Type 0} where
  Frame-at : {n : ℕ} {c c' : State W} → Frame n c c' → Frame n c (record c' { ip = c.ip })
  Frame-at f = record {
    config = f.config;
    code = f.code;
    bitmap = f.bitmap;
    ip = refl;
    spent = f.spent;
  }

  Flow-end : {n : ℕ} {c c' : State W} (op : OpCode) → passed op ≡ 0 → Ends n c c' → Flow op n c c'
  Flow-end {c = c} op e (Ends.halted s f) = record {
    ends = Ends.halted s (Frame-at f);
    goes = subst (Goes c op) (sym f.ip) (Goes.stays e);
  }
  Flow-end {c = c} op e (Ends.spends f) = record {
    ends = Ends.spends (Frame-at f);
    goes = subst (Goes c op) (sym f.ip) (Goes.stays e);
  }

  -- What does not move the position stays.
  pub Flow-stays :
      {n : ℕ} {c : State W} {r : Option (State W)} (op : OpCode)
      → passed op ≡ 0
      → Yields (Ends n c) r
      → Yields (Flow op n c) r
  Flow-stays op e = Yields-map λ c' f. Flow-end op e f

  jump_to-Flow :
      {c c' : State W} (op : OpCode) (dest : ℕ)
      → passed op ≡ 0
      → Frame 0 c c'
      → Yields (Flow op 0 c) (jump_to dest c')
  unfolding jump_to valid_jumpdest exit
  jump_to-Flow {c = c} {c' = c'} op dest e f =
      elim (Bool-cases (leb (2 ^ 62) dest || leb (length c'.code) dest)) [
        | inl far ↦ rw far (Flow-stays op e (exited VmError.invalid_jump f))
        | inr near ↦ rw near (go (is_set c'.bitmap dest) refl (ground arith))
      ]
    where
      go :
          (r : Option Bool)
          → is_set c'.bitmap dest ≡ r
          → dest < length c'.code
          → Yields (Flow op 0 c) (
              r >>= λ valid. some (
                if valid
                then record c' { ip = (dest + u64_mod - 1) % u64_mod }
                else exit VmError.invalid_jump c'))
      go none p l = Yields.panics
      go (some false) p l = Flow-stays op e (exited VmError.invalid_jump f)
      go (some true) p l = Yields.yields (record {
        ends = Ends.spends (Frame-at f);
        goes =
            Goes.jumps dest (subst (λ xs. dest < length xs) f.code l)
              (ap (λ b. is_set b dest) (sym f.bitmap) ∙ p);
      })

  module _ (c : State W) where
    pub jump-Flow : Yields (Flow OpCode.jump 0 c) (jump c)
    unfolding jump
    jump-Flow = popping-Yields _ _ (Frame-refl c) λ a s t. jump_to-Flow OpCode.jump a refl t

    pub jumpi-Flow : Yields (Flow OpCode.jumpi 0 c) (jumpi c)
    unfolding jumpi
    jumpi-Flow = popping-Yields _ _ (Frame-refl c) λ a s t. popping-Yields _ _ t λ b s' t'.
        Yields-if (b == 0) (Flow-stays OpCode.jumpi refl (kept t'))
          (jump_to-Flow OpCode.jumpi a refl t')

    pub push_op-Flow : (n : ℕ) → Yields (Flow (OpCode.push n) 0 c) (push_op n c)
    unfolding push_op push
    push_op-Flow n =
        Yields.yields
          (record { ends = Ends.spends (Frame-stack _ (Frame-refl c)); goes = Goes.passes n refl })

    pub dup-Frame : (n : ℕ) → Yields (Ends 0 c) (dup n c)
    unfolding dup
    dup-Frame n =
        Yields-if _ (exited _ (Frame-refl c))
          (Yields-any (get_elem? c.stack (n - 1)) λ v. pushed v (Frame-refl c) (omega arith))

    pub swap-Frame : (n : ℕ) → Yields (Ends 0 c) (swap n c)
    unfolding swap
    swap-Frame n = Yields-if _ (exited _ (Frame-refl c)) (
        Yields-any (get_elem? c.stack 0) λ a.
          Yields-any (get_elem? c.stack n)
            λ b. Yields.yields (Ends.spends (Frame-stack _ (Frame-refl c))))

    pub stop_op-Frame : (n : ℕ) → Yields (Ends n c) (stop_op c)
    unfolding stop_op
    stop_op-Frame n = Yields.yields (Ends-halt (Frame-refl c))

    Frame-ret :
        {n : ℕ} {c' : State W} (bytes : List ℕ)
        → Frame n c c'
        → Frame n c (record c' { ret = bytes })
    Frame-ret bytes f = record {
      config = f.config;
      code = f.code;
      bitmap = f.bitmap;
      ip = f.ip;
      spent = f.spent;
    }

    pub return_op-Frame : (n : ℕ) → Yields (Ends n c) (return_op c)
    unfolding return_op
    return_op-Frame n = popping-Yields _ _ (Frame-refl c) λ a s t.
        popping-Yields _ _ t λ b s' t'.
          getting-Frame _ _ _ t' λ bytes u v. Yields.yields (Ends-halt (Frame-ret bytes v))

    pub revert_op-Frame : (n : ℕ) → Yields (Ends n c) (revert_op c)
    unfolding revert_op
    revert_op-Frame n = popping-Yields _ _ (Frame-refl c) λ a s t.
        popping-Yields _ _ t
          λ b s' t'. getting-Frame _ _ _ t' λ bytes u v. exited _ (Frame-ret bytes v)

    pop_hashes-Yields :
        {A : Type 0} (P : A → Type 0) {m : ℕ} (n : ℕ) {c' : State W}
        (k : List Hash → State W → Option A)
        → Frame m c c'
        → ((ts : List Hash) (s : State W) → Frame m c s → Yields P (k ts s))
        → Yields P (pop_hashes n c' k)
    unfolding pop_hashes
    pop_hashes-Yields P zero k f h = h [] _ f
    pop_hashes-Yields P (suc n) k f h =
        popping-Yields _ _ f λ a s t. pop_hashes-Yields P n _ t λ ts s' t'. h (a ∷ ts) s' t'

    module _ (h : Host W) where
      log_topics-Frame : (n : ℕ) → Yields (Ends 0 c) (log_topics h n c)
      unfolding log_topics
      log_topics-Frame n = popping-Yields _ _ (Frame-refl c) λ a s t.
          popping-Yields _ _ t λ b s' t'. pop_hashes-Yields _ n _ t' λ ts s'' t''.
            getting-Frame _ _ _ t'' λ bytes u v.
              paying-Frame _ _ (Frame-world _ v) λ u' v'. paying-Frame _ _ v' λ u'' v''. kept v''

      pub log-Frame : (n : ℕ) → Yields (Ends 0 c) (log h n c)
      unfolding log
      log-Frame n = Yields-if c.msg.static (exited VmError.write_protection (Frame-refl c)) (
          Yields-if (ltb (length c.stack) (2 + n)) (exited VmError.stack_underflow (Frame-refl c))
            (log_topics-Frame n))

      pub selfdestruct-Frame : (n : ℕ) → Yields (Ends n c) (selfdestruct h c)
      unfolding selfdestruct
      selfdestruct-Frame n = Yields-if _ (exited _ (Frame-refl c)) (
          popping-Yields _ _ (Frame-refl c)
            λ a s t. paying-Frame _ _ t λ s' t'. Yields.yields (Ends-halt (Frame-world _ t')))
