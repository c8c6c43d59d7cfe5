-- ===== src/Evm/Gas/Position.antt =====
-- state/runtime/evm/state.go: a run never reads the data of a push as an instruction.
use nxchain.Base.{
  ℕ, zero, suc, ◌+◌, ◌%◌, ◌^◌, ◌≤◌, ◌<◌, Bool, true, false, Option, none, some, List, [], ◌∷◌, ◌≡◌,
  refl, arith, ◌==◌, length, get_elem?, All, ap, ◌∙◌, sym, ◌⊎◌, inl, inr, ==_iff,
}
use mathlib.Core.Path.{subst}
use nxchain.Types.{u64_mod}
use nxchain.Chain.{ForksInTime}
use nxchain.State.Runtime.{Contract, Host}
use nxchain.Evm.Bitmap.{is_set, set_code}
use nxchain.Evm.Bitmap.Bits.{IsByte, holds_up_to, holds_up_to_lem, All-get_elem?}
use nxchain.Evm.Bitmap.Marks.{StartsAt, StartsAt-next, data_size}
use nxchain.Evm.Bitmap.Loop.{is_set-set_code}
use nxchain.Evm.OpCode.{OpCode, op_code, entry}
use nxchain.Evm.{State, current_op_code}
use nxchain.Evm.Instructions.Calls.{Hashes}
use nxchain.Evm.Run.{round, initial_state}
use nxchain.Evm.Gas.{Yields-some}
use nxchain.Evm.Gas.Flow.{Goes, passed}
use nxchain.Evm.Gas.Calls.{ReturnsGas}
use nxchain.Evm.Gas.Round.{Moves, Rounds, round-Rounds}

abbrev agrees : Option OpCode → ℕ → Bool
agrees none size = true
agrees (some op) size = passed op == size

decode_table : holds_up_to (λ b. agrees (op_code b) (data_size b)) 256 ≡ true
unfolding holds_up_to op_code entry data_size
decode_table = refl

decode_lem : (b : ℕ) (op : OpCode) → b < 256 → op_code b ≡ some op → passed op ≡ data_size b
decode_lem b op lt e = (==_iff (passed op) (data_size b)).0 (
    ap (λ r. agrees r (data_size b)) (sym e)
    ∙ holds_up_to_lem (λ b'. agrees (op_code b') (data_size b')) 256 decode_table b lt)

data_size_bound : (b : ℕ) → data_size b ≤ 32
unfolding data_size
data_size_bound b = ground arith

get_elem?_lt : (xs : List ℕ) (i b : ℕ) → get_elem? xs i ≡ some b → i < length xs
get_elem?_lt [] i b e = cc
get_elem?_lt (x ∷ xs) zero b e = omega arith
get_elem?_lt (x ∷ xs) (suc i) b e = omega (arith, get_elem?_lt xs i b e)

-- The states that the loop comes to.
pub data Reaches {W : Type 0} (x : Hashes) (h : Host W) (start : State W) : State W → Type 0 where
  starts : Reaches x h start start
  goes_on :
      {c c' : State W}
      → Reaches x h start c
      → c.stop ≡ false
      → round x h c ≡ some c'
      → Reaches x h start c'

module _ {W : Type 0} (x : Hashes) (h : Host W) (returns : ReturnsGas h) (code bitmap : List ℕ)
    (made : set_code code ≡ some bitmap) (bytes : All IsByte code)
    (short : length code < 2 ^ 62) where
  record OnCourse (c : State W) : Type 0 where
    on : c.config.eip150 ≡ true
    code_same : c.code ≡ code
    bitmap_same : c.bitmap ≡ bitmap
    at : (c.stop ≡ true) ⊎ StartsAt code c.ip

  lands :
      (c : State W) (op : OpCode) (byte left j : ℕ)
      → Goes c op left
      → j ≡ (left + 1) % u64_mod
      → c.code ≡ code
      → c.bitmap ≡ bitmap
      → c.ip < length code
      → passed op ≡ data_size byte
      → StartsAt code (c.ip + data_size byte + 1)
      → StartsAt code j
  lands c op byte _ j (Goes.stays none_passed) e d b within size next =
      subst (StartsAt code) (omega (arith, short, data_size_bound byte)) next
  lands c op byte _ j (Goes.jumps dest l mark) e d b within size next =
      let inside : dest < length code = subst (λ xs. dest < length xs) d l in
      let marked : is_set bitmap dest ≡ some true = ap (λ bits. is_set bits dest) (sym b) ∙ mark in
      subst (StartsAt code) (omega (arith, short))
        ((is_set-set_code code bitmap dest made inside).0 marked).0
  lands c op byte _ j (Goes.passes n is) e d b within size next =
      let passes_n : passed op ≡ n = ap passed is in
      subst (StartsAt code) (omega (arith, short, data_size_bound byte)) next

  -- The position that a round leaves is that of an instruction.
  moved :
      (c : State W) (j : ℕ)
      → c.code ≡ code
      → c.bitmap ≡ bitmap
      → StartsAt code c.ip
      → Moves c j
      → StartsAt code j
  unfolding current_op_code
  moved c j same_code same_bits s m =
      let reads : get_elem? code c.ip ≡ some m.byte =
        ap (λ xs. get_elem? xs c.ip) (sym same_code) ∙ m.reads in
      let size : passed m.op ≡ data_size m.byte =
        decode_lem m.byte m.op (All-get_elem? code c.ip m.byte bytes reads) m.decodes in
      lands c m.op m.byte m.left j m.goes m.next same_code same_bits
        (get_elem?_lt code c.ip m.byte reads) size (StartsAt-next code c.ip m.byte s reads)

  Rounds-OnCourse : (c c' : State W) → c.stop ≡ false → OnCourse c → Rounds c c' → OnCourse c'
  Rounds-OnCourse c c' go o r = record {
    on = ap (λ (k : ForksInTime). k.eip150) r.config ∙ o.on;
    code_same = r.code ∙ o.code_same;
    bitmap_same = r.bitmap ∙ o.bitmap_same;
    at = elim o.at [
      | inl s ↦ cc
      | inr s ↦ elim r.ends [
        | inl stopped ↦ inl stopped
        | inr m ↦ inr (moved c c'.ip o.code_same o.bitmap_same s m.1)
      ]
    ];
  }

  Reaches-OnCourse : (start c : State W) → OnCourse start → Reaches x h start c → OnCourse c
  Reaches-OnCourse start _ o Reaches.starts = o
  Reaches-OnCourse start c' o (Reaches.goes_on {c} r go e) =
      let before = Reaches-OnCourse start c o r in
      Rounds-OnCourse c c' go before (Yields-some e (round-Rounds x h returns c before.on))

module _ {W : Type 0} (x : Hashes) (h : Host W) (returns : ReturnsGas h) where
  -- With EIP150, callees that return at most the gas they were given, and a code of bytes that is shorter
  -- than 2 ^ 62: wherever the run of a contract comes to without having stopped, an instruction of the code
  -- starts, so that no data of a push is run, whatever the jumps.
  pub position-StartsAt :
      (k : Contract) (config : ForksInTime) (bitmap : List ℕ) (w : W) (c : State W)
      → config.eip150 ≡ true
      → All IsByte k.code
      → length k.code < 2 ^ 62
      → set_code k.code ≡ some bitmap
      → Reaches x h (initial_state k config bitmap w) c
      → c.stop ≡ false
      → StartsAt k.code c.ip
  unfolding initial_state
  position-StartsAt k config bitmap w c on bytes short made r go =
      let o =
        Reaches-OnCourse x h returns k.code bitmap made bytes short
          (initial_state k config bitmap w) c
          (record { on = on; code_same = refl; bitmap_same = refl; at = inr StartsAt.here }) r in
      elim o.at [ inl s ↦ cc | inr s ↦ s ]
