-- ===== src/Evm/Bitmap/Marks.antt =====
-- The instructions of a code, one after the other: a push passes its data.
use nxchain.Base.{
  ℕ, zero, suc, ◌+◌, ◌-◌, ◌≤◌, Bool, true, false, some, List, [], ◌∷◌, ◌==◌, ltb, ◌||◌,
  if◌then◌else◌, get_elem?, drop, ◌≡◌, refl, arith, ap, ◌∙◌, sym, ==_iff,
}
use mathlib.Core.Path.{subst}
use mathlib.Core.Option.{some_inj}
use nxchain.Evm.Bitmap.{is_push_op, push_size}

-- The bytes that follow an instruction as its data: 1 to 32 for PUSH1 to PUSH32, and none for the others.
unfoldable pub data_size : ℕ → ℕ
data_size c = if ltb c 0x60 || ltb 0x7f c then 0 else c - 0x5f

pub data_size_push : (c : ℕ) → is_push_op c ≡ true → data_size c ≡ push_size c
unfolding data_size is_push_op push_size
data_size_push c e = ground arith

pub data_size_other : (c : ℕ) → is_push_op c ≡ false → data_size c ≡ 0
unfolding data_size is_push_op
data_size_other c e = ground arith

-- The places of a code at which an instruction starts, each after the one before and its data; the
-- last may lie behind the code.
pub data StartsAt : List ℕ → ℕ → Type 0 where
  here : {code : List ℕ} → StartsAt code 0
  there :
      {c : ℕ} {code : List ℕ} {i : ℕ}
      → StartsAt (drop (data_size c) code) i
      → StartsAt (c ∷ code) (data_size c + i + 1)

-- A JUMPDEST at the start of an instruction, with `skip` bytes of data before.
unfoldable pub marks : List ℕ → ℕ → ℕ → Bool
marks [] skip j = false
marks (c ∷ code) (suc skip) zero = false
marks (c ∷ code) (suc skip) (suc j) = marks code skip j
marks (c ∷ code) zero zero = c == 0x5b
marks (c ∷ code) zero (suc j) = marks code (data_size c) j

pub record IsMark (code : List ℕ) (skip j : ℕ) : Type 0 where
  pub after : skip ≤ j
  pub starts : StartsAt (drop skip code) (j - skip)
  pub byte : get_elem? code j ≡ some 0x5b

pub marks-IsMark : (code : List ℕ) (skip j : ℕ) → marks code skip j ≡ true → IsMark code skip j
unfolding marks
marks-IsMark [] skip j e = cc
marks-IsMark (c ∷ code) (suc skip) zero e = cc
marks-IsMark (c ∷ code) (suc skip) (suc j) e =
    let m = marks-IsMark code skip j e in
    record {
      after = omega (arith, m.after);
      starts = subst (StartsAt (drop skip code)) (omega arith) m.starts;
      byte = m.byte;
    }
marks-IsMark (c ∷ code) zero zero e = record {
  after = omega arith;
  starts = StartsAt.here;
  byte = ap some ((==_iff c 0x5b).0 e);
}
marks-IsMark (c ∷ code) zero (suc j) e =
    let m = marks-IsMark code (data_size c) j e in
    record {
      after = omega arith;
      starts = subst (StartsAt (c ∷ code)) (omega (arith, m.after)) (StartsAt.there m.starts);
      byte = m.byte;
    }

pub IsMark-marks :
    (code : List ℕ) (skip i j : ℕ)
    → j ≡ skip + i
    → StartsAt (drop skip code) i
    → get_elem? code j ≡ some 0x5b
    → marks code skip j ≡ true
unfolding marks
IsMark-marks [] skip i j q s e = cc
IsMark-marks (c ∷ code) (suc skip) i zero q s e = absurd (omega arith)
IsMark-marks (c ∷ code) (suc skip) i (suc j) q s e = IsMark-marks code skip i j (omega arith) s e
IsMark-marks (c ∷ code) zero i zero q s e = (==_iff c 0x5b).1 (some_inj.0 e)
IsMark-marks (c ∷ code) zero _ (suc j) q StartsAt.here e = absurd (omega arith)
IsMark-marks (c ∷ code) zero _ (suc j) q (StartsAt.there {i = i} s) e =
    IsMark-marks code (data_size c) i j (omega arith) s e

get_elem?-drop : (code : List ℕ) (n i : ℕ) → get_elem? (drop n code) i ≡ get_elem? code (n + i)
get_elem?-drop code zero i = ap (get_elem? code) (omega arith)
get_elem?-drop [] (suc n) i = refl
get_elem?-drop (c ∷ code) (suc n) i =
    get_elem?-drop code n i ∙ ap (get_elem? (c ∷ code)) (suc_add n i)
  where
    suc_add : (n i : ℕ) → suc (n + i) ≡ suc n + i
    suc_add n i = omega arith

-- The next instruction starts after the data.
pub StartsAt-next :
    (code : List ℕ) (i b : ℕ)
    → StartsAt code i
    → get_elem? code i ≡ some b
    → StartsAt code (i + data_size b + 1)
StartsAt-next [] _ b StartsAt.here e = cc
StartsAt-next (c ∷ code) _ b StartsAt.here e =
    let same_byte : c ≡ b = some_inj.0 e in
    subst (λ d. StartsAt (c ∷ code) (0 + data_size d + 1)) same_byte
      (subst (StartsAt (c ∷ code)) (omega arith)
        (StartsAt.there {c = c} {code = code} StartsAt.here))
StartsAt-next (c ∷ code) _ b (StartsAt.there {i = i} s) e =
    let back : data_size c + i + 1 ≡ suc (data_size c + i) = omega arith in
    let reads = get_elem?-drop code (data_size c) i ∙ ap (get_elem? (c ∷ code)) (sym back) ∙ e in
    subst (StartsAt (c ∷ code)) (omega arith)
      (StartsAt.there (StartsAt-next (drop (data_size c) code) i b s reads))
