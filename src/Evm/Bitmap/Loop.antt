-- ===== src/Evm/Bitmap/Loop.antt =====
-- The bitmap of a code: the loop of `setCode` never panics, and marks the valid jump destinations.
use nxchain.Base.{
  ℕ, zero, suc, ◌+◌, ◌-◌, ◌*◌, ◌/◌, ◌≤◌, ◌<◌, Bool, true, false, some, List, [], ◌∷◌, ◌==◌, leb,
  length, get_elem?, ◌&&◌, ◌||◌, ◌≡◌, ◌↔◌, refl, arith, All, ap, ◌∙◌, sym, inl, inr, Bool-cases,
}
use mathlib.Core.Path.{subst}
use mathlib.Core.Option.{some_inj}
use nxchain.Evm.Bitmap.{is_set, set_code, set_code_loop, is_push_op, push_size, zeros, bitmap_size}
use nxchain.Evm.Bitmap.Bits.{IsByte, set_bit_lem, is_set_zero}
use nxchain.Evm.Bitmap.Marks.{
  StartsAt, data_size, data_size_push, data_size_other, marks, marks-IsMark, IsMark-marks,
}

-- What the loop leaves.
record LoopEnd (code : List ℕ) (skip i : ℕ) (buf : List ℕ) : Type 0 where
  out : List ℕ
  ends : set_code_loop code skip i buf ≡ some out
  reads :
      (j : ℕ) (b : Bool)
      → is_set buf j ≡ some b
      → is_set out j ≡ some (b || (leb i j && marks code skip (j - i)))

-- The marks of a code are its first and those behind.
marks_split :
    (f g : ℕ → Bool) (i j : ℕ)
    → ((k : ℕ) → f (suc k) ≡ g k)
    → (leb i j && f (j - i)) ≡ ((i == j && f 0) || (leb (i + 1) j && g (j - (i + 1))))
marks_split f g i j e = elim (Bool-cases (leb (i + 1) j)) [
  | inl behind ↦
      let away : j - i ≡ suc (j - (i + 1)) = ground arith in
      ap (λ k. leb i j && f k) away ∙ rw (e (j - (i + 1))) (ground arith)
  | inr upto ↦ elim (Bool-cases (i == j)) [
    | inl at ↦
        let none_left : j - i ≡ 0 = ground arith in
        ap (λ k. leb i j && f k) none_left ∙ ground arith
    | inr before ↦ ground arith
  ]
]

push_no_mark : (c : ℕ) → is_push_op c ≡ true → (c == 0x5b) ≡ false
unfolding is_push_op
push_no_mark c push = ground arith

abbrev Room : List ℕ → ℕ → List ℕ → Type 0
Room code i buf = i + length code ≤ 8 * length buf

no_more : (b : Bool) (t : Bool) → b ≡ (b || (t && false))
no_more true t = refl
no_more false true = refl
no_more false false = refl

and_false : (t u : Bool) → ((t && false) || u) ≡ u
and_false true u = refl
and_false false u = refl

and_true : (b t u : Bool) → ((b || t) || u) ≡ (b || ((t && true) || u))
and_true true t u = refl
and_true false true u = refl
and_true false false u = refl

module _ (c : ℕ) (code : List ℕ) (i j : ℕ) where
  skip_split :
      (skip : ℕ)
      → (leb (i + 1) j && marks code skip (j - (i + 1)))
        ≡ (leb i j && marks (c ∷ code) (suc skip) (j - i))
  unfolding marks
  skip_split skip = sym (
      marks_split (marks (c ∷ code) (suc skip)) (marks code skip) i j (λ k. refl)
      ∙ and_false (i == j) _)

  first_split :
      (leb i j && marks (c ∷ code) 0 (j - i))
      ≡ ((i == j && c == 0x5b) || (leb (i + 1) j && marks code (data_size c) (j - (i + 1))))
  unfolding marks
  first_split = marks_split (marks (c ∷ code) 0) (marks code (data_size c)) i j λ k. refl

  push_split :
      is_push_op c ≡ true
      → (leb (i + 1) j && marks code (push_size c) (j - (i + 1)))
        ≡ (leb i j && marks (c ∷ code) 0 (j - i))
  push_split push =
      let no_mark : (c == 0x5b) ≡ false = push_no_mark c push in
      sym (first_split ∙ rw (data_size_push c push, no_mark) (and_false (i == j) _))

  other_split :
      is_push_op c ≡ false
      → (leb i j && marks (c ∷ code) 0 (j - i))
        ≡ ((i == j && c == 0x5b) || (leb (i + 1) j && marks code 0 (j - (i + 1))))
  other_split other = first_split ∙ rw (data_size_other c other) refl

loop_lem :
    (code : List ℕ) (skip i : ℕ) (buf : List ℕ)
    → All IsByte buf
    → Room code i buf
    → LoopEnd code skip i buf
unfolding set_code_loop marks
loop_lem [] skip i buf p r = record {
  out = buf;
  ends = refl;
  reads = λ j b s. s ∙ ap some (no_more b (leb i j));
}
loop_lem (c ∷ code) (suc skip) i buf p r =
    let rest = loop_lem code skip (i + 1) buf p (omega arith) in
    record {
      out = rest.out;
      ends = rest.ends;
      reads = λ j b s. rest.reads j b s ∙ ap (λ t. some (b || t)) (skip_split c code i j skip);
    }
loop_lem (c ∷ code) zero i buf p r = elim (Bool-cases (is_push_op c)) [
  | inl push ↦
      let rest = loop_lem code (push_size c) (i + 1) buf p (omega arith) in
      record {
        out = rest.out;
        ends = rw push rest.ends;
        reads = λ j b s. rest.reads j b s ∙ ap (λ t. some (b || t)) (push_split c code i j push);
      }
  | inr other ↦ elim (Bool-cases (c == 0x5b)) [
    | inl mark ↦
        let here = set_bit_lem buf i p (omega arith) in
        let rest = loop_lem code 0 (i + 1) here.out here.bytes (omega (arith, here.size)) in
        record {
          out = rest.out;
          ends = rw (other, mark, here.sets) rest.ends;
          reads = λ j b s.
              rest.reads j (b || i == j) (here.reads j b s)
              ∙ ap some (
                  and_true b (i == j) _
                  ∙ ap (λ t. b || t) (sym (other_split c code i j other ∙ rw mark refl)));
        }
    | inr plain ↦
        let rest = loop_lem code 0 (i + 1) buf p (omega arith) in
        record {
          out = rest.out;
          ends = rw (other, plain) rest.ends;
          reads = λ j b s.
              rest.reads j b s
              ∙ ap (λ t. some (b || t))
                  (sym (other_split c code i j other ∙ rw plain (and_false (i == j) _)));
        }
  ]
]

zeros-bytes : (n : ℕ) → All IsByte (zeros n)
unfolding zeros
zeros-bytes zero = tt
zeros-bytes (suc n) = (omega arith, zeros-bytes n)

pub length-zeros : (n : ℕ) → length (zeros n) ≡ n
unfolding zeros
length-zeros zero = refl
length-zeros (suc n) = ap suc (length-zeros n)

get_elem?-zeros : (n i : ℕ) → i < n → get_elem? (zeros n) i ≡ some 0
unfolding zeros
get_elem?-zeros zero i lt = absurd (omega arith)
get_elem?-zeros (suc n) zero lt = refl
get_elem?-zeros (suc n) (suc i) lt = get_elem?-zeros n i (omega arith)

is_set-zeros : (n j : ℕ) → j < 8 * n → is_set (zeros n) j ≡ some false
is_set-zeros n j lt = is_set_zero (zeros n) j (get_elem?-zeros n (j / 8) (omega arith))

from_zero : (code : List ℕ) (j : ℕ) → (leb 0 j && marks code 0 (j - 0)) ≡ marks code 0 j
from_zero code j =
    let all_left : j - 0 ≡ j = omega arith in
    ap (λ k. leb 0 j && marks code 0 k) all_left ∙ ground arith

-- The bitmap of any code is made, and tells for each place within the code whether it is a JUMPDEST at
-- which an instruction starts.
pub record IsBitmap (code bitmap : List ℕ) : Type 0 where
  pub reads : (j : ℕ) → j < length code → is_set bitmap j ≡ some (marks code 0 j)

pub set_code_lem :
    (code : List ℕ) → (bitmap : List ℕ) × (set_code code ≡ some bitmap) × IsBitmap code bitmap
unfolding set_code
set_code_lem code =
    let n = length code / bitmap_size + 1 in
    let l = loop_lem code 0 0 (zeros n) (zeros-bytes n) (omega (arith, length-zeros n)) in
    (
      l.out,
      l.ends,
      record {
        reads =
            λ j lt. l.reads j false (is_set-zeros n j (omega arith)) ∙ ap some (from_zero code j);
      },
    )

-- Of a place within the code, the bitmap is set exactly when an instruction starts there and it is a JUMPDEST.
pub is_set-set_code :
    (code bitmap : List ℕ) (j : ℕ)
    → set_code code ≡ some bitmap
    → j < length code
    → (is_set bitmap j ≡ some true) ↔ (StartsAt code j × (get_elem? code j ≡ some 0x5b))
is_set-set_code code bitmap j e lt =
    let (made, eq, reads) = set_code_lem code in
    let known : is_set bitmap j ≡ some (marks code 0 j) =
      ap (λ bits. is_set bits j) (some_inj.0 (sym e ∙ eq)) ∙ reads.reads j lt in
    (
      (λ set_bit.
          let m = marks-IsMark code 0 j (some_inj.0 (sym known ∙ set_bit)) in
          (subst (StartsAt code) (omega arith) m.starts, m.byte)),
      λ s. known ∙ ap some (IsMark-marks code 0 j j (omega arith) s.0 s.1),
    )
