-- ===== src/Evm/Bitmap/Bits.antt =====
-- One bit of a byte set and read, from a table over the bytes, and the same in a buffer.
use Prim.Native.Nat.{bit_and, bit_or}
use nxchain.Base.{
  ℕ, zero, suc, ◌*◌, ◌/◌, ◌%◌, ◌^◌, ◌<◌, Bool, true, false, some, List, [], ◌∷◌, ◌==◌,
  if◌then◌else◌, length, get_elem?, set, not, ◌&&◌, ◌||◌, same, ◌≡◌, refl, arith, All, ap, ◌∙◌, sym,
  inl, inr, Bool-cases, length-set, ==_iff,
}
use mathlib.Core.Option.{some_inj}
use nxchain.Evm.Bitmap.{is_set, set_bit}

-- A test of every number up to a bound, by running it.
unfoldable pub holds_up_to : (ℕ → Bool) → ℕ → Bool
holds_up_to test zero = true
holds_up_to test (suc bound) = holds_up_to test bound && test bound

both : (a b : Bool) → (a && b) ≡ true → (a ≡ true) × (b ≡ true)
both true b e = (refl, e)
both false b e = cc

pub holds_up_to_lem :
    (test : ℕ → Bool) (bound : ℕ)
    → holds_up_to test bound ≡ true
    → (k : ℕ) → k < bound
    → test k ≡ true
unfolding holds_up_to
holds_up_to_lem test zero passed k below = absurd (omega arith)
holds_up_to_lem test (suc bound) passed k below =
    let (front, last) = both (holds_up_to test bound) (test bound) passed in
    elim (Bool-cases (k == bound)) [
      | inl at_end ↦ ap test ((==_iff k bound).0 at_end) ∙ last
      | inr before ↦ holds_up_to_lem test bound front k (ground arith)
    ]

abbrev bit_test : ℕ → ℕ → Bool
bit_test b j = not (bit_and b (2 ^ j) == 0)

abbrev bit_with : ℕ → ℕ → ℕ
bit_with b k = bit_or b (2 ^ k) % 256

abbrev row : ℕ → ℕ → ℕ → Bool
row b k j = same (bit_test (bit_with b k) j) (bit_test b j || k == j)

bit_table : holds_up_to (λ b. holds_up_to (λ k. holds_up_to (row b k) 8) 8) 256 ≡ true
unfolding holds_up_to
bit_table = refl

same_eq : (a b : Bool) → same a b ≡ true → a ≡ b
same_eq true b e = sym e
same_eq false true e = e
same_eq false false e = refl

bit_with_lem :
    (b k j : ℕ) → b < 256 → k < 8 → j < 8 → bit_test (bit_with b k) j ≡ (bit_test b j || k == j)
bit_with_lem b k j lb lk lj =
    let of_byte =
      holds_up_to_lem (λ b'. holds_up_to (λ k'. holds_up_to (row b' k') 8) 8) 256 bit_table b lb in
    let of_bit = holds_up_to_lem (λ k'. holds_up_to (row b k') 8) 8 of_byte k lk in
    same_eq _ _ (holds_up_to_lem (row b k) 8 of_bit j lj)

module _ {ℓ} {A : Type ℓ} where
  get_elem?-set :
      (xs : List A) (i j : ℕ) (v : A)
      → i < length xs
      → get_elem? (set xs i v) j ≡ (if i == j then some v else get_elem? xs j)
  get_elem?-set [] i j v lt = absurd (omega arith)
  get_elem?-set (x ∷ xs) zero zero v lt = refl
  get_elem?-set (x ∷ xs) zero (suc j) v lt = ground arith
  get_elem?-set (x ∷ xs) (suc i) zero v lt = ground arith
  get_elem?-set (x ∷ xs) (suc i) (suc j) v lt = ground (arith, get_elem?-set xs i j v)

  pub get_elem?_within : (xs : List A) (i : ℕ) → i < length xs → (a : A) × (get_elem? xs i ≡ some a)
  get_elem?_within [] i lt = absurd (omega arith)
  get_elem?_within (x ∷ xs) zero lt = (x, refl)
  get_elem?_within (x ∷ xs) (suc i) lt = get_elem?_within xs i (omega arith)

abbrev pub IsByte : ℕ → Type 0
IsByte b = b < 256

All-set : (xs : List ℕ) (i v : ℕ) → All IsByte xs → v < 256 → All IsByte (set xs i v)
All-set [] i v p lt = tt
All-set (x ∷ xs) zero v p lt = (lt, p.1)
All-set (x ∷ xs) (suc i) v p lt = (p.0, All-set xs i v p.1 lt)

pub All-get_elem? : (xs : List ℕ) (i b : ℕ) → All IsByte xs → get_elem? xs i ≡ some b → b < 256
All-get_elem? [] i b p e = cc
All-get_elem? (x ∷ xs) zero b p e = ground (arith, p.0)
All-get_elem? (x ∷ xs) (suc i) b p e = All-get_elem? xs i b p.1 e

-- What setting the bit `i` leaves.
pub record SetBit (buf : List ℕ) (i : ℕ) : Type 0 where
  pub out : List ℕ
  pub sets : set_bit buf i ≡ some out
  pub size : length out ≡ length buf
  pub bytes : All IsByte out
  pub reads : (j : ℕ) (b : Bool) → is_set buf j ≡ some b → is_set out j ≡ some (b || i == j)

is_set_of :
    (buf : List ℕ) (i b : ℕ)
    → get_elem? buf (i / 8) ≡ some b
    → is_set buf i ≡ some (bit_test b (i % 8))
unfolding is_set
is_set_of buf i b e = rw e refl

set_bit_of :
    (buf : List ℕ) (i b : ℕ)
    → get_elem? buf (i / 8) ≡ some b
    → set_bit buf i ≡ some (set buf (i / 8) (bit_with b (i % 8)))
unfolding set_bit
set_bit_of buf i b e = rw e refl

same_div : (i j : ℕ) → i / 8 ≡ j / 8 → (i % 8 == j % 8) ≡ (i == j)
same_div i j e = ground arith

is_set_congr :
    (xs ys : List ℕ) (j : ℕ)
    → get_elem? xs (j / 8) ≡ get_elem? ys (j / 8)
    → is_set xs j ≡ is_set ys j
unfolding is_set
is_set_congr xs ys j e = rw e refl

or_other : (i j : ℕ) (c : Bool) → (i == j) ≡ false → c ≡ (c || i == j)
or_other i j true e = refl
or_other i j false e = sym e

set_bit_reads :
    (buf : List ℕ) (i b : ℕ)
    → i < 8 * length buf
    → b < 256
    → get_elem? buf (i / 8) ≡ some b
    → (j : ℕ) (c : Bool) → is_set buf j ≡ some c
    → is_set (set buf (i / 8) (bit_with b (i % 8))) j ≡ some (c || i == j)
set_bit_reads buf i b lt lb e j c s = elim (Bool-cases (i / 8 == j / 8)) [
  | inl same ↦
      let eq = (==_iff (i / 8) (j / 8)).0 same in
      let there : get_elem? buf (j / 8) ≡ some b = ap (get_elem? buf) (sym eq) ∙ e in
      let held : bit_test b (j % 8) ≡ c = some_inj.0 (sym (is_set_of buf j b there) ∙ s) in
      let now : get_elem? (set buf (i / 8) (bit_with b (i % 8))) (j / 8)
          ≡ some (bit_with b (i % 8)) =
        get_elem?-set buf (i / 8) (j / 8) _ (omega arith) ∙ rw same refl in
      is_set_of _ j _ now
      ∙ ap some (
          bit_with_lem b (i % 8) (j % 8) lb (omega arith) (omega arith)
          ∙ rw (held, same_div i j eq) refl)
  | inr differ ↦
      let kept : get_elem? (set buf (i / 8) (bit_with b (i % 8))) (j / 8) ≡ get_elem? buf (j / 8) =
        get_elem?-set buf (i / 8) (j / 8) _ (omega arith) ∙ rw differ refl in
      is_set_congr _ buf j kept ∙ s ∙ ap some (or_other i j c (ground arith))
]

pub set_bit_lem : (buf : List ℕ) (i : ℕ) → All IsByte buf → i < 8 * length buf → SetBit buf i
set_bit_lem buf i p lt =
    let (b, e) = get_elem?_within buf (i / 8) (omega arith) in
    record {
      out = set buf (i / 8) (bit_with b (i % 8));
      sets = set_bit_of buf i b e;
      size = length-set buf (i / 8) _;
      bytes = All-set buf (i / 8) _ p (omega arith);
      reads = set_bit_reads buf i b lt (All-get_elem? buf (i / 8) b p e) e;
    }

zero_table : holds_up_to (λ j. not (bit_test 0 j)) 8 ≡ true
unfolding holds_up_to
zero_table = refl

not-true : (b : Bool) → not b ≡ true → b ≡ false
not-true true e = sym e
not-true false e = refl

pub is_set_zero :
    (buf : List ℕ) (i : ℕ) → get_elem? buf (i / 8) ≡ some 0 → is_set buf i ≡ some false
is_set_zero buf i e =
    is_set_of buf i 0 e
    ∙ ap some
        (not-true _ (holds_up_to_lem (λ j. not (bit_test 0 j)) 8 zero_table (i % 8) (omega arith)))
