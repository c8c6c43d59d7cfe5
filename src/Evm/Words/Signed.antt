-- ===== src/Evm/Words/Signed.antt =====
-- state/runtime/evm/instructions.go: the signed reading of words.
use native.Mathlib.Nat.{
  pow-le-pow_right, one-le-pow, two-pow-succ, mod-lt, mod-eq_of_lt, mul-add, mul_comm, mul_assoc,
  div-add-mod, div-eq_of_lt, div-le_self, add-mul-mod_self_left,
}
use mathlib.Core.Path.{subst}
use nxchain.Base.{
  ℕ, suc, ◌+◌, ◌-◌, ◌*◌, ◌/◌, ◌%◌, ◌^◌, ◌≤◌, ◌<◌, true, false, ltb, leb, ◌==◌, if◌then◌else◌, ◌≡◌,
  refl, arith, ap, ◌∙◌, sym, ◌⊎◌, inl, inr, Bool-cases,
}
use nxchain.Base.Int.{ℤ, pos, negsuc}
use nxchain.Evm.Words.{tt256, to256, to_u256, op_sar, op_sign_extend, is_negative, shift_right}

-- The number that the low `bits + 1` bits of a word stand for, the highest being the sign.
abbrev pub signed_low : ℕ → ℕ → ℤ
signed_low bit x =
    if ltb (x % 2 ^ suc bit) (2 ^ bit)
    then pos (x % 2 ^ suc bit)
    else negsuc (2 ^ suc bit - x % 2 ^ suc bit - 1)

module _ (x p : ℕ) (lt : 0 < p) where
  within : x % p < p
  within = mod-lt x lt

  whole : x ≡ (x / p % 2) * p + x % p + (p + p) * (x / p / 2)
  whole =
      let q = x / p in
      let halves : q ≡ q % 2 + 2 * (q / 2) = omega arith in
      let spread : p * q ≡ (q % 2) * p + (p + p) * (q / 2) =
        ap (◌*◌ p) halves
        ∙ mul-add p (q % 2) (2 * (q / 2))
        ∙ omega (arith, mul_comm p (q % 2), mul_assoc p 2 (q / 2), mul_comm p 2) in
      omega (arith, div-add-mod x p, spread)

  -- The remainder by twice a number, from its parts.
  sign_bit : x % (p + p) ≡ (x / p % 2) * p + x % p
  sign_bit =
      let small : (x / p % 2) * p + x % p < p + p = elim (Bool-cases (x / p % 2 == 0)) [
        | inl low ↦
            let z : x / p % 2 ≡ 0 = ground arith in
            subst (λ k. k * p + x % p < p + p) (sym z) (omega (arith, within))
        | inr high ↦
            let o : x / p % 2 ≡ 1 = ground arith in
            subst (λ k. k * p + x % p < p + p) (sym o) (omega (arith, within))
      ] in
      ap (λ k. k % (p + p)) whole
      ∙ add-mul-mod_self_left ((x / p % 2) * p + x % p) (p + p) (x / p / 2)
      ∙ mod-eq_of_lt small

  extended :
      (m : ℕ)
      → m ≡ (x / p % 2) * p + x % p
      → p ≤ 2 ^ 255
      → to256 (if x / p % 2 == 1 then x % p + (tt256 - p) else x % p)
        ≡ (if ltb m p then pos m else negsuc (p + p - m - 1))
  unfolding to256
  extended m e le = elim (Bool-cases (x / p % 2 == 1)) [
    | inl high ↦
        let o : x / p % 2 ≡ 1 = ground arith in
        let at : m ≡ p + x % p =
          subst (λ k. m ≡ k * p + x % p → m ≡ p + x % p) (sym o) (λ q. omega arith) e in
        ground (arith, within)
    | inr low ↦
        let z : x / p % 2 ≡ 0 = ground arith in
        let at : m ≡ x % p =
          subst (λ k. m ≡ k * p + x % p → m ≡ x % p) (sym z) (λ q. omega arith) e in
        ground (arith, within)
  ]

-- For an `ext` below 31, SIGNEXTEND makes the word whose signed reading is that of the low `ext + 1` bytes.
pub op_sign_extend-signed :
    (ext x : ℕ) → ext < 31 → to256 (op_sign_extend ext x) ≡ signed_low (ext * 8 + 7) x
unfolding op_sign_extend
op_sign_extend-signed ext x lt =
    let bit = ext * 8 + 7 in
    let p = 2 ^ bit in
    let positive : 0 < p = one-le-pow bit 2 (omega arith) in
    let bound : p ≤ 2 ^ 255 = pow-le-pow_right (omega arith) {j = 255} (omega arith) in
    let twice : 2 ^ suc bit ≡ p + p = two-pow-succ bit in
    let near : ltb 32 ext ≡ false = ground arith in
    let inside : leb 256 bit ≡ false = ground arith in
    rw (near, inside, twice) (extended x p positive (x % (p + p)) (sign_bit x p positive) bound)

-- A word stands for each signed number of up to 255 bits.
signed_word_pos : (k : ℕ) → k < 2 ^ 255 → to256 (to_u256 (pos k)) ≡ pos k
unfolding to256 to_u256
signed_word_pos k lt = let same : k % tt256 ≡ k = omega arith in rw same (ground arith)

signed_word_neg : (k : ℕ) → k < 2 ^ 255 → to256 (to_u256 (negsuc k)) ≡ negsuc k
unfolding to256 to_u256
signed_word_neg k lt = let same : k % tt256 ≡ k = omega arith in rw same (ground arith)

-- A shift by all the bits of a word or more leaves nothing.
all_out : (k shift : ℕ) → k < 2 ^ 255 → leb 256 shift ≡ true → k / 2 ^ shift ≡ 0
all_out k shift lt far =
    let much : 2 ^ 256 ≤ 2 ^ shift = pow-le-pow_right (omega arith) {i = 256} (ground arith) in
    div-eq_of_lt (omega (arith, much))

to256_cases :
    (x : ℕ)
    → x < tt256
    → ((k : ℕ) × (k < 2 ^ 255) × (to256 x ≡ pos k))
      ⊎ ((k : ℕ) × (k < 2 ^ 255) × (to256 x ≡ negsuc k))
unfolding to256
to256_cases x lt = elim (Bool-cases (leb (2 ^ 255) x)) [
  | inl high ↦ inr (tt256 - x - 1, ground arith, rw high refl)
  | inr low ↦ inl (x, ground arith, rw low refl)
]

module _ (shift k : ℕ) (lt : k < 2 ^ 255) where
  less : k / 2 ^ shift < 2 ^ 255
  less = omega (arith, lt, div-le_self k (2 ^ shift))

  shift_pos :
      to256 (
        if leb 256 shift
        then (if is_negative (pos k) then tt256 - 1 else 0)
        else to_u256 (shift_right (pos k) shift))
      ≡ shift_right (pos k) shift
  unfolding is_negative shift_right to256
  shift_pos = elim (Bool-cases (leb 256 shift)) [
    | inl far ↦ rw (far, all_out k shift lt far) refl
    | inr near ↦ rw near (signed_word_pos _ less)
  ]

  shift_neg :
      to256 (
        if leb 256 shift
        then (if is_negative (negsuc k) then tt256 - 1 else 0)
        else to_u256 (shift_right (negsuc k) shift))
      ≡ shift_right (negsuc k) shift
  unfolding is_negative shift_right to256
  shift_neg = elim (Bool-cases (leb 256 shift)) [
    | inl far ↦ rw (far, all_out k shift lt far) refl
    | inr near ↦ rw near (signed_word_neg _ less)
  ]

-- SAR makes the word whose signed reading is that of the operand, divided by 2 ^ shift and rounded down.
pub op_sar-signed :
    (shift value : ℕ) → value < tt256 → to256 (op_sar shift value) ≡ shift_right (to256 value) shift
unfolding op_sar
op_sar-signed shift value w = go (to256 value) (to256_cases value w)
  where
    go :
        (z : ℤ)
        → ((k : ℕ) × (k < 2 ^ 255) × (z ≡ pos k)) ⊎ ((k : ℕ) × (k < 2 ^ 255) × (z ≡ negsuc k))
        → to256 (
            if leb 256 shift
            then (if is_negative z then tt256 - 1 else 0)
            else to_u256 (shift_right z shift))
          ≡ shift_right z shift
    go z (inl (k, lt, e)) = rw e (shift_pos shift k lt)
    go z (inr (k, lt, e)) = rw e (shift_neg shift k lt)
