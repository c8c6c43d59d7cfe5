-- ===== src/Evm/Words/Exp.antt =====
-- state/runtime/evm/instructions.go: EXP squares and multiplies over the bits of the exponent's words.
use native.Mathlib.Nat.{
  pow-zero, pow-suc, mul-one, mul_assoc, mul_comm, mod-eq_of_lt, one-mul, two-pow-succ,
}
use mathlib.Core.Path.{subst}
use nxchain.Base.{
  ℕ, zero, suc, ◌+◌, ◌*◌, ◌/◌, ◌%◌, ◌^◌, ◌<◌, List, [], ◌∷◌, ◌==◌, if◌then◌else◌, ◌≡◌, refl, arith,
  ap, ◌∙◌, sym, All, ◌⊎◌, inl, inr, true, false, Bool-cases,
}
use nxchain.Types.{u64_mod}
use nxchain.Evm.Words.{tt256, word_bits, exp_word, exp_words, op_exp}
use nxchain.Evm.Words.Mod.{mul-mod, mul-mod_right, pow-mod, pow-add, pow-mul, square-pow}

abbrev times : ℕ → ℕ → ℕ → ℕ
times z x d = if d % 2 == 1 then z * x % tt256 else z

-- The exponent d is twice its half, and one more where it is odd.
times_lem : (z x d : ℕ) → times z x d * (x * x % tt256) ^ (d / 2) % tt256 ≡ z * x ^ d % tt256
times_lem z x d =
    sym (mul-mod_right tt256 (times z x d) ((x * x % tt256) ^ (d / 2)))
    ∙ ap (λ t. times z x d * t % tt256) (pow-mod tt256 (x * x) (d / 2))
    ∙ mul-mod_right tt256 (times z x d) ((x * x) ^ (d / 2))
    ∙ ap (λ t. times z x d * t % tt256) (square-pow x (d / 2))
    ∙ parity (Bool-cases (d % 2 == 1))
  where
    parity :
        ((d % 2 == 1) ≡ true) ⊎ ((d % 2 == 1) ≡ false)
        → times z x d * x ^ (2 * (d / 2)) % tt256 ≡ z * x ^ d % tt256
    parity (inl odd) =
        let next : d ≡ suc (2 * (d / 2)) = ground arith in
        rw odd (
          mul-mod tt256 (z * x) (x ^ (2 * (d / 2)))
          ∙ ap (λ t. t % tt256)
              (mul_assoc z x (x ^ (2 * (d / 2)))
                ∙ ap (◌*◌ z) (mul_comm x _ ∙ sym (pow-suc x (2 * (d / 2)))))
          ∙ ap (λ k. z * x ^ k % tt256) (sym next))
    parity (inr even) =
        let twice : 2 * (d / 2) ≡ d = ground arith in rw even (ap (λ k. z * x ^ k % tt256) twice)

pow_one : (x : ℕ) → x ^ (2 ^ 0) ≡ x
pow_one x = pow-suc x 0 ∙ ap (λ t. t * x) (pow-zero x) ∙ omega arith

doubled : (n : ℕ) → 2 * 2 ^ n ≡ 2 ^ suc n
doubled n = omega (arith, two-pow-succ n)

exp_word_lem :
    (n d z x : ℕ)
    → d < 2 ^ n
    → ((exp_word n d (z, x)).0 % tt256 ≡ z * x ^ d % tt256)
      × ((exp_word n d (z, x)).1 % tt256 ≡ x ^ (2 ^ n) % tt256)
unfolding exp_word
exp_word_lem zero d z x lt = (
  (let none_left : d ≡ 0 = omega arith in
      sym (
        ap (λ k. z * x ^ k % tt256) none_left
        ∙ ap (λ t. z * t % tt256) (pow-zero x)
        ∙ ap (λ t. t % tt256) (mul-one z))),
  ap (λ t. t % tt256) (sym (pow_one x)),
)
exp_word_lem (suc n) d z x lt =
    let half : d / 2 < 2 ^ n = omega (arith, two-pow-succ n) in
    let rest = exp_word_lem n (d / 2) (times z x d) (x * x % tt256) half in
    (
      rest.0 ∙ times_lem z x d,
      rest.1
          ∙ pow-mod tt256 (x * x) (2 ^ n)
          ∙ ap (λ t. t % tt256) (square-pow x (2 ^ n) ∙ ap (λ k. x ^ k) (doubled n)),
    )

-- The number that some words stand for.
abbrev value : List ℕ → ℕ
value [] = 0
value (w ∷ ws) = w + u64_mod * value ws

exp_words_lem :
    (ds : List ℕ) (z x : ℕ)
    → All (λ d. d < 2 ^ 64) ds
    → (exp_words ds (z, x)).0 % tt256 ≡ z * x ^ value ds % tt256
unfolding exp_words
exp_words_lem [] z x p =
    sym (ap (λ t. z * t % tt256) (pow-zero x) ∙ ap (λ t. t % tt256) (mul-one z))
exp_words_lem (d ∷ ds) z x p =
    let one = exp_word_lem 64 d z x p.0 in
    let zx = exp_word 64 d (z, x) in
    let v = value ds in
    exp_words_lem ds zx.0 zx.1 p.1
    ∙ sym (mul-mod tt256 zx.0 (zx.1 ^ v))
    ∙ ap (λ t. t * zx.1 ^ v % tt256) one.0
    ∙ mul-mod tt256 (z * x ^ d) (zx.1 ^ v)
    ∙ sym (mul-mod_right tt256 (z * x ^ d) (zx.1 ^ v))
    ∙ ap (λ t. z * x ^ d * t % tt256)
        (sym (pow-mod tt256 zx.1 v)
          ∙ ap (λ t. t ^ v % tt256) one.1
          ∙ pow-mod tt256 (x ^ (2 ^ 64)) v)
    ∙ mul-mod_right tt256 (z * x ^ d) ((x ^ (2 ^ 64)) ^ v)
    ∙ ap (λ t. t % tt256)
        (mul_assoc z (x ^ d) _
          ∙ ap (◌*◌ z) (ap (◌*◌ (x ^ d)) (pow-mul x (2 ^ 64) v) ∙ sym (pow-add x d (2 ^ 64 * v))))

-- What `n` words of 64 bits hold.
capacity : ℕ → ℕ
capacity zero = 1
capacity (suc n) = u64_mod * capacity n

record WordsOf (n y : ℕ) : Type 0 where
  small : All (λ d. d < 2 ^ 64) (word_bits n y)
  sum : value (word_bits n y) ≡ y

word_bits_lem : (n y : ℕ) → y < capacity n → WordsOf n y
unfolding word_bits capacity
word_bits_lem zero y lt = record { small = tt; sum = omega arith }
word_bits_lem (suc n) y lt = elim (Bool-cases (y == 0)) [
  | inl none_left ↦ record { small = rw none_left tt; sum = rw none_left (ground arith) }
  | inr more ↦
      let rest = word_bits_lem n (y / u64_mod) (omega arith) in
      record { small = rw more (omega arith, rest.small); sum = rw more (omega (arith, rest.sum)) }
]

exp_word_below : (n d z x : ℕ) → z < tt256 → (exp_word n d (z, x)).0 < tt256
unfolding exp_word
exp_word_below zero d z x lt = lt
exp_word_below (suc n) d z x lt =
    exp_word_below n (d / 2) (times z x d) (x * x % tt256) (ground arith)

exp_words_below : (ds : List ℕ) (z x : ℕ) → z < tt256 → (exp_words ds (z, x)).0 < tt256
unfolding exp_words
exp_words_below [] z x lt = lt
exp_words_below (d ∷ ds) z x lt =
    exp_words_below ds (exp_word 64 d (z, x)).0 (exp_word 64 d (z, x)).1
      (exp_word_below 64 d z x lt)

capacity_four : capacity 4 ≡ tt256
unfolding capacity
capacity_four = refl

-- On words, EXP is the power modulo 2 ^ 256.
pub op_exp-pow : (x y : ℕ) → y < tt256 → op_exp x y ≡ x ^ y % tt256
unfolding op_exp
op_exp-pow x y lt =
    let words = word_bits_lem 4 y (subst (λ m. y < m) (sym capacity_four) lt) in
    sym (mod-eq_of_lt (exp_words_below (word_bits 4 y) 1 x (omega arith)))
    ∙ exp_words_lem (word_bits 4 y) 1 x words.small
    ∙ ap (λ v. 1 * x ^ v % tt256) words.sum
    ∙ ap (λ t. t % tt256) (one-mul (x ^ y))
