-- ===== src/Evm/Words/Mod.antt =====
-- Products and powers of numbers modulo another.
use native.Mathlib.Nat.{
  div-add-mod, add-mul, add-mul-mod_self_left, pow-suc, pow-zero, mul_assoc, mul_comm, mul-zero,
  mul-one, mul-suc, add-zero, add-suc,
}
use nxchain.Base.{ℕ, zero, suc, ◌+◌, ◌*◌, ◌/◌, ◌%◌, ◌^◌, ◌≡◌, arith, ap, ◌∙◌, sym}

pub mul-mod : (m a b : ℕ) → a % m * b % m ≡ a * b % m
mul-mod m a b =
    let split : a * b ≡ a % m * b + m * (a / m * b) =
      ap (λ t. t * b) (sym (div-add-mod a m))
      ∙ add-mul (m * (a / m)) (a % m) b
      ∙ omega (arith, mul_assoc m (a / m) b) in
    sym (ap (λ t. t % m) split ∙ add-mul-mod_self_left (a % m * b) m (a / m * b))

pub mul-mod_right : (m a b : ℕ) → a * (b % m) % m ≡ a * b % m
mul-mod_right m a b =
    ap (λ t. t % m) (mul_comm a (b % m)) ∙ mul-mod m b a ∙ ap (λ t. t % m) (mul_comm b a)

pub pow-mod : (m a n : ℕ) → (a % m) ^ n % m ≡ a ^ n % m
pow-mod m a zero = ap (λ t. t % m) (pow-zero (a % m) ∙ sym (pow-zero a))
pow-mod m a (suc n) =
    ap (λ t. t % m) (pow-suc (a % m) n)
    ∙ mul-mod_right m ((a % m) ^ n) a
    ∙ sym (mul-mod m ((a % m) ^ n) a)
    ∙ ap (λ t. t * a % m) (pow-mod m a n)
    ∙ mul-mod m (a ^ n) a
    ∙ ap (λ t. t % m) (sym (pow-suc a n))

pow_two_more : (a n : ℕ) → a ^ (2 * suc n) ≡ a ^ (2 * n) * (a * a)
pow_two_more a n =
    let two_more : 2 * suc n ≡ suc (suc (2 * n)) = omega arith in
    ap (λ k. a ^ k) two_more
    ∙ pow-suc a (suc (2 * n))
    ∙ ap (λ t. t * a) (pow-suc a (2 * n))
    ∙ mul_assoc (a ^ (2 * n)) a a

pub square-pow : (a n : ℕ) → (a * a) ^ n ≡ a ^ (2 * n)
square-pow a zero = pow-zero (a * a) ∙ sym (pow-zero a)
square-pow a (suc n) =
    pow-suc (a * a) n ∙ ap (λ t. t * (a * a)) (square-pow a n) ∙ sym (pow_two_more a n)

pub pow-add : (a n k : ℕ) → a ^ (n + k) ≡ a ^ n * a ^ k
pow-add a n zero =
    ap (λ t. a ^ t) (add-zero n) ∙ sym (ap (◌*◌ (a ^ n)) (pow-zero a) ∙ mul-one (a ^ n))
pow-add a n (suc k) =
    ap (λ t. a ^ t) (add-suc n k)
    ∙ pow-suc a (n + k)
    ∙ ap (λ t. t * a) (pow-add a n k)
    ∙ mul_assoc (a ^ n) (a ^ k) a
    ∙ ap (◌*◌ (a ^ n)) (sym (pow-suc a k))

pub pow-mul : (a n k : ℕ) → (a ^ n) ^ k ≡ a ^ (n * k)
pow-mul a n zero = pow-zero (a ^ n) ∙ sym (ap (λ t. a ^ t) (mul-zero n) ∙ pow-zero a)
pow-mul a n (suc k) =
    pow-suc (a ^ n) k
    ∙ ap (λ t. t * a ^ n) (pow-mul a n k)
    ∙ sym (ap (λ t. a ^ t) (mul-suc n k) ∙ pow-add a (n * k) n)
