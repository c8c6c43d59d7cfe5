-- ===== src/Evm/Words.antt =====
-- state/runtime/evm/instructions.go: the arithmetic of the instructions, on `big.Int` values as the
-- source computes with them. A word of the stack is a natural number below 2 ^ 256; `to256` reads it
-- as a signed number and `to_u256` cuts a result back to a word.
pub mod Mod
pub mod Exp
pub mod Signed
use Prim.Native.Nat.{bit_and, bit_or, bit_xor}
use nxchain.Base.{
  ℕ, zero, suc, ◌+◌, ◌-◌, ◌*◌, ◌/◌, ◌%◌, ◌^◌, Bool, true, false, List, [], ◌∷◌, ◌++◌, ltb, leb,
  ◌==◌, if◌then◌else◌, same, not, ◌&&◌,
}
use nxchain.Base.Int.{ℤ, pos, negsuc, ltb_ℤ}
use nxchain.Types.{u64_mod}

-- 2 ** 256
abbrev pub tt256 : ℕ
tt256 = 2 ^ 256

-- `x.And(x, tt256m1)` of a number that is negative or too long.
unfoldable pub to_u256 : ℤ → ℕ
to_u256 (pos n) = n % tt256
to_u256 (negsuc n) = tt256 - 1 - n % tt256

unfoldable pub to256 : ℕ → ℤ
to256 x = if leb (2 ^ 255) x then negsuc (tt256 - x - 1) else pos x

unfoldable pub abs : ℤ → ℕ
abs (pos n) = n
abs (negsuc n) = suc n

unfoldable pub neg : ℕ → ℤ
neg zero = pos 0
neg (suc n) = negsuc n

unfoldable pub is_negative : ℤ → Bool
is_negative (pos n) = false
is_negative (negsuc n) = true

unfoldable pub op_add : ℕ → ℕ → ℕ
op_add a b = (a + b) % tt256

unfoldable pub op_mul : ℕ → ℕ → ℕ
op_mul a b = a * b % tt256

unfoldable pub op_sub : ℕ → ℕ → ℕ
unfolding to_u256
op_sub a b = to_u256 (if leb b a then pos (a - b) else negsuc (b - a - 1))

unfoldable pub op_div : ℕ → ℕ → ℕ
op_div a b = if b == 0 then 0 else a / b % tt256

-- `Sign` is 0, 1 or -1, so that zero differs in sign from the numbers on both sides.
unfoldable pub op_sdiv : ℕ → ℕ → ℕ
unfolding to_u256 to256 abs neg is_negative
op_sdiv x y =
    let a = to256 x in
    let b = to256 y in
    let quotient = abs a / abs b in
    let differ = not (same (is_negative a) (is_negative b)) in
    if abs b == 0
    then 0
    else to_u256
        (if abs a == 0 then neg quotient else if differ then neg quotient else pos quotient)

unfoldable pub op_mod : ℕ → ℕ → ℕ
op_mod a b = if b == 0 then 0 else a % b % tt256

unfoldable pub op_smod : ℕ → ℕ → ℕ
unfolding to_u256 to256 abs neg is_negative
op_smod x y =
    let a = to256 x in
    let b = to256 y in
    let rest = abs a % abs b in
    if abs b == 0 then 0 else to_u256 (if is_negative a then neg rest else pos rest)

unfoldable pub op_addmod : ℕ → ℕ → ℕ → ℕ
op_addmod a b z = if z == 0 then 0 else (a + b) % z % tt256

unfoldable pub op_mulmod : ℕ → ℕ → ℕ → ℕ
op_mulmod a b z = if z == 0 then 0 else a * b % z % tt256

-- The words of `Bits`, the lowest first; a number of up to `n` words.
unfoldable pub word_bits : ℕ → ℕ → List ℕ
word_bits zero y = []
word_bits (suc n) y = if y == 0 then [] else y % u64_mod ∷ word_bits n (y / u64_mod)

-- The inner loop of `opExp`, over the bits of one word, on `z` and `x`.
unfoldable pub exp_word : ℕ → ℕ → ℕ × ℕ → ℕ × ℕ
exp_word zero d (z, x) = (z, x)
exp_word (suc n) d (z, x) =
    exp_word n (d / 2) ((if d % 2 == 1 then z * x % tt256 else z), x * x % tt256)

unfoldable pub exp_words : List ℕ → ℕ × ℕ → ℕ × ℕ
exp_words [] zx = zx
exp_words (d ∷ ds) zx = exp_words ds (exp_word 64 d zx)

unfoldable pub op_exp : ℕ → ℕ → ℕ
unfolding exp_words exp_word word_bits
op_exp x y = (exp_words (word_bits 4 y) (1, x)).0

-- The bytes of a number, `(y.BitLen() + 7) / 8`, for a number of up to `n` bytes.
unfoldable pub byte_len : ℕ → ℕ → ℕ
byte_len zero y = 0
byte_len (suc n) y = if y == 0 then 0 else suc (byte_len n (y / 256))

-- `Int64` keeps the low 64 bits, and the shift distance is an `int64` made unsigned.
unfoldable pub op_byte : ℕ → ℕ → ℕ
op_byte x y =
    let index = x % u64_mod in
    let shift = (31 + u64_mod - index) % u64_mod * 8 % u64_mod in
    if ltb 31 index && ltb index (2 ^ 63)
    then 0
    else if leb 256 shift
    then 0
    else y / 2 ^ shift % 256

unfoldable pub op_not : ℕ → ℕ
unfolding to_u256
op_not a = to_u256 (negsuc a)

unfoldable pub of_bool : Bool → ℕ
of_bool true = 1
of_bool false = 0

unfoldable pub op_iszero : ℕ → ℕ
unfolding of_bool
op_iszero a = of_bool (a == 0)

unfoldable pub op_eq : ℕ → ℕ → ℕ
unfolding of_bool
op_eq a b = of_bool (a == b)

unfoldable pub op_lt : ℕ → ℕ → ℕ
unfolding of_bool
op_lt a b = of_bool (ltb a b)

unfoldable pub op_gt : ℕ → ℕ → ℕ
unfolding of_bool
op_gt a b = of_bool (ltb b a)

unfoldable pub op_slt : ℕ → ℕ → ℕ
unfolding of_bool to256
op_slt a b = of_bool (ltb_ℤ (to256 a) (to256 b))

unfoldable pub op_sgt : ℕ → ℕ → ℕ
unfolding of_bool to256
op_sgt a b = of_bool (ltb_ℤ (to256 b) (to256 a))

-- A mask of ones up to the sign bit. With the sign bit set, the bits from it on become ones: the word
-- is `x.Or(x, mask.Not(mask))`, cut back to 256 bits.
unfoldable pub op_sign_extend : ℕ → ℕ → ℕ
op_sign_extend ext x =
    let bit = ext * 8 + 7 in
    if ltb 32 ext
    then x
    else if leb 256 bit
    then x
    else if x / 2 ^ bit % 2 == 1
    then x % 2 ^ bit + (tt256 - 2 ^ bit)
    else x % 2 ^ bit

unfoldable pub op_shl : ℕ → ℕ → ℕ
op_shl shift value = if leb 256 shift then 0 else value * 2 ^ shift % tt256

unfoldable pub op_shr : ℕ → ℕ → ℕ
op_shr shift value = if leb 256 shift then 0 else value / 2 ^ shift

-- `Rsh` of a negative number rounds down.
unfoldable pub shift_right : ℤ → ℕ → ℤ
shift_right (pos n) k = pos (n / 2 ^ k)
shift_right (negsuc n) k = negsuc (n / 2 ^ k)

unfoldable pub op_sar : ℕ → ℕ → ℕ
unfolding to256 to_u256 is_negative shift_right
op_sar shift value =
    let v = to256 value in
    if leb 256 shift
    then (if is_negative v then tt256 - 1 else 0)
    else to_u256 (shift_right v shift)

-- `SetBytes`, and the bytes that a word fills a slot of 32 with.
unfoldable pub of_bytes : ℕ → List ℕ → ℕ
of_bytes acc [] = acc
of_bytes acc (b ∷ bs) = of_bytes (acc * 256 + b) bs

unfoldable pub to_bytes : ℕ → ℕ → List ℕ
to_bytes zero a = []
to_bytes (suc n) a = to_bytes n (a / 256) ++ a % 256 ∷ []
