-- ===== src/Evm/Bitmap.antt =====
-- state/runtime/evm/bitmap.go: the valid jump destinations of a code, one bit for each byte. A number
-- out of range panics, which is `none`.
pub mod Bits
pub mod Marks
pub mod Loop
use Prim.Native.Nat.{bit_and, bit_or}
use nxchain.Base.{
  ℕ, zero, suc, ◌+◌, ◌-◌, ◌*◌, ◌/◌, ◌%◌, ◌^◌, Bool, true, false, Option, none, some, List, [], ◌∷◌,
  ◌==◌, ltb, if◌then◌else◌, length, get_elem?, set, ◌>>=◌, not,
}

abbrev pub bitmap_size : ℕ
bitmap_size = 8

-- `b.buf[i/bitmapSize]&(1<<(i%bitmapSize)) != 0`, on bytes.
unfoldable pub is_set : List ℕ → ℕ → Option Bool
is_set buf i = do
  b ← get_elem? buf (i / bitmap_size)
  some (not (bit_and b (2 ^ (i % bitmap_size)) == 0))

unfoldable pub set_bit : List ℕ → ℕ → Option (List ℕ)
set_bit buf i = do
  b ← get_elem? buf (i / bitmap_size)
  some (set buf (i / bitmap_size) (bit_or b (2 ^ (i % bitmap_size)) % 256))

-- From PUSH1 to PUSH32.
unfoldable pub is_push_op : ℕ → Bool
is_push_op c = c / 32 == 3

-- `int(c) - 0x60 + 1`, the bytes that a push carries.
unfoldable pub push_size : ℕ → ℕ
push_size c = c - 0x60 + 1

unfoldable pub zeros : ℕ → List ℕ
zeros zero = []
zeros (suc n) = 0 ∷ zeros n

-- The loop of `setCode` from position `i`, over the code from there on. Each round passes a byte, so
-- the length of the code is fuel enough; `skip` is what is left of a push's data.
unfoldable pub set_code_loop : List ℕ → ℕ → ℕ → List ℕ → Option (List ℕ)
set_code_loop [] skip i buf = some buf
set_code_loop (c ∷ code) (suc skip) i buf = set_code_loop code skip (i + 1) buf
set_code_loop (c ∷ code) zero i buf =
    let past_push = set_code_loop code (push_size c) (i + 1) buf in
    let marked = set_bit buf i >>= set_code_loop code 0 (i + 1) in
    let plain = set_code_loop code 0 (i + 1) buf in
    if is_push_op c then past_push else if c == 0x5b then marked else plain

-- The bitmap of a code, in a buffer that `reset` has left empty.
unfoldable pub set_code : List ℕ → Option (List ℕ)
set_code code = set_code_loop code 0 0 (zeros (length code / bitmap_size + 1))
