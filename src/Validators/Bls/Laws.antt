-- ===== src/Validators/Bls/Laws.antt =====
-- A BLS validator is read back from its bytes.
use nxchain.Base.{
  ℕ, zero, suc, ◌+◌, ◌*◌, ◌/◌, ◌%◌, ◌^◌, ◌<◌, ◌≡◌, refl, some, List, [], ◌∷◌, ◌++◌, arith, length,
  length-append,
}
use nxchain.Types.{Address}
use nxchain.Validators.{Validator, ecdsa, bls}
use nxchain.Validators.Bls.{
  FastRlp, bytes_of, bytes_value, marshal_rlp_with, read_elems, unmarshal_rlp_from, bytes,
  unmarshal_rlp, set_from_bytes,
}

-- What fastrlp's getters promise of the values that it makes.
pub record ReadsValues {V : Type 0} (rlp : FastRlp V) : Type 0 where
  pub elems : (vs : List V) → rlp.get_elems (rlp.new_array vs) ≡ some vs
  pub addr : (b : List ℕ) → length b ≡ 20 → rlp.get_addr (rlp.new_bytes b) ≡ some b
  pub content : (b : List ℕ) → rlp.get_bytes (rlp.new_bytes b) ≡ some b

-- fastrlp parses the array of an address and a key as it was, from what it writes of it.
abbrev pub ParsesWritten : {V : Type 0} → FastRlp V → Validator → Type 0
ParsesWritten rlp (ecdsa a) = Unit
ParsesWritten rlp (bls a k) =
    rlp.parse (rlp.marshal (marshal_rlp_with rlp a k)) ≡ some (marshal_rlp_with rlp a k)

bytes_value-append :
    (acc : ℕ) (xs : List ℕ) (b : ℕ) → bytes_value acc (xs ++ b ∷ []) ≡ bytes_value acc xs * 256 + b
unfolding bytes_value
bytes_value-append acc [] b = refl
bytes_value-append acc (x ∷ xs) b = bytes_value-append (acc * 256 + x) xs b

pub bytes_value-bytes_of : (n a : ℕ) → a < 256 ^ n → bytes_value 0 (bytes_of n a) ≡ a
unfolding bytes_value bytes_of
bytes_value-bytes_of zero a h = omega arith
bytes_value-bytes_of (suc n) a h =
    let small : a / 256 < 256 ^ n = omega arith in
    rw
      (
        bytes_value-append 0 (bytes_of n (a / 256)) (a % 256),
        bytes_value-bytes_of n (a / 256) small,
      )
      (omega arith)

length-bytes_of : (n a : ℕ) → length (bytes_of n a) ≡ n
unfolding bytes_of
length-bytes_of zero a = refl
length-bytes_of (suc n) a =
    omega (arith, length-append (bytes_of n (a / 256)) (a % 256 ∷ []), length-bytes_of n (a / 256))

module _ {V : Type 0} (rlp : FastRlp V) (reads : ReadsValues rlp) where
  read_elems-written :
      (a : Address) (k : List ℕ)
      → a < 2 ^ 160
      → read_elems rlp (rlp.new_bytes (bytes_of 20 a) ∷ rlp.new_bytes k ∷ []) ≡ some (a, k)
  unfolding read_elems
  read_elems-written a k small =
      let own = bytes_value-bytes_of 20 a small in
      rw (reads.addr (bytes_of 20 a) (length-bytes_of 20 a), reads.content k, own) refl

  pub set_from_bytes-bytes :
      (a : Address) (k : List ℕ)
      → ParsesWritten rlp (bls a k)
      → a < 2 ^ 160
      → set_from_bytes rlp (bytes rlp a k) ≡ some (a, k)
  unfolding set_from_bytes bytes unmarshal_rlp unmarshal_rlp_from
  set_from_bytes-bytes a k written small =
      rw (written, marshal_rlp_with, reads.elems, read_elems-written a k small) refl
