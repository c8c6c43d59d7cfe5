-- ===== src/Validators/Bls.antt =====
-- validators/bls.go: the RLP coding of a BLS validator, with types/rlp_marshal.go, types/rlp_unmarshal.go
-- and the bytes of an address (types/types.go). The package fastrlp is the record `FastRlp`: an arena is
-- not modelled, a value of it is made and read by functions. `none` is an error.
pub mod Laws
pub mod Strings
use nxchain.Base.{
  ℕ, zero, suc, ◌+◌, ◌*◌, ◌/◌, ◌%◌, ◌^◌, Option, none, some, List, [], ◌∷◌, ◌++◌, ◌>>=◌,
}
use nxchain.Types.{Address}

-- What the code calls of fastrlp, over its values.
pub record FastRlp (V : Type 0) : Type 0 where
  pub new_bytes : List ℕ → V
  -- `NewArray`, and `Set` for each entry.
  pub new_array : List V → V
  -- `MarshalTo` an empty slice.
  pub marshal : V → List ℕ
  pub parse : List ℕ → Option V
  pub get_elems : V → Option (List V)
  -- The 20 bytes that `GetAddr` copies.
  pub get_addr : V → Option (List ℕ)
  pub get_bytes : V → Option (List ℕ)

-- The last `n` bytes of a number, the highest first: `Address.Bytes` for 20.
unfoldable pub bytes_of : ℕ → ℕ → List ℕ
bytes_of zero a = []
bytes_of (suc n) a = bytes_of n (a / 256) ++ a % 256 ∷ []

-- The number of a big-endian byte string, after `acc`.
unfoldable pub bytes_value : ℕ → List ℕ → ℕ
bytes_value acc [] = acc
bytes_value acc (b ∷ bs) = bytes_value (acc * 256 + b) bs

-- The last 20 bytes, as `types.BytesToAddress` keeps them.
unfoldable pub bytes_to_address : List ℕ → Address
unfolding bytes_value
bytes_to_address bs = bytes_value 0 bs % 2 ^ 160

module _ {V : Type 0} (rlp : FastRlp V) where
  unfoldable pub marshal_rlp_with : Address → List ℕ → V
  unfolding bytes_of
  marshal_rlp_with a k = rlp.new_array (rlp.new_bytes (bytes_of 20 a) ∷ rlp.new_bytes k ∷ [])

  -- The entries from the third on are not read.
  unfoldable pub read_elems : List V → Option (Address × List ℕ)
  unfolding bytes_value
  read_elems (a ∷ k ∷ rest) =
      rlp.get_addr a >>= λ addr. rlp.get_bytes k >>= λ key. some (bytes_value 0 addr, key)
  read_elems _ = none

  unfoldable pub unmarshal_rlp_from : V → Option (Address × List ℕ)
  unfolding read_elems
  unmarshal_rlp_from v = rlp.get_elems v >>= read_elems

  -- `Bytes`, which is `types.MarshalRLPTo` of the value.
  unfoldable pub bytes : Address → List ℕ → List ℕ
  unfolding marshal_rlp_with
  bytes a k = rlp.marshal (marshal_rlp_with a k)

  unfoldable pub unmarshal_rlp : {A : Type 0} → (V → Option A) → List ℕ → Option A
  unmarshal_rlp obj input = rlp.parse input >>= obj

  unfoldable pub set_from_bytes : List ℕ → Option (Address × List ℕ)
  unfolding unmarshal_rlp unmarshal_rlp_from
  set_from_bytes input = unmarshal_rlp unmarshal_rlp_from input
