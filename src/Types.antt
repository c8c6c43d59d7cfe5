-- ===== src/Types.antt =====
-- types/transaction.go: a transaction and what is read off it. Addresses and hashes are numbers,
-- the byte strings read in base 256, so that the zero address is 0.
use nxchain.Base.{ℕ, ◌*◌, ◌^◌, Bool, true, false, Option, none, some, List, ltb}
use nxchain.Base.Int.{ℤ, pos, ◌+ℤ◌}

abbrev pub Address : Type 0
Address = ℕ

abbrev pub Hash : Type 0
Hash = ℕ

abbrev pub zero_address : Address
zero_address = 0

-- The values of a `uint64` are the numbers below this.
abbrev pub u64_mod : ℕ
u64_mod = 2 ^ 64

-- `gas_price` is a `big.Int` that decoding never makes negative; `value` may be negative. `size` is
-- the cached length of the RLP encoding, and the signature's V, R and S are read only by a signer.
pub record Transaction : Type 0 where
  pub nonce : ℕ
  pub gas_price : ℕ
  pub gas : ℕ
  pub to : Option Address
  pub value : ℤ
  pub input : List ℕ
  pub v : ℕ
  pub r : ℕ
  pub s : ℕ
  pub hash : Hash
  pub from : Address
  pub size : ℕ

unfoldable pub is_contract_creation : Transaction → Bool
is_contract_creation t = elim t.to [ none ↦ true | some a ↦ false ]

-- Cost returns gas * gasPrice + value.
unfoldable pub cost : Transaction → ℤ
cost t = pos (t.gas_price * t.gas) +ℤ t.value

unfoldable pub exceeds_block_gas_limit : Transaction → ℕ → Bool
exceeds_block_gas_limit t limit = ltb limit t.gas

unfoldable pub is_underpriced : Transaction → ℕ → Bool
is_underpriced t limit = ltb t.gas_price limit
