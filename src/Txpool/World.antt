-- ===== src/Txpool/World.antt =====
-- What the pool calls and does not implement: the interfaces `store` and `signer` of
-- txpool/txpool.go, the hash of a transaction's encoding, and the forks in force.
use nxchain.Base.{ℕ, Bool, Option, List}
use nxchain.Base.Int.{ℤ}
use nxchain.Types.{Transaction, Address, Hash}

pub record World : Type 0 where
  -- The header of the latest block.
  pub state_root : Hash
  pub gas_limit : ℕ
  pub get_nonce : Hash → Address → ℕ
  -- `none` is an error.
  pub get_balance : Hash → Address → Option ℤ
  -- The transactions of the block with a hash, if the store has it.
  pub get_block_by_hash : Hash → Option (List Transaction)
  -- The address that signed a transaction; `none` is an error.
  pub sender : Transaction → Option Address
  pub compute_hash : Transaction → Hash
  pub homestead : Bool
  pub istanbul : Bool
