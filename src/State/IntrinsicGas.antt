-- ===== src/State/IntrinsicGas.antt =====
-- `TransactionGasCost` of state/executor.go, on `uint64` arithmetic.
pub mod Laws
use nxchain.Base.{
  ℕ, ◌+◌, ◌-◌, ◌*◌, ◌/◌, ◌%◌, Bool, Option, none, some, List, [], ◌∷◌, ltb, ◌==◌, if◌then◌else◌,
  ◌&&◌, length,
}
use nxchain.Types.{Transaction, is_contract_creation, u64_mod}

abbrev pub tx_gas : ℕ
tx_gas = 21000

abbrev pub tx_gas_contract_creation : ℕ
tx_gas_contract_creation = 53000

abbrev pub max_uint64 : ℕ
max_uint64 = u64_mod - 1

-- The loop that counts the zero bytes of the payload.
pub count_zeros : ℕ → List ℕ → ℕ
count_zeros zeros [] = zeros
count_zeros zeros (b ∷ payload) =
    count_zeros (if b == 0 then (zeros + 1) % u64_mod else zeros) payload

abbrev pub base_cost : Transaction → Bool → ℕ
base_cost msg is_homestead =
    if is_contract_creation msg && is_homestead then tx_gas_contract_creation else tx_gas

abbrev pub non_zero_cost : Bool → ℕ
non_zero_cost is_istanbul = if is_istanbul then 16 else 68

-- What the payload adds, by its counts of zero and other bytes; `none` is ErrIntrinsicGasOverflow.
pub add_payload : ℕ → ℕ → ℕ → ℕ → Option ℕ
add_payload cost zeros non_zeros price =
    let with_bytes = (cost + non_zeros * price % u64_mod) % u64_mod in
    if ltb ((max_uint64 - cost) / price) non_zeros
    then none
    else if ltb ((max_uint64 - with_bytes) / 4) zeros
    then none
    else some ((with_bytes + zeros * 4 % u64_mod) % u64_mod)

unfoldable pub transaction_gas_cost : Transaction → Bool → Bool → Option ℕ
unfolding count_zeros add_payload is_contract_creation
transaction_gas_cost msg is_homestead is_istanbul =
    let zeros = count_zeros 0 msg.input in
    let non_zeros = (length msg.input + u64_mod - zeros) % u64_mod in
    let priced =
      add_payload (base_cost msg is_homestead) zeros non_zeros (non_zero_cost is_istanbul) in
    if ltb 0 (length msg.input) then priced else some (base_cost msg is_homestead)
