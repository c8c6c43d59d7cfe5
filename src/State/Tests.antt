-- ===== src/State/Tests.antt =====
-- The cost of small payloads, and the law of the cost on one.
use nxchain.Base.{◌+◌, ◌≡◌, refl, arith, true, false, none, some, [], ◌∷◌, ltb, if◌then◌else◌}
use nxchain.Types.{Transaction, u64_mod, is_contract_creation}
use nxchain.Txpool.Queue.Order.{zero_transaction}
use nxchain.State.IntrinsicGas.{transaction_gas_cost, base_cost}
use nxchain.State.IntrinsicGas.Laws.{payload_cost, transaction_gas_cost-eq}

abbrev call : Transaction
call = record zero_transaction { to = some 9; input = 0 ∷ 1 ∷ 0 ∷ 255 ∷ [] }

abbrev creation : Transaction
creation = record zero_transaction { input = 0 ∷ 96 ∷ [] }

run-transaction_gas_cost : transaction_gas_cost call true true ≡ some 21040
unfolding transaction_gas_cost is_contract_creation
run-transaction_gas_cost = refl

-- Before the Istanbul fork a byte costs 68.
run-creation : transaction_gas_cost creation true false ≡ some 53072
unfolding transaction_gas_cost is_contract_creation
run-creation = refl

transaction_gas_cost-eq_example : transaction_gas_cost call true true ≡ (
    let total = base_cost call true + payload_cost true call.input in
    if ltb total u64_mod then some total else none)
transaction_gas_cost-eq_example = transaction_gas_cost-eq call true true (omega arith)
