-- ===== src/State/Runtime/Refund.antt =====
-- state/runtime/runtime.go: the refund at the end of a transaction.
use nxchain.Base.{ℕ, ◌+◌, ◌-◌, ◌/◌, ◌≤◌, ◌<◌, ◌≡◌, min, arith}
use nxchain.Types.{u64_mod}
use nxchain.State.Runtime.{ExecutionResult, update_gas_used}

-- Of a run that left no more than its 64-bit gas limit: the gas left grows by the refund, but by no more
-- than half of the gas that the run used, and gas left and gas used add up to the limit again.
pub update_gas_used-refund :
    (gas_limit refund : ℕ) (r : ExecutionResult)
    → r.gas_left ≤ gas_limit
    → gas_limit < u64_mod
    → ((update_gas_used gas_limit refund r).gas_left
        ≡ r.gas_left + min refund ((gas_limit - r.gas_left) / 2))
      × ((update_gas_used gas_limit refund r).gas_left
            + (update_gas_used gas_limit refund r).gas_used
          ≡ gas_limit)
unfolding update_gas_used
update_gas_used-refund gas_limit refund r le lt = (ground arith, ground arith)
