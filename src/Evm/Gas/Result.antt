-- ===== src/Evm/Gas/Result.antt =====
-- state/runtime/evm/evm.go: the run of a contract ends, and accounts for its gas.
use nxchain.Base.{
  false, ◌⊎◌, inl, inr, Bool-cases, ℕ, suc, ◌≤◌, ◌<◌, ◌+◌, true, Option, none, some, List, ◌≡◌,
  refl, arith,
}
use nxchain.Types.{u64_mod}
use nxchain.Chain.{ForksInTime}
use nxchain.State.Runtime.{Contract, ExecutionResult, Host}
use nxchain.Evm.Bitmap.{set_code}
use nxchain.Evm.{State}
use nxchain.Evm.Instructions.Calls.{Hashes}
use nxchain.Evm.Run.{Outcome, is_failure, result_of, initial_state, evm_result, evm_from, evm_run}
use nxchain.Evm.Gas.Calls.{ReturnsGas}
use nxchain.Evm.Gas.Round.{Halts, Stopped, run-Halts}

-- The gas of the result is the gas that was given, and an error other than a revert leaves none.
abbrev pub AccountsFor : {W : Type 0} → ℕ → ExecutionResult × W → Type 0
AccountsFor gas (r, w) =
    (r.gas_left + r.gas_used ≡ gas) × ((is_failure r.err ≡ false) ⊎ (r.gas_left ≡ 0))

module _ {W : Type 0} where
  result_of-AccountsFor :
      (gas : ℕ) (c : State W)
      → c.gas ≤ gas
      → gas < u64_mod
      → AccountsFor gas (result_of gas c, c.world)
  unfolding result_of
  result_of-AccountsFor gas c le lt = (
    ground arith,
    elim (Bool-cases (is_failure c.err)) [
      | inl failed ↦ rw failed (inr refl)
      | inr fine ↦ inl fine
    ],
  )

  evm_result-Halts :
      (gas : ℕ) (r : Outcome (State W))
      → gas < u64_mod
      → Halts (Stopped gas) r
      → Halts (AccountsFor gas) (evm_result gas r)
  unfolding evm_result
  evm_result-Halts gas _ lt Halts.by_panic = Halts.by_panic
  evm_result-Halts gas _ lt (Halts.by_stop {a = c} p) =
      Halts.by_stop (result_of-AccountsFor gas c p.1 lt)

module _ {W : Type 0} (x : Hashes) (h : Host W) (returns : ReturnsGas h) where
  evm_from-Halts :
      (k : Contract) (config : ForksInTime) (w : W) (bits : Option (List ℕ))
      → k.gas < u64_mod
      → config.eip150 ≡ true
      → Halts (AccountsFor k.gas) (evm_from x h k config w bits)
  unfolding evm_from initial_state
  evm_from-Halts k config w none lt on = Halts.by_panic
  evm_from-Halts k config w (some bits) lt on = evm_result-Halts k.gas _ lt (
      run-Halts x h returns (suc k.gas) k.gas (initial_state k config bits w) (omega arith)
        (omega arith) on)

  -- With EIP150 and callees that return at most the gas they were given, the run of any contract ends on
  -- fuel of one more than its gas: in a panic, or with a result whose gas left and gas used add up to the
  -- gas given, and which has no gas left after an error other than a revert.
  pub evm_run-Halts :
      (k : Contract) (config : ForksInTime) (w : W)
      → k.gas < u64_mod
      → config.eip150 ≡ true
      → Halts (AccountsFor k.gas) (evm_run x h k config w)
  unfolding evm_run
  evm_run-Halts k config w lt on = evm_from-Halts k config w (set_code k.code) lt on
