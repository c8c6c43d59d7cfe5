-- ===== src/Evm/Gas/Creations.antt =====
-- Creations, as frames.
use nxchain.Base.{ℕ, ◌&&◌, not, Bool, true, false, Option, List, arith, ltb, ◌==◌, if◌then◌else◌}
use nxchain.State.Runtime.{VmError, CallType, Host, reverted, new_contract, new_contract_creation}
use nxchain.Evm.{State, reset_return_data}
use nxchain.Evm.Instructions.Calls.{
  Hashes, Built, refund, build_created, build_create_contract, take_created, finish_create,
  create_op,
}
use nxchain.Evm.Gas.{
  Frame, Frame-refl, Frame-weaken, Ends, Yields, Yields-bind, Yields-if, popping-Yields, exited,
  paying-Yields, getting-Yields,
}
use nxchain.Evm.Gas.Data.{Frame-world}
use nxchain.Evm.Gas.Calls.{
  ReturnsGas, BuildsTo, Frame-return_gas, Frame-data, reset-Frame, push-Frame, popping_value-Yields,
}

module _ {W : Type 0} (x : Hashes) (h : Host W) (c : State W) where
  created-BuildsTo :
      {c' : State W} (second : Bool) (value len : ℕ) (salt : Option ℕ) (input : List ℕ)
      → Frame 0 c c'
      → Yields (BuildsTo 0 c) (build_created x h second value len salt input c')
  unfolding build_created new_contract_creation new_contract
  created-BuildsTo true value len salt input f =
      paying-Yields (BuildsTo 0 c) Built.stopped (λ s t. BuildsTo.to_stopped t) _ _ f
        λ s t.
          paying-Yields (BuildsTo 0 c) Built.stopped (λ s t. BuildsTo.to_stopped t) _ _ t
            λ s' t'. Yields.yields (BuildsTo.to_built (Frame-weaken (omega arith) t'))
  created-BuildsTo false value len salt input f =
      paying-Yields (BuildsTo 0 c) Built.stopped (λ s t. BuildsTo.to_stopped t) _ _ f
        λ s' t'. Yields.yields (BuildsTo.to_built (Frame-weaken (omega arith) t'))

  build_create-BuildsTo :
      (second : Bool)
      → Yields (BuildsTo 0 c) (build_create_contract x h second (reset_return_data c))
  unfolding build_create_contract
  build_create-BuildsTo second = popping-Yields _ _ (reset-Frame c) λ value s1 f1.
      popping-Yields _ _ f1 λ a s2 f2. popping-Yields _ _ f2 λ len s3 f3.
        popping_value-Yields _ second _ f3 λ salt s4 e f4.
          getting-Yields _ _ (λ s t. BuildsTo.to_stopped t) _ _ _ f4
            λ input s5 f5.
              paying-Yields _ _ (λ s t. BuildsTo.to_stopped t) _ _ f5
                λ s6 f6.
                  Yields-if (not (value == 0) && ltb (h.get_balance s6.msg.address s6.world) value)
                    (Yields.yields (BuildsTo.to_uncovered f6))
                    (created-BuildsTo second value len salt input f6)

  module _ (returns : ReturnsGas h) where
    finish_create-Ends :
        (second : Bool) (b : Built W)
        → BuildsTo 0 c b
        → Yields (Ends 0 c) (finish_create x h second b)
    unfolding finish_create refund take_created
    finish_create-Ends second _ (BuildsTo.to_stopped f) = Yields.yields (f 0)
    finish_create-Ends second _ (BuildsTo.to_refused f) =
        Yields.yields (Ends.spends (Frame-return_gas _ (omega arith) (push-Frame 0 f)))
    finish_create-Ends second _ (BuildsTo.to_uncovered f) =
        Yields.yields (Ends.spends (push-Frame 0 f))
    finish_create-Ends second _ (BuildsTo.to_built {k} {offset} {size} {c'} f) =
        let r = h.callx (record k { type = CallType.create }) c'.world in
        let back =
          Frame-return_gas {n = 0} r.0.gas_left
            (omega (arith, returns (record k { type = CallType.create }) c'.world))
            (push-Frame _ (Frame-world r.1 f)) in
        Yields.yields (
          Ends-if (reverted r.0) (Ends.spends (Frame-data r.0.return_value back))
            (Ends.spends back))
      where
        Ends-if :
            {c1 c2 : State W} (b : Bool)
            → Ends 0 c c1
            → Ends 0 c c2
            → Ends 0 c (if b then c1 else c2)
        Ends-if true p q = p
        Ends-if false p q = q

    pub create_op-Ends : (second : Bool) → Yields (Ends 0 c) (create_op x h second c)
    unfolding create_op
    create_op-Ends second =
        Yields-if c.msg.static (exited VmError.write_protection (Frame-refl c)) (
          Yields-if (second && not c.config.constantinople)
            (exited VmError.op_code_not_found (Frame-refl c))
            (Yields-bind {k = finish_create x h second} (build_create-BuildsTo second)
              (finish_create-Ends second)))
