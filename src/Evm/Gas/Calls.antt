-- ===== src/Evm/Gas/Calls.antt =====
-- Calls and creations, as frames: what is handed to the callee and comes back was paid for.
use nxchain.Base.{
  ℕ, ◌≤◌, ◌<◌, ◌+◌, ◌-◌, ◌^◌, ◌%◌, ◌||◌, ◌&&◌, not, Bool, true, false, Option, none, some, List, [],
  ◌≡◌, refl, arith, ◌==◌, if◌then◌else◌, length, ap, ◌∙◌,
}
use nxchain.Types.{Address, u64_mod}
use nxchain.State.Runtime.{
  VmError, CallType, Contract, ExecutionResult, Host, succeeded, reverted, new_contract,
  new_contract_call,
}
use nxchain.Evm.{State, push, exit, reset_return_data, slice}
use nxchain.Chain.{ForksInTime}
use nxchain.Evm.Words.{of_bool}
use nxchain.Evm.Instructions.Values.{address_of}
use nxchain.Evm.Instructions.Calls.{
  Built, takes_value, is_positive, callee_gas, callee, popping_value, return_gas, refund,
  copy_result, call_cost, build_callee, build_call_contract, take_result, finish_call, call_op,
  call_allowed, writes_value,
}
use nxchain.Evm.Gas.{
  Frame, Frame-refl, Frame-weaken, Frame-stack, Ends, Ends-exit, Yields, Yields-bind, Yields-if,
  Yields-any, popping-Yields, exited, paying-Yields, allocating-Yields, getting-Yields,
}
use nxchain.Evm.Gas.Data.{Frame-world}

-- A callee returns at most the gas it was given.
abbrev pub ReturnsGas : {W : Type 0} → Host W → Type 0
ReturnsGas {W} h = (k : Contract) (w : W) → (h.callx k w).0.gas_left ≤ k.gas

-- What a build leaves: with a contract, its gas and `n` more are spent.
pub data BuildsTo {W : Type 0} (n : ℕ) (c : State W) : Built W → Type 0 where
  to_stopped : {c' : State W} → ((m : ℕ) → Ends m c c') → BuildsTo n c (Built.stopped c')
  to_refused :
      {k : Contract} {c' : State W}
      → Frame (k.gas + n) c c'
      → BuildsTo n c (Built.refused (some k) c')
  to_uncovered : {c' : State W} → Frame n c c' → BuildsTo n c (Built.refused none c')
  to_built :
      {k : Contract} {offset size : ℕ} {c' : State W}
      → Frame (k.gas + n) c c'
      → BuildsTo n c (Built.built k offset size c')

pub gas_callee : (kind : CallType) (parent k : Contract) → (callee kind parent k).gas ≡ k.gas
unfolding callee
gas_callee CallType.call parent k = refl
gas_callee CallType.call_code parent k = refl
gas_callee CallType.delegate_call parent k = refl
gas_callee CallType.static_call parent k = refl
gas_callee CallType.create parent k = refl
gas_callee CallType.create2 parent k = refl

module _ {W : Type 0} where
  -- Gas that was spent comes back.
  pub Frame-return_gas :
      {n m : ℕ} {c c' : State W} (g : ℕ) → g + n ≤ m → Frame m c c' → Frame n c (return_gas g c')
  unfolding return_gas
  Frame-return_gas g le f = record {
    config = f.config;
    code = f.code;
    bitmap = f.bitmap;
    ip = f.ip;
    spent = omega (arith, f.spent);
  }

  Frame-results :
      {n : ℕ} {c c' : State W} (m d : List ℕ)
      → Frame n c c'
      → Frame n c (record c' { memory = m; return_data = d })
  Frame-results m d f = record {
    config = f.config;
    code = f.code;
    bitmap = f.bitmap;
    ip = f.ip;
    spent = f.spent;
  }

  pub Frame-data :
      {n : ℕ} {c c' : State W} (d : List ℕ)
      → Frame n c c'
      → Frame n c (record c' { return_data = d })
  Frame-data {c' = c'} d = Frame-results c'.memory d

  pub reset-Frame : (c : State W) → Frame 0 c (reset_return_data c)
  unfolding reset_return_data
  reset-Frame c = Frame-data [] (Frame-refl c)

  pub push-Frame : {n : ℕ} {c c' : State W} (v : ℕ) → Frame n c c' → Frame n c (push v c')
  unfolding push
  push-Frame v f = Frame-stack _ f

  copy_result-Frame :
      {n : ℕ} {c c' : State W} (offset size : ℕ) (bytes : List ℕ)
      → Frame n c c'
      → Yields (Frame n c) (copy_result offset size bytes c')
  unfolding copy_result
  copy_result-Frame {c' = c'} offset size bytes f =
      Yields-any (slice offset (offset + size) c'.memory)
        λ place. Yields.yields (Frame-results _ c'.return_data f)

  take_result-Ends :
      {n m : ℕ} {c c' : State W} (offset size : ℕ) (r : ExecutionResult)
      → r.gas_left + n ≤ m
      → Frame m c c'
      → Yields (Ends n c) (take_result offset size r c')
  unfolding take_result
  take_result-Ends offset size r le f =
      let v = of_bool (succeeded r) in
      Yields-bind
        {k = λ s. some (record (return_gas r.gas_left s) { return_data = r.return_value })}
        (Yields-if ((succeeded r || reverted r) && not (length r.return_value == 0))
          (copy_result-Frame offset size r.return_value (push-Frame v f))
          (Yields.yields (push-Frame v f)))
        λ s g.
          Yields.yields (Ends.spends (Frame-data r.return_value (Frame-return_gas r.gas_left le g)))

  pub popping_value-Yields :
      {A : Type 0} (P : A → Type 0) {n : ℕ} {c c' : State W} (takes : Bool)
      (k : Option ℕ → State W → Option A)
      → Frame n c c'
      → ((v : Option ℕ) (s : State W) → (takes ≡ false → v ≡ none) → Frame n c s → Yields P (k v s))
      → Yields P (popping_value takes c' k)
  unfolding popping_value
  popping_value-Yields P true k f h = popping-Yields P _ f λ a s t. h (some a) s (λ e. cc) t
  popping_value-Yields P false k f h = h none _ (λ e. refl) f

-- With the rules of EIP150 the callee is offered at most 63 parts of 64.
callee_gas_bound :
    (eip150 : Bool) (initial gas cost g : ℕ)
    → eip150 ≡ true
    → callee_gas eip150 initial gas cost ≡ some g
    → g ≤ 2 ^ 64 - 2 ^ 58
unfolding callee_gas
callee_gas_bound eip150 initial gas cost g on e = ground arith

module _ {W : Type 0} (h : Host W) where
  -- The cost covers the stipend.
  call_cost_bounds :
      (kind : CallType) (transfers : Bool) (addr : Address) (c : State W)
      → c.config.eip150 ≡ true
      → ((if transfers then 2300 else 0) < call_cost h kind transfers addr c)
        × (call_cost h kind transfers addr c < 2 ^ 20)
  unfolding call_cost
  call_cost_bounds kind transfers addr c e = ground arith

  stipend_gas :
      (kind : CallType) (parent : Contract) (value : Option ℕ) (addr : Address) (gas : ℕ)
      (args : List ℕ) (s : State W)
      → (callee kind parent (
          new_contract_call
            (s.msg.depth + 1)
            s.msg.origin
            s.msg.address
            addr
            value
            (if is_positive value then (gas + 2300) % u64_mod else gas)
            (h.get_code addr s.world)
            args)).gas
        ≤ gas + (if is_positive value then 2300 else 0)
  unfolding new_contract_call new_contract
  stipend_gas kind parent value addr gas args s = rw (gas_callee kind parent) (ground arith)

  BuildsTo-if :
      {c s : State W} {m : ℕ} (b : Bool) (k : Contract) (offset size : ℕ)
      → k.gas + 1 ≤ m
      → Frame m c s
      → BuildsTo 1 c (if b then Built.refused (some k) s else Built.built k offset size s)
  BuildsTo-if true k offset size le f = BuildsTo.to_refused (Frame-weaken le f)
  BuildsTo-if false k offset size le f = BuildsTo.to_built (Frame-weaken le f)

  build_callee-BuildsTo :
      {c c' : State W} (kind : CallType) (addr : Address) (value : Option ℕ) (args : List ℕ)
      (offset size cost gas : ℕ)
      → (if is_positive value then 2300 else 0) < cost
      → (cost + gas) % u64_mod ≡ cost + gas
      → Frame 0 c c'
      → Yields (BuildsTo 1 c) (build_callee h kind addr value args offset size cost gas c')
  unfolding build_callee
  build_callee-BuildsTo {c = c} {c' = c'} kind addr value args offset size cost gas lt e f =
      paying-Yields (BuildsTo 1 c) Built.stopped (λ s t. BuildsTo.to_stopped t) _ _ f
        λ s t.
          let covers = stipend_gas kind s.msg value addr gas args s in
          Yields.yields (BuildsTo-if _ _ offset size (omega (arith, covers, lt, e)) t)

  module _ (c : State W) (eip150 : c.config.eip150 ≡ true) where
    offered-BuildsTo :
        {c' : State W} (kind : CallType) (addr : Address) (value : Option ℕ) (args : List ℕ)
        (initial offset size : ℕ)
        → Frame 0 c c'
        → (r : Option ℕ)
        → callee_gas c'.config.eip150 initial c'.gas (call_cost h kind (is_positive value) addr c')
          ≡ r
        → Yields (BuildsTo 1 c) (elim r [
          | none ↦ some (Built.stopped (exit VmError.out_of_gas c'))
          | some gas ↦
              build_callee h kind addr value args offset size
                (call_cost h kind (is_positive value) addr c')
                gas
                c'
        ])
    offered-BuildsTo kind addr value args initial offset size f none e =
        Yields.yields (BuildsTo.to_stopped λ m. Ends-exit VmError.out_of_gas f)
    offered-BuildsTo {c' = c'} kind addr value args initial offset size f (some gas) e =
        let on : c'.config.eip150 ≡ true = ap (λ (k : ForksInTime). k.eip150) f.config ∙ eip150 in
        let bounds = call_cost_bounds kind (is_positive value) addr c' on in
        let cost = call_cost h kind (is_positive value) addr c' in
        let offered = callee_gas_bound c'.config.eip150 initial c'.gas cost gas on e in
        build_callee-BuildsTo kind addr value args offset size cost gas bounds.0
          (omega (arith, bounds.1, offered)) f

    build_call-BuildsTo :
        (kind : CallType) → Yields (BuildsTo 1 c) (build_call_contract h kind (reset_return_data c))
    unfolding build_call_contract
    build_call-BuildsTo kind = popping-Yields _ _ (reset-Frame c) λ initial s1 f1.
        popping-Yields _ _ f1 λ addr s2 f2.
          popping_value-Yields _ (takes_value kind) _ f2 λ value s3 e f3.
            popping-Yields _ _ f3 λ a s4 f4. popping-Yields _ _ f4 λ b s5 f5.
              popping-Yields _ _ f5 λ offset s6 f6. popping-Yields _ _ f6 λ size s7 f7.
                getting-Yields _ _ (λ s t. BuildsTo.to_stopped t) _ _ _ f7
                  λ args s8 f8.
                    allocating-Yields _ _ (λ s t. BuildsTo.to_stopped t) _ _ _ f8
                      λ s9 f9.
                        offered-BuildsTo kind (address_of addr) value args initial offset size f9 _
                          refl

    module _ (returns : ReturnsGas h) where
      finish_call-Ends :
          (kind : CallType) (b : Built W)
          → BuildsTo 1 c b
          → Yields (Ends 1 c) (finish_call h kind b)
      unfolding finish_call refund
      finish_call-Ends kind _ (BuildsTo.to_stopped f) = Yields.yields (f 1)
      finish_call-Ends kind _ (BuildsTo.to_refused f) =
          Yields.yields (Ends.spends (Frame-return_gas _ (omega arith) (push-Frame 0 f)))
      finish_call-Ends kind _ (BuildsTo.to_uncovered f) =
          Yields.yields (Ends.spends (push-Frame 0 f))
      finish_call-Ends kind _ (BuildsTo.to_built {k} {offset} {size} {c'} f) =
          let r = h.callx (record k { type = kind }) c'.world in
          take_result-Ends offset size r.0
            (omega (arith, returns (record k { type = kind }) c'.world)) (Frame-world r.1 f)

      pub call_op-Ends : (kind : CallType) → Yields (Ends 1 c) (call_op h kind c)
      unfolding call_op
      call_op-Ends kind = Yields-any (writes_value kind (reset_return_data c)) λ writes.
          Yields-if writes (exited VmError.write_protection (reset-Frame c)) (
            Yields-if (call_allowed kind (reset_return_data c).config)
              (Yields-bind {k = finish_call h kind} (build_call-BuildsTo kind)
                (finish_call-Ends kind))
              (exited VmError.op_code_not_found (reset-Frame c)))
