-- ===== src/Evm/Gas/Values.antt =====
-- The instructions of Instructions/Values, as frames.
use nxchain.Base.{ℕ, Bool, Option, none, some, List, [], ◌∷◌, arith}
use nxchain.State.Runtime.{Host}
use nxchain.Evm.Words.{op_sign_extend}
use nxchain.Evm.{State, replace_top}
use nxchain.Evm.Instructions.Values.{
  unary, binary, ternary, pushing, exp_op, sign_extension, allowed_by, pop_op, calldataload,
  callvalue, balance, selfbalance, extcodesize, extcodehash, block_hash, sload,
}
use nxchain.Evm.Gas.{
  Frame, Ends, Frame-refl, Yields, Yields-if, popping-Yields, topping-Yields, kept, pushed,
  replaced, exited, paying-Frame,
}

module _ {W : Type 0} (c : State W) where
  pub unary-Frame : (f : ℕ → ℕ) → Yields (Ends 0 c) (unary f c)
  unfolding unary
  unary-Frame f = popping-Yields _ _ (Frame-refl c) λ a s t. pushed (f a) t (omega arith)

  pub binary-Frame : (f : ℕ → ℕ → ℕ) → Yields (Ends 0 c) (binary f c)
  unfolding binary
  binary-Frame f =
      popping-Yields _ _ (Frame-refl c)
        λ a s t. popping-Yields _ _ t λ b s' t'. pushed (f a b) t' (omega arith)

  pub ternary-Frame : (f : ℕ → ℕ → ℕ → ℕ) → Yields (Ends 0 c) (ternary f c)
  unfolding ternary
  ternary-Frame f = popping-Yields _ _ (Frame-refl c) λ a s t.
      popping-Yields _ _ t
        λ b s' t'. popping-Yields _ _ t' λ z s'' t''. pushed (f a b z) t'' (omega arith)

  pub pushing-Frame : (v : ℕ) → Yields (Ends 0 c) (pushing v c)
  unfolding pushing
  pushing-Frame v = pushed v (Frame-refl c) (omega arith)

  pub exp_op-Frame : Yields (Ends 0 c) (exp_op c)
  unfolding exp_op
  exp_op-Frame =
      popping-Yields _ _ (Frame-refl c)
        λ x s t. topping-Yields _ _ t λ y. paying-Frame _ _ t λ s' t'. replaced _ t' (omega arith)

  pub allowed_by-Frame :
      {n : ℕ} (fork : Bool) (f : State W → Option (State W))
      → Yields (Ends n c) (f c)
      → Yields (Ends n c) (allowed_by fork f c)
  unfolding allowed_by
  allowed_by-Frame fork f y = Yields-if fork y (exited _ (Frame-refl c))

  pub pop_op-Frame : Yields (Ends 0 c) (pop_op c)
  unfolding pop_op
  pop_op-Frame = popping-Yields _ _ (Frame-refl c) λ a s t. kept t

  pub calldataload-Frame : Yields (Ends 0 c) (calldataload c)
  unfolding calldataload
  calldataload-Frame =
      topping-Yields _ _ (Frame-refl c) λ a. replaced _ (Frame-refl c) (omega arith)

  module _ (h : Host W) where
    pub balance-Frame : Yields (Ends 1 c) (balance h c)
    unfolding balance pushing
    balance-Frame =
        popping-Yields _ _ (Frame-refl c)
          λ a s t. paying-Frame _ _ t λ s' t'. pushed _ t' (ground arith)

    pub selfbalance-Frame : Yields (Ends 0 c) (selfbalance h c)
    unfolding selfbalance
    selfbalance-Frame = pushing-Frame _

    pub extcodesize-Frame : Yields (Ends 1 c) (extcodesize h c)
    unfolding extcodesize pushing
    extcodesize-Frame =
        popping-Yields _ _ (Frame-refl c)
          λ a s t. paying-Frame _ _ t λ s' t'. pushed _ t' (ground arith)

    pub extcodehash-Frame : Yields (Ends 1 c) (extcodehash h c)
    unfolding extcodehash pushing
    extcodehash-Frame =
        popping-Yields _ _ (Frame-refl c)
          λ a s t. paying-Frame _ _ t λ s' t'. pushed _ t' (ground arith)

    pub block_hash-Frame : Yields (Ends 0 c) (block_hash h c)
    unfolding block_hash
    block_hash-Frame =
        topping-Yields _ _ (Frame-refl c) λ a. replaced _ (Frame-refl c) (omega arith)

    pub sload-Frame : Yields (Ends 1 c) (sload h c)
    unfolding sload
    sload-Frame =
        topping-Yields _ _ (Frame-refl c)
          λ a. paying-Frame _ _ (Frame-refl c) λ s t. replaced _ t (ground arith)

callvalue_cases :
    {W : Type 0} (c : State W) (v : Option ℕ)
    → Yields (Ends 0 c) (elim v [ none ↦ pushing 0 c | some x ↦ pushing x c ])
callvalue_cases c none = pushing-Frame c 0
callvalue_cases c (some x) = pushing-Frame c x

pub callvalue-Frame : {W : Type 0} (c : State W) → Yields (Ends 0 c) (callvalue c)
unfolding callvalue
callvalue-Frame c = callvalue_cases c c.msg.value

sign_cases :
    {W : Type 0} (c s : State W) (ext : ℕ) (xs : List ℕ)
    → Frame 0 c s
    → Yields
        (Ends 0 c)
        (elim xs [ [] ↦ some s | x ∷ r ↦ some (replace_top (op_sign_extend ext x) s) ])
sign_cases c s ext [] f = kept f
sign_cases c s ext (x ∷ r) f = replaced _ f (omega arith)

pub sign_extension-Frame : {W : Type 0} (c : State W) → Yields (Ends 0 c) (sign_extension c)
unfolding sign_extension
sign_extension-Frame c = popping-Yields _ _ (Frame-refl c) λ ext s t. sign_cases c s ext s.stack t
