-- ===== src/Evm/Gas/Dispatch.antt =====
-- Every instruction of the table, as a flow.
use Prim.Native.Nat.{bit_and, bit_or, bit_xor}
use nxchain.Base.{◌-◌, ◌≡◌, true, false, refl}
use nxchain.State.Runtime.{CallType, Host}
use nxchain.Evm.Words.{
  op_add, op_mul, op_sub, op_div, op_sdiv, op_mod, op_smod, op_addmod, op_mulmod, op_byte, op_not,
  op_iszero, op_eq, op_lt, op_gt, op_slt, op_sgt, op_shl, op_shr, op_sar,
}
use nxchain.Evm.OpCode.{OpCode, handler}
use nxchain.Evm.{State}
use nxchain.Evm.Instructions.Calls.{Hashes}
use nxchain.Evm.Run.Dispatch.{execute}
use nxchain.Evm.Gas.{Yields, Frame-refl, kept}
use nxchain.Evm.Gas.Values.{
  unary-Frame, binary-Frame, ternary-Frame, pushing-Frame, exp_op-Frame, sign_extension-Frame,
  allowed_by-Frame, pop_op-Frame, calldataload-Frame, callvalue-Frame, balance-Frame,
  selfbalance-Frame, extcodesize-Frame, extcodehash-Frame, block_hash-Frame, sload-Frame,
}
use nxchain.Evm.Gas.Data.{
  mload-Frame, mstore-Frame, mstore8-Frame, copy_from-Frame, returndatacopy-Frame, sha3-Frame,
  extcodecopy-Frame, sstore-Frame,
}
use nxchain.Evm.Gas.Flow.{
  Flow, Flow-stays, jump-Flow, jumpi-Flow, push_op-Flow, dup-Frame, swap-Frame, stop_op-Frame,
  return_op-Frame, revert_op-Frame, log-Frame, selfdestruct-Frame,
}
use nxchain.Evm.Gas.Calls.{ReturnsGas, call_op-Ends}
use nxchain.Evm.Gas.Creations.{create_op-Ends}

module _ {W : Type 0} (x : Hashes) (h : Host W) (returns : ReturnsGas h) (c : State W)
    (eip150 : c.config.eip150 ≡ true) where
  -- Where the table takes no gas, the instruction takes some itself, or stops the run.
  pub execute-Flow : (op : OpCode) → Yields (Flow op (1 - (handler op).1) c) (execute x h op c)
  unfolding execute handler
  execute-Flow OpCode.stop = Flow-stays OpCode.stop refl (stop_op-Frame c 1)
  execute-Flow OpCode.add = Flow-stays OpCode.add refl (binary-Frame c op_add)
  execute-Flow OpCode.mul = Flow-stays OpCode.mul refl (binary-Frame c op_mul)
  execute-Flow OpCode.sub = Flow-stays OpCode.sub refl (binary-Frame c op_sub)
  execute-Flow OpCode.div = Flow-stays OpCode.div refl (binary-Frame c op_div)
  execute-Flow OpCode.sdiv = Flow-stays OpCode.sdiv refl (binary-Frame c op_sdiv)
  execute-Flow OpCode.mod_op = Flow-stays OpCode.mod_op refl (binary-Frame c op_mod)
  execute-Flow OpCode.smod = Flow-stays OpCode.smod refl (binary-Frame c op_smod)
  execute-Flow OpCode.addmod = Flow-stays OpCode.addmod refl (ternary-Frame c op_addmod)
  execute-Flow OpCode.mulmod = Flow-stays OpCode.mulmod refl (ternary-Frame c op_mulmod)
  execute-Flow OpCode.exp = Flow-stays OpCode.exp refl (exp_op-Frame c)
  execute-Flow OpCode.signextend = Flow-stays OpCode.signextend refl (sign_extension-Frame c)
  execute-Flow OpCode.lt = Flow-stays OpCode.lt refl (binary-Frame c op_lt)
  execute-Flow OpCode.gt = Flow-stays OpCode.gt refl (binary-Frame c op_gt)
  execute-Flow OpCode.slt = Flow-stays OpCode.slt refl (binary-Frame c op_slt)
  execute-Flow OpCode.sgt = Flow-stays OpCode.sgt refl (binary-Frame c op_sgt)
  execute-Flow OpCode.eq = Flow-stays OpCode.eq refl (binary-Frame c op_eq)
  execute-Flow OpCode.iszero = Flow-stays OpCode.iszero refl (unary-Frame c op_iszero)
  execute-Flow OpCode.and_op = Flow-stays OpCode.and_op refl (binary-Frame c bit_and)
  execute-Flow OpCode.or_op = Flow-stays OpCode.or_op refl (binary-Frame c bit_or)
  execute-Flow OpCode.xor_op = Flow-stays OpCode.xor_op refl (binary-Frame c bit_xor)
  execute-Flow OpCode.not_op = Flow-stays OpCode.not_op refl (unary-Frame c op_not)
  execute-Flow OpCode.byte = Flow-stays OpCode.byte refl (binary-Frame c op_byte)
  execute-Flow OpCode.shl =
      Flow-stays OpCode.shl refl
        (allowed_by-Frame c c.config.constantinople _ (binary-Frame c op_shl))
  execute-Flow OpCode.shr =
      Flow-stays OpCode.shr refl
        (allowed_by-Frame c c.config.constantinople _ (binary-Frame c op_shr))
  execute-Flow OpCode.sar =
      Flow-stays OpCode.sar refl
        (allowed_by-Frame c c.config.constantinople _ (binary-Frame c op_sar))
  execute-Flow OpCode.sha3 = Flow-stays OpCode.sha3 refl (sha3-Frame c x.keccak256)
  execute-Flow OpCode.address = Flow-stays OpCode.address refl (pushing-Frame c _)
  execute-Flow OpCode.balance = Flow-stays OpCode.balance refl (balance-Frame c h)
  execute-Flow OpCode.origin = Flow-stays OpCode.origin refl (pushing-Frame c _)
  execute-Flow OpCode.caller = Flow-stays OpCode.caller refl (pushing-Frame c _)
  execute-Flow OpCode.callvalue = Flow-stays OpCode.callvalue refl (callvalue-Frame c)
  execute-Flow OpCode.calldataload = Flow-stays OpCode.calldataload refl (calldataload-Frame c)
  execute-Flow OpCode.calldatasize = Flow-stays OpCode.calldatasize refl (pushing-Frame c _)
  execute-Flow OpCode.calldatacopy = Flow-stays OpCode.calldatacopy refl (copy_from-Frame c _)
  execute-Flow OpCode.codesize = Flow-stays OpCode.codesize refl (pushing-Frame c _)
  execute-Flow OpCode.codecopy = Flow-stays OpCode.codecopy refl (copy_from-Frame c _)
  execute-Flow OpCode.gasprice = Flow-stays OpCode.gasprice refl (pushing-Frame c _)
  execute-Flow OpCode.extcodesize = Flow-stays OpCode.extcodesize refl (extcodesize-Frame c h)
  execute-Flow OpCode.extcodecopy = Flow-stays OpCode.extcodecopy refl (extcodecopy-Frame c h)
  execute-Flow OpCode.returndatasize =
      Flow-stays OpCode.returndatasize refl
        (allowed_by-Frame c c.config.byzantium _ (pushing-Frame c _))
  execute-Flow OpCode.returndatacopy =
      Flow-stays OpCode.returndatacopy refl
        (allowed_by-Frame c c.config.byzantium _ (returndatacopy-Frame c))
  execute-Flow OpCode.extcodehash =
      Flow-stays OpCode.extcodehash refl
        (allowed_by-Frame c c.config.constantinople _ (extcodehash-Frame c h))
  execute-Flow OpCode.blockhash = Flow-stays OpCode.blockhash refl (block_hash-Frame c h)
  execute-Flow OpCode.coinbase = Flow-stays OpCode.coinbase refl (pushing-Frame c _)
  execute-Flow OpCode.timestamp = Flow-stays OpCode.timestamp refl (pushing-Frame c _)
  execute-Flow OpCode.number = Flow-stays OpCode.number refl (pushing-Frame c _)
  execute-Flow OpCode.difficulty = Flow-stays OpCode.difficulty refl (pushing-Frame c _)
  execute-Flow OpCode.gaslimit = Flow-stays OpCode.gaslimit refl (pushing-Frame c _)
  execute-Flow OpCode.chainid =
      Flow-stays OpCode.chainid refl (allowed_by-Frame c c.config.istanbul _ (pushing-Frame c _))
  execute-Flow OpCode.selfbalance =
      Flow-stays OpCode.selfbalance refl
        (allowed_by-Frame c c.config.istanbul _ (selfbalance-Frame c h))
  execute-Flow OpCode.pop = Flow-stays OpCode.pop refl (pop_op-Frame c)
  execute-Flow OpCode.mload = Flow-stays OpCode.mload refl (mload-Frame c)
  execute-Flow OpCode.mstore = Flow-stays OpCode.mstore refl (mstore-Frame c)
  execute-Flow OpCode.mstore8 = Flow-stays OpCode.mstore8 refl (mstore8-Frame c)
  execute-Flow OpCode.sload = Flow-stays OpCode.sload refl (sload-Frame c h)
  execute-Flow OpCode.sstore = Flow-stays OpCode.sstore refl (sstore-Frame c h)
  execute-Flow OpCode.jump = jump-Flow c
  execute-Flow OpCode.jumpi = jumpi-Flow c
  execute-Flow OpCode.pc = Flow-stays OpCode.pc refl (pushing-Frame c _)
  execute-Flow OpCode.msize = Flow-stays OpCode.msize refl (pushing-Frame c _)
  execute-Flow OpCode.gas = Flow-stays OpCode.gas refl (pushing-Frame c _)
  execute-Flow OpCode.jumpdest = Flow-stays OpCode.jumpdest refl (kept (Frame-refl c))
  execute-Flow (OpCode.push n) = push_op-Flow c n
  execute-Flow (OpCode.dup n) = Flow-stays (OpCode.dup n) refl (dup-Frame c n)
  execute-Flow (OpCode.swap n) = Flow-stays (OpCode.swap n) refl (swap-Frame c n)
  execute-Flow (OpCode.log n) = Flow-stays (OpCode.log n) refl (log-Frame c h n)
  execute-Flow OpCode.create = Flow-stays OpCode.create refl (create_op-Ends x h c returns false)
  execute-Flow OpCode.call =
      Flow-stays OpCode.call refl (call_op-Ends h c eip150 returns CallType.call)
  execute-Flow OpCode.callcode =
      Flow-stays OpCode.callcode refl (call_op-Ends h c eip150 returns CallType.call_code)
  execute-Flow OpCode.return_op = Flow-stays OpCode.return_op refl (return_op-Frame c 1)
  execute-Flow OpCode.delegatecall =
      Flow-stays OpCode.delegatecall refl (call_op-Ends h c eip150 returns CallType.delegate_call)
  execute-Flow OpCode.create2 = Flow-stays OpCode.create2 refl (create_op-Ends x h c returns true)
  execute-Flow OpCode.staticcall =
      Flow-stays OpCode.staticcall refl (call_op-Ends h c eip150 returns CallType.static_call)
  execute-Flow OpCode.revert =
      Flow-stays OpCode.revert refl (allowed_by-Frame c c.config.byzantium _ (revert_op-Frame c 1))
  execute-Flow OpCode.selfdestruct = Flow-stays OpCode.selfdestruct refl (selfdestruct-Frame c h 1)
