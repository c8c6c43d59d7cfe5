-- ===== src/Evm/Run/Dispatch.antt =====
-- state/runtime/evm/dispatch_table.go and instructions.go: what each instruction of the table does.
use Prim.Native.Nat.{bit_and, bit_or, bit_xor}
use nxchain.Base.{true, false, Option, length, some}
use nxchain.State.Runtime.{CallType, Host}
use nxchain.Evm.Words.{
  op_add, op_mul, op_sub, op_div, op_sdiv, op_mod, op_smod, op_addmod, op_mulmod, op_byte, op_not,
  op_iszero, op_eq, op_lt, op_gt, op_slt, op_sgt, op_shl, op_shr, op_sar,
}
use nxchain.Evm.OpCode.{OpCode}
use nxchain.Evm.{State}
use nxchain.Evm.Instructions.Values.{
  unary, binary, ternary, pushing, exp_op, sign_extension, allowed_by, pop_op, calldataload,
  callvalue, balance, selfbalance, extcodesize, extcodehash, block_hash, sload,
}
use nxchain.Evm.Instructions.Data.{
  mload, mstore, mstore8, copy_from, returndatacopy, sha3, extcodecopy, sstore,
}
use nxchain.Evm.Instructions.Flow.{
  jump, jumpi, push_op, dup, swap, stop_op, return_op, revert_op, log, selfdestruct,
}
use nxchain.Evm.Instructions.Calls.{Hashes, call_op, create_op}

module _ {W : Type 0} (x : Hashes) (h : Host W) where
  unfoldable pub execute : OpCode → State W → Option (State W)
  execute OpCode.stop c = stop_op c
  execute OpCode.add c = binary op_add c
  execute OpCode.mul c = binary op_mul c
  execute OpCode.sub c = binary op_sub c
  execute OpCode.div c = binary op_div c
  execute OpCode.sdiv c = binary op_sdiv c
  execute OpCode.mod_op c = binary op_mod c
  execute OpCode.smod c = binary op_smod c
  execute OpCode.addmod c = ternary op_addmod c
  execute OpCode.mulmod c = ternary op_mulmod c
  execute OpCode.exp c = exp_op c
  execute OpCode.signextend c = sign_extension c
  execute OpCode.lt c = binary op_lt c
  execute OpCode.gt c = binary op_gt c
  execute OpCode.slt c = binary op_slt c
  execute OpCode.sgt c = binary op_sgt c
  execute OpCode.eq c = binary op_eq c
  execute OpCode.iszero c = unary op_iszero c
  execute OpCode.and_op c = binary bit_and c
  execute OpCode.or_op c = binary bit_or c
  execute OpCode.xor_op c = binary bit_xor c
  execute OpCode.not_op c = unary op_not c
  execute OpCode.byte c = binary op_byte c
  execute OpCode.shl c = allowed_by c.config.constantinople (binary op_shl) c
  execute OpCode.shr c = allowed_by c.config.constantinople (binary op_shr) c
  execute OpCode.sar c = allowed_by c.config.constantinople (binary op_sar) c
  execute OpCode.sha3 c = sha3 x.keccak256 c
  execute OpCode.address c = pushing c.msg.address c
  execute OpCode.balance c = balance h c
  execute OpCode.origin c = pushing h.get_tx_context.origin c
  execute OpCode.caller c = pushing c.msg.caller c
  execute OpCode.callvalue c = callvalue c
  execute OpCode.calldataload c = calldataload c
  execute OpCode.calldatasize c = pushing (length c.msg.input) c
  execute OpCode.calldatacopy c = copy_from (λ c'. c'.msg.input) c
  execute OpCode.codesize c = pushing (length c.code) c
  execute OpCode.codecopy c = copy_from (λ c'. c'.code) c
  execute OpCode.gasprice c = pushing h.get_tx_context.gas_price c
  execute OpCode.extcodesize c = extcodesize h c
  execute OpCode.extcodecopy c = extcodecopy h c
  execute OpCode.returndatasize c =
      allowed_by c.config.byzantium (λ c'. pushing (length c'.return_data) c') c
  execute OpCode.returndatacopy c = allowed_by c.config.byzantium returndatacopy c
  execute OpCode.extcodehash c = allowed_by c.config.constantinople (extcodehash h) c
  execute OpCode.blockhash c = block_hash h c
  execute OpCode.coinbase c = pushing h.get_tx_context.coinbase c
  execute OpCode.timestamp c = pushing h.get_tx_context.timestamp c
  execute OpCode.number c = pushing h.get_tx_context.number c
  execute OpCode.difficulty c = pushing h.get_tx_context.difficulty c
  execute OpCode.gaslimit c = pushing h.get_tx_context.gas_limit c
  execute OpCode.chainid c = allowed_by c.config.istanbul (pushing h.get_tx_context.chain_id) c
  execute OpCode.selfbalance c = allowed_by c.config.istanbul (selfbalance h) c
  execute OpCode.pop c = pop_op c
  execute OpCode.mload c = mload c
  execute OpCode.mstore c = mstore c
  execute OpCode.mstore8 c = mstore8 c
  execute OpCode.sload c = sload h c
  execute OpCode.sstore c = sstore h c
  execute OpCode.jump c = jump c
  execute OpCode.jumpi c = jumpi c
  execute OpCode.pc c = pushing c.ip c
  execute OpCode.msize c = pushing (length c.memory) c
  execute OpCode.gas c = pushing c.gas c
  execute OpCode.jumpdest c = some c
  execute (OpCode.push n) c = push_op n c
  execute (OpCode.dup n) c = dup n c
  execute (OpCode.swap n) c = swap n c
  execute (OpCode.log n) c = log h n c
  execute OpCode.create c = create_op x h false c
  execute OpCode.call c = call_op h CallType.call c
  execute OpCode.callcode c = call_op h CallType.call_code c
  execute OpCode.return_op c = return_op c
  execute OpCode.delegatecall c = call_op h CallType.delegate_call c
  execute OpCode.create2 c = create_op x h true c
  execute OpCode.staticcall c = call_op h CallType.static_call c
  execute OpCode.revert c = allowed_by c.config.byzantium revert_op c
  execute OpCode.selfdestruct c = selfdestruct h c
