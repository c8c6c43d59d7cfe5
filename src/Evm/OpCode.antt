-- ===== src/Evm/OpCode.antt =====
-- state/runtime/evm/opcodes.go and dispatch_table.go: the instructions, their numbers, the depth of the
-- stack that each asks for and its gas.
use nxchain.Base.{ℕ, ◌-◌, Option, none, some, List, [], ◌∷◌, ◌==◌, ltb, if◌then◌else◌, get_elem?}

-- `push`, `dup`, `swap` and `log` count from 1, 1, 1 and 0.
pub data OpCode : Type 0 where
  stop add mul sub div sdiv mod_op smod addmod mulmod exp signextend : OpCode
  lt gt slt sgt eq iszero and_op or_op xor_op not_op byte shl shr sar : OpCode
  sha3 address balance origin caller callvalue calldataload calldatasize calldatacopy : OpCode
  codesize codecopy gasprice extcodesize extcodecopy returndatasize returndatacopy extcodehash :
      OpCode
  blockhash coinbase timestamp number difficulty gaslimit chainid selfbalance : OpCode
  pop mload mstore mstore8 sload sstore jump jumpi pc msize gas jumpdest : OpCode
  push dup swap log : ℕ → OpCode
  create call callcode return_op delegatecall create2 staticcall revert selfdestruct : OpCode

-- An entry of a table at the place of a number, from `start` on.
unfoldable pub entry : ℕ → List OpCode → ℕ → Option OpCode
entry start ops n = if ltb n start then none else get_elem? ops (n - start)

-- The instruction of a byte; `none` is an empty place of the dispatch table.
unfoldable pub op_code : ℕ → Option OpCode
unfolding entry
op_code n =
    let arithmetic =
      entry 0x00
        (OpCode.stop ∷ OpCode.add ∷ OpCode.mul ∷ OpCode.sub ∷ OpCode.div ∷ OpCode.sdiv
          ∷ OpCode.mod_op ∷ OpCode.smod ∷ OpCode.addmod ∷ OpCode.mulmod ∷ OpCode.exp
          ∷ OpCode.signextend ∷ [])
        n in
    let logic =
      entry 0x10
        (OpCode.lt ∷ OpCode.gt ∷ OpCode.slt ∷ OpCode.sgt ∷ OpCode.eq ∷ OpCode.iszero ∷ OpCode.and_op
          ∷ OpCode.or_op ∷ OpCode.xor_op ∷ OpCode.not_op ∷ OpCode.byte ∷ OpCode.shl ∷ OpCode.shr
          ∷ OpCode.sar ∷ [])
        n in
    let context =
      entry 0x30
        (OpCode.address ∷ OpCode.balance ∷ OpCode.origin ∷ OpCode.caller ∷ OpCode.callvalue
          ∷ OpCode.calldataload ∷ OpCode.calldatasize ∷ OpCode.calldatacopy ∷ OpCode.codesize
          ∷ OpCode.codecopy ∷ OpCode.gasprice ∷ OpCode.extcodesize ∷ OpCode.extcodecopy
          ∷ OpCode.returndatasize ∷ OpCode.returndatacopy ∷ OpCode.extcodehash ∷ [])
        n in
    let block =
      entry 0x40
        (OpCode.blockhash ∷ OpCode.coinbase ∷ OpCode.timestamp ∷ OpCode.number ∷ OpCode.difficulty
          ∷ OpCode.gaslimit ∷ OpCode.chainid ∷ OpCode.selfbalance ∷ [])
        n in
    let flow =
      entry 0x50
        (OpCode.pop ∷ OpCode.mload ∷ OpCode.mstore ∷ OpCode.mstore8 ∷ OpCode.sload ∷ OpCode.sstore
          ∷ OpCode.jump ∷ OpCode.jumpi ∷ OpCode.pc ∷ OpCode.msize ∷ OpCode.gas ∷ OpCode.jumpdest
          ∷ [])
        n in
    let calls =
      entry 0xf0
        (OpCode.create ∷ OpCode.call ∷ OpCode.callcode ∷ OpCode.return_op ∷ OpCode.delegatecall
          ∷ OpCode.create2 ∷ [])
        n in
    if ltb n 0x10
    then arithmetic
    else if ltb n 0x20
    then logic
    else if n == 0x20
    then some OpCode.sha3
    else if ltb n 0x30
    then none
    else if ltb n 0x40
    then context
    else if ltb n 0x50
    then block
    else if ltb n 0x60
    then flow
    else if ltb n 0x80
    then some (OpCode.push (n - 0x5f))
    else if ltb n 0x90
    then some (OpCode.dup (n - 0x7f))
    else if ltb n 0xa0
    then some (OpCode.swap (n - 0x8f))
    else if ltb n 0xa5
    then some (OpCode.log (n - 0xa0))
    else if ltb n 0xf0
    then none
    else if ltb n 0xf6
    then calls
    else if n == 0xfa
    then some OpCode.staticcall
    else if n == 0xfd
    then some OpCode.revert
    else if n == 0xff
    then some OpCode.selfdestruct
    else none

-- The stack and the gas of the dispatch table.
unfoldable pub handler : OpCode → ℕ × ℕ
handler OpCode.stop = (0, 0)
handler OpCode.add = (2, 3)
handler OpCode.mul = (2, 5)
handler OpCode.sub = (2, 3)
handler OpCode.div = (2, 5)
handler OpCode.sdiv = (2, 5)
handler OpCode.mod_op = (2, 5)
handler OpCode.smod = (2, 5)
handler OpCode.addmod = (3, 8)
handler OpCode.mulmod = (3, 8)
handler OpCode.exp = (2, 10)
handler OpCode.signextend = (1, 5)
handler OpCode.lt = (2, 3)
handler OpCode.gt = (2, 3)
handler OpCode.slt = (2, 3)
handler OpCode.sgt = (2, 3)
handler OpCode.eq = (2, 3)
handler OpCode.iszero = (1, 3)
handler OpCode.and_op = (2, 3)
handler OpCode.or_op = (2, 3)
handler OpCode.xor_op = (2, 3)
handler OpCode.not_op = (1, 3)
handler OpCode.byte = (2, 3)
handler OpCode.shl = (2, 3)
handler OpCode.shr = (2, 3)
handler OpCode.sar = (2, 3)
handler OpCode.sha3 = (2, 30)
handler OpCode.address = (0, 2)
handler OpCode.balance = (1, 0)
handler OpCode.origin = (0, 2)
handler OpCode.caller = (0, 2)
handler OpCode.callvalue = (0, 2)
handler OpCode.calldataload = (1, 3)
handler OpCode.calldatasize = (0, 2)
handler OpCode.calldatacopy = (3, 3)
handler OpCode.codesize = (0, 2)
handler OpCode.codecopy = (3, 3)
handler OpCode.gasprice = (0, 2)
handler OpCode.extcodesize = (1, 0)
handler OpCode.extcodecopy = (4, 0)
handler OpCode.returndatasize = (0, 2)
handler OpCode.returndatacopy = (3, 3)
handler OpCode.extcodehash = (1, 0)
handler OpCode.blockhash = (1, 20)
handler OpCode.coinbase = (0, 2)
handler OpCode.timestamp = (0, 2)
handler OpCode.number = (0, 2)
handler OpCode.difficulty = (0, 2)
handler OpCode.gaslimit = (0, 2)
handler OpCode.chainid = (0, 2)
handler OpCode.selfbalance = (0, 5)
handler OpCode.pop = (1, 2)
handler OpCode.mload = (1, 3)
handler OpCode.mstore = (2, 3)
handler OpCode.mstore8 = (2, 3)
handler OpCode.sload = (1, 0)
handler OpCode.sstore = (2, 0)
handler OpCode.jump = (1, 8)
handler OpCode.jumpi = (2, 10)
handler OpCode.pc = (0, 2)
handler OpCode.msize = (0, 2)
handler OpCode.gas = (0, 2)
handler OpCode.jumpdest = (0, 1)
handler (OpCode.push n) = (0, 3)
handler (OpCode.dup n) = (0, 3)
handler (OpCode.swap n) = (0, 3)
handler (OpCode.log n) = (0, 375)
handler OpCode.create = (3, 32000)
handler OpCode.call = (7, 0)
handler OpCode.callcode = (7, 0)
handler OpCode.return_op = (2, 0)
handler OpCode.delegatecall = (6, 0)
handler OpCode.create2 = (4, 32000)
handler OpCode.staticcall = (6, 0)
handler OpCode.revert = (2, 0)
handler OpCode.selfdestruct = (1, 0)
