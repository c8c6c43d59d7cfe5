-- ===== src/Lib.antt =====
-- Verification of nxchain, a node of an EVM blockchain with IBFT consensus.
--
-- The parts and how they meet. The transaction pool (txpool/) takes transactions from the network and
-- from JSON-RPC, checks them against the latest state and the intrinsic gas of state/executor.go, and
-- keeps them for each account in two queues. Block building takes the executables out of the pool, and
-- each new block tells the pool what was executed. The EVM (state/runtime/evm/) runs the contracts that
-- transactions call; the world it reads and changes is behind a host. The validators of consensus (validators/) are a set
-- that blocks vote on; the snapshots of the votes are in validators/store/snapshot/.
--
-- Base, Base/*: helpers. Numbers are native, and uint64 arithmetic is written with % 2 ^ 64. A Go map
--   is an association list (Base/Dict), a slice a list (Base/Lists), and `none` a run-time panic.
-- Heap, Heap/*: container/heap of Go's library as it is documented, by its sift loops. Push and pop run
--   on fuel; the number of entries is enough.
-- Types: types/transaction.go (Transaction, Cost, IsUnderpriced, ...).
-- State/IntrinsicGas: TransactionGasCost of state/executor.go.
-- Chain: the forks of chain/params.go.
-- State/Runtime: contracts, results and the host of state/runtime/runtime.go; Refund: UpdateGasUsed.
-- State/Transition: applyCall, applyCreate and Callx of state/executor.go, over the operations of
--   state/txn.go that they use as a record; a snapshot is the state itself.
-- State/Apply: Apply of state/executor.go with its checks, and Create2 and Call2.
-- State/Storage: SetStorage of state/txn.go on the values of one place and the refund counter.
-- Evm: the state of the machine in state/runtime/evm/state.go with its stack, memory and gas; Words: the
--   arithmetic of instructions.go; Bitmap: bitmap.go; OpCode: opcodes.go and the table of
--   dispatch_table.go; Instructions/Values, Data, Flow, Calls: the other instructions of instructions.go;
--   Run, Run/Dispatch: the loop of state.go and EVM.Run of evm.go, on fuel of one more than the gas, which
--   is enough as each round but the last consumes gas.
-- Evm/Gas and the modules below it: what each instruction keeps and spends, from the pieces that the
--   instructions are made of to a round, a run and its result, and the places that a run comes to.
--   Evm/Bitmap/*, Evm/Words/*, Evm/Memory: the bitmap, the arithmetic and the memory against
--   descriptions of their own.
-- Txpool/Queue, Txpool/Priced: accountQueue and pricedQueue of txpool/queue.go.
-- Txpool/Account: account of txpool/account.go, with reset, enqueue and promote. The loops run on fuel;
--   each round pops an entry, so the number of entries is enough.
-- Txpool/Accounts, Txpool/Gauge, Txpool/Index: accountsMap, slotGauge and lookupMap.
-- Txpool/Pool: TxPool and its construction; Validate: validateTx; Add: addTx, handleEnqueueRequest,
--   handlePromoteRequest; Block: Prepare, Peek, Pop, Drop, Demote, Length; Sync: processEvent,
--   ResetWithHeaders, resetAccounts, updateAccountSkipsCounts, pruneAccountsWithNonceHoles.
-- Txpool/Pool/Invariant and the modules after it: what holds between two handlers, and that each handler
--   keeps it. Txpool/Pool/Steps: runs of the pool, where the handlers interleave in any order and the
--   requests in the channels are handled in any order.
-- Validators: validators/types.go, ecdsa.go, bls.go, set.go; Validators/Bls: the RLP coding of bls.go with
--   types/rlp_marshal.go and rlp_unmarshal.go, over fastrlp; Validators/Bls/Strings: RLP for the tests.
-- Snapshot: Vote and Snapshot of validators/store/types.go and validators/store/snapshot/types.go;
--   Voting: processVote of snapshot.go with helper.go; Store: the snapshot store of types.go, whose two
--   binary searches run on the length of their range as fuel, which is enough as each round shortens it;
--   Candidates: Propose and getNextCandidate of snapshot.go, read by Candidates/Readings in words that do
--   not run the tests on votes and sets; Headers: ProcessHeader of snapshot.go;
--   Proposals: ModifyHeader, VerifyHeader and the other readings and resets by height of snapshot.go.
-- */Tests: runs on small data.
--
-- Outside the model. What the pool calls (the chain's store, the signer, the hash of a transaction) is
-- the record Txpool/World, an argument that may change from step to step. The package fastrlp,
-- the signer of a height and the proposer of a header are arguments too. A handler is one
-- step: the locks of the source give that for each account, and the short windows between two accounts'
-- locks are not modelled. The order in which Go ranges over a map is the order of a list. Logging, metrics, gossip and the event subscribers are
-- left out, and so are the trie, networking, JSON-RPC and the command line. The EVM calls a host, which is
-- an argument (State/Runtime.Host) together with the hash and the RLP of a pair; what a callee does is
-- the host's. The state of the machine is a new one for each run, with no spare room behind its memory;
-- numbers of the stack are not negative, and blocks and lengths are below 2 ^ 63.
pub mod Base
pub mod Heap
pub mod Types
pub mod Chain
pub mod Txpool
pub mod State
pub mod Evm
pub mod Validators
pub mod Snapshot
