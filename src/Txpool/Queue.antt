-- ===== src/Txpool/Queue.antt =====
-- txpool/queue.go: an account's queue (`accountQueue` over `minNonceQueue`). A queue is its slice;
-- the locks are not modelled, a method runs as one step. `none` is a run-time panic.
pub mod Order
pub mod Laws
use nxchain.Base.{
  ℕ, zero, suc, Bool, Option, none, some, List, [], ◌∷◌, ◌++◌, ltb, leb, ◌==◌, if◌then◌else◌,
  length, ◌>>=◌,
}
use nxchain.Types.{Transaction}
use nxchain.Heap

abbrev pub Queue : Type 0
Queue = List Transaction

abbrev pub new_queue : Queue
new_queue = []

-- `minNonceQueue.Less`: the lower nonce first, and of equal nonces the higher gas price.
unfoldable pub nonce_less : Transaction → Transaction → Bool
nonce_less x y = if x.nonce == y.nonce then ltb y.gas_price x.gas_price else ltb x.nonce y.nonce

unfoldable pub peek : Queue → Option Transaction
peek [] = none
peek (tx ∷ q) = some tx

unfoldable pub push : Transaction → Queue → Option Queue
push tx q = Heap.push nonce_less tx q

-- `pop` returns nil on an empty queue.
unfoldable pub pop : Queue → Option (Option Transaction × Queue)
pop q =
    let popped = Heap.pop nonce_less q >>= λ (tx, q'). some (some tx, q') in
    if length q == 0 then some (none, q) else popped

-- The queue's entries, and the queue emptied.
unfoldable pub clear : Queue → List Transaction × Queue
clear q = (q, [])

-- The loop of `prune`. Each round pops an entry, so the length of the queue is fuel enough. `peek`
-- has seen an entry, so `pop` does not return nil; a nil would panic where its nonce is read.
pub prune_loop : ℕ → ℕ → List Transaction → Queue → Option (List Transaction × Queue)
prune_loop zero nonce pruned q = some (pruned, q)
prune_loop (suc fuel) nonce pruned q =
    let next =
      pop q >>= λ (popped, q'). popped >>= λ tx. prune_loop fuel nonce (pruned ++ tx ∷ []) q' in
    elim (peek q) [
      | none ↦ some (pruned, q)
      | some tx ↦ if leb nonce tx.nonce then some (pruned, q) else next
    ]

-- Removes the transactions with a nonce lower than the given one.
unfoldable pub prune : ℕ → Queue → Option (List Transaction × Queue)
unfolding prune_loop pop peek nonce_less
prune nonce q = prune_loop (length q) nonce [] q
