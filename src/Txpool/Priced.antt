-- ===== src/Txpool/Priced.antt =====
-- txpool/queue.go: the queue of executables (`pricedQueue` over `maxPriceQueue`). A queue is its
-- slice, and `none` is a run-time panic.
use nxchain.Base.{
  ◌%◌, ◌≤◌, ◌<◌, ◌≡◌, refl, Bool, false, Option, none, some, [], ◌∷◌, Perm, arith, ltb, ◌==◌,
  if◌then◌else◌, length, ◌>>=◌, All, All-weaken, Yields, yields, Yields-value,
}
use nxchain.Types.{Transaction, u64_mod}
use nxchain.Heap
use nxchain.Heap.Order.{IsOrder, IsHeap}
use nxchain.Heap.Ends.{push_correct, pop_correct}
use nxchain.Txpool.Queue.{Queue}
use nxchain.Txpool.Queue.Order.{zero_transaction}

-- `maxPriceQueue.Less`: the higher gas price first, read by `Uint64`, its low 64 bits.
unfoldable pub price_less : Transaction → Transaction → Bool
price_less x y = ltb (y.gas_price % u64_mod) (x.gas_price % u64_mod)

unfoldable pub push : Transaction → Queue → Option Queue
push tx q = Heap.push price_less tx q

-- `pop` returns nil on an empty queue.
unfoldable pub pop : Queue → Option (Option Transaction × Queue)
pop q =
    let popped = Heap.pop price_less q >>= λ (tx, q'). some (some tx, q') in
    if length q == 0 then some (none, q) else popped

unfoldable pub clear : Queue → Queue
clear q = []

price_less-IsOrder : IsOrder price_less
unfolding price_less
price_less-IsOrder = record { asym = λ x y h. ground arith; chain = λ x y z h k. ground arith }

abbrev pub IsPriced : Queue → Type 0
IsPriced q = IsHeap price_less zero_transaction (length q) q

-- A push never panics, keeps the queue valid, and adds exactly the transaction.
pub IsPriced-push_adds :
    (tx : Transaction) (q : Queue)
    → IsPriced q
    → Yields (λ q'. IsPriced q' × Perm q' (tx ∷ q)) (push tx q)
unfolding push
IsPriced-push_adds tx q h = push_correct price_less zero_transaction price_less-IsOrder tx q h

-- What `pop` returns on a queue that is not empty.
pub record TakenBest (q : Queue) (r : Option Transaction × Queue) : Type 0 where
  pub tx : Transaction
  pub popped : r.0 ≡ some tx
  pub valid : IsPriced r.1
  pub kept : Perm (tx ∷ r.1) q
  pub best : All (λ t. t.gas_price % u64_mod ≤ tx.gas_price % u64_mod) q

best_in_numbers :
    (x y : Transaction) → price_less y x ≡ false → y.gas_price % u64_mod ≤ x.gas_price % u64_mod
unfolding price_less
best_in_numbers x y h = ground arith

-- Popping a valid queue that is not empty never panics, leaves a valid queue of the others, and
-- returns a transaction such that no other has a higher price in its low 64 bits.
pub pop_best : (q : Queue) → IsPriced q → 0 < length q → Yields (TakenBest q) (pop q)
unfolding pop
pop_best q h pos =
    let (r, popped, p) =
      Yields-value (pop_correct price_less zero_transaction price_less-IsOrder q pos h) in
    let full : (length q == 0) ≡ false = ground arith in
    rw (full, popped)
      (yields (some r.0, r.1)
        (record {
          tx = r.0;
          popped = refl;
          valid = p.rest;
          kept = p.kept;
          best =
              All-weaken (λ t. price_less t r.0 ≡ false)
                (λ t. t.gas_price % u64_mod ≤ r.0.gas_price % u64_mod) q
                (λ t k. best_in_numbers r.0 t k) p.first;
        }))
