-- ===== src/Txpool/Tests.antt =====
-- Runs of the transaction pool on small data, and the laws at work on them.
use nxchain.Base.{
  ℕ, ◌≡◌, ◌≢◌, ◌⊎◌, ◌*◌, ◌+◌, zero, suc, refl, arith, true, false, none, some, [], ◌∷◌, Yields,
  if◌then◌else◌, ◌==◌,
}
use nxchain.Types.{Transaction}
use nxchain.Txpool.Errors.{nonce_too_low}
use nxchain.Txpool.Queue
use nxchain.Txpool.Queue.{Queue, nonce_less, prune}
use nxchain.Txpool.Queue.Order.{zero_transaction, IsQueue}
use nxchain.Txpool.Queue.Laws.{Taken, Pruned, pop_takes, prune_correct}
use nxchain.Txpool.Priced
use nxchain.Txpool.Priced.{IsPriced, TakenBest, price_less, pop_best}
use nxchain.Txpool.Account.{Account, enqueue, promote, reset}
use nxchain.Txpool.Account.Invariant.{IsAccount}
use nxchain.Txpool.Account.Resetting.{Resets, reset_correct}
use nxchain.Txpool.Account.Methods.{Enqueues, Promoted, enqueue_correct, promote_correct}
use nxchain.Txpool.Gauge.{SlotGauge, slots_required}
use nxchain.Txpool.Index
use nxchain.Txpool.Index.{LookupMap}
use nxchain.Txpool.Index.Laws.{get-add, get-remove, mentions}

abbrev offer : ℕ → ℕ → Transaction
offer nonce price = record zero_transaction {
  nonce = nonce;
  gas_price = price;
  gas = 50000;
  hash = 100 * nonce + price;
  from = 7;
  size = 40000;
}

-- Two offers for nonce 0, and a hole at nonce 2.
abbrev waiting : Queue
waiting = offer 0 5 ∷ offer 0 3 ∷ offer 1 4 ∷ offer 3 9 ∷ []

abbrev account : Account
account = record {
  enqueued = waiting;
  promoted = [];
  next_nonce = 0;
  demotions = 2;
  skips = 1;
  max_enqueued = 5;
}

run-promote :
    promote account
    ≡ some (
      offer 0 5 ∷ offer 1 4 ∷ [],
      offer 0 3 ∷ [],
      record account {
        enqueued = offer 3 9 ∷ [];
        promoted = offer 0 5 ∷ offer 1 4 ∷ [];
        next_nonce = 2;
      },
    )
unfolding promote Queue.pop Queue.push prune nonce_less nxchain.Heap.pop nxchain.Heap.push
run-promote = refl

run-enqueue :
    enqueue (offer 0 1) (record account { next_nonce = 1 })
    ≡ some (some nonce_too_low, record account { next_nonce = 1 })
unfolding enqueue
run-enqueue = refl

waiting-IsQueue : IsQueue waiting
unfolding nonce_less
waiting-IsQueue zero h k = absurd (omega arith)
waiting-IsQueue (suc zero) h k = refl
waiting-IsQueue (suc (suc zero)) h k = refl
waiting-IsQueue (suc (suc (suc zero))) h k = refl
waiting-IsQueue (suc (suc (suc (suc c)))) h k = absurd (omega arith)

waiting-IsPriced : IsPriced (offer 1 9 ∷ offer 0 4 ∷ offer 2 9 ∷ [])
unfolding price_less
waiting-IsPriced zero h k = absurd (omega arith)
waiting-IsPriced (suc zero) h k = refl
waiting-IsPriced (suc (suc zero)) h k = refl
waiting-IsPriced (suc (suc (suc c))) h k = absurd (omega arith)

account-IsAccount : IsAccount account
account-IsAccount = record {
  enqueued_valid = waiting-IsQueue;
  promoted_valid = λ c h k. absurd (omega arith);
  waiting = (omega arith, (omega arith, (omega arith, (omega arith, tt))));
  ready = tt;
  bounded = omega arith;
}

promote_correct_example : Yields (Promoted account) (promote account)
promote_correct_example =
    promote_correct account account-IsAccount
      (omega arith, (omega arith, (omega arith, (omega arith, tt))))

reset_correct_example : Yields (Resets 1 account) (reset 1 account)
reset_correct_example = reset_correct 1 account account-IsAccount

enqueue_correct_example :
    Yields (λ r. Enqueues (offer 4 1) account r × IsAccount r.1) (enqueue (offer 4 1) account)
enqueue_correct_example = enqueue_correct (offer 4 1) account account-IsAccount

prune_correct_example : Yields (Pruned 1 waiting) (prune 1 waiting)
prune_correct_example = prune_correct 1 waiting waiting-IsQueue

pop_takes_example : Yields (Taken waiting (offer 0 5)) (Queue.pop waiting)
unfolding Queue.peek
pop_takes_example = pop_takes waiting (offer 0 5) waiting-IsQueue refl

pop_best_example :
    Yields
      (TakenBest (offer 1 9 ∷ offer 0 4 ∷ offer 2 9 ∷ []))
      (Priced.pop (offer 1 9 ∷ offer 0 4 ∷ offer 2 9 ∷ []))
pop_best_example = pop_best (offer 1 9 ∷ offer 0 4 ∷ offer 2 9 ∷ []) waiting-IsPriced (omega arith)

-- Two slots each.
run-slots_required : slots_required waiting ≡ 8
unfolding slots_required
run-slots_required = refl

abbrev gauge : SlotGauge
gauge = record { height = 81; max = 100 }

abbrev index : LookupMap
index = (5, offer 0 5) ∷ (104, offer 1 4) ∷ []

get-add_example :
    ((Index.add (offer 3 9) index).0 ≡ false)
      × (Index.get 309 index ≢ none)
      × ((Index.add (offer 3 9) index).1 ≡ index)
    ⊎ ((Index.add (offer 3 9) index).0 ≡ true)
      × (Index.get 309 index ≡ none)
      × (Index.get 104 (Index.add (offer 3 9) index).1
          ≡ (if 309 == 104 then some (offer 3 9) else Index.get 104 index))
get-add_example = get-add (offer 3 9) index 104

get-remove_example :
    Index.get 104 (Index.remove waiting index)
    ≡ (if mentions 104 waiting then none else Index.get 104 index)
get-remove_example = get-remove waiting index 104
