-- ===== src/Txpool/Account.antt =====
-- txpool/account.go: an account of the pool and its methods. A method holds the locks of the queues
-- that it touches for its whole body, so it runs as one step. `none` is a run-time panic.
pub mod Invariant
pub mod Promotion
pub mod Methods
pub mod Resetting
use nxchain.Base.{
  ℕ, zero, suc, ◌+◌, ◌%◌, Bool, Option, none, some, List, [], ◌∷◌, ◌++◌, ltb, leb, ◌==◌,
  if◌then◌else◌, length, ◌>>=◌, ◌||◌, not,
}
use nxchain.Types.{Transaction, Address, u64_mod}
use nxchain.Txpool.Errors.{PoolError, max_enqueued_limit_reached, nonce_too_low}
use nxchain.Txpool.Queue
use nxchain.Txpool.Queue.{Queue, new_queue, peek, prune}

pub record Account : Type 0 where
  pub enqueued : Queue
  pub promoted : Queue
  pub next_nonce : ℕ
  pub demotions : ℕ
  pub skips : ℕ
  pub max_enqueued : ℕ

-- The account that `initOnce` makes.
unfoldable pub new_account : ℕ → ℕ → Account
new_account limit nonce = record {
  enqueued = new_queue;
  promoted = new_queue;
  next_nonce = nonce;
  demotions = 0;
  skips = 0;
  max_enqueued = limit;
}

unfoldable pub reset_demotions : Account → Account
reset_demotions a = record a { demotions = 0 }

unfoldable pub increment_demotions : Account → Account
increment_demotions a = record a { demotions = (a.demotions + 1) % u64_mod }

unfoldable pub reset_skips : Account → Account
reset_skips a = record a { skips = 0 }

unfoldable pub increment_skips : Account → Account
increment_skips a = record a { skips = (a.skips + 1) % u64_mod }

-- `signal` is the promoteRequest that `reset` sends on its channel, if any.
pub record ResetResult : Type 0 where
  pub account : Account
  pub pruned_promoted : List Transaction
  pub pruned_enqueued : List Transaction
  pub signal : Option Address

-- The request for the first enqueued transaction, if it is the expected one.
unfoldable pub reset_signal : ℕ → Queue → Option Address
reset_signal nonce q = elim (peek q) [
  | none ↦ none
  | some first ↦ if first.nonce == nonce then some first.from else none
]

unfoldable pub reset : ℕ → Account → Option ResetResult
unfolding reset_signal
reset nonce a = do
  (pruned_promoted, promoted) ← prune nonce a.promoted
  let kept = record a { promoted = promoted }
  let only_promoted : ResetResult = record {
    account = kept;
    pruned_promoted = pruned_promoted;
    pruned_enqueued = [];
    signal = none;
  }
  let both : Option ResetResult = do
    (pruned_enqueued, enqueued) ← prune nonce a.enqueued
    some (record {
      account = record kept { enqueued = enqueued; next_nonce = nonce };
      pruned_promoted = pruned_promoted;
      pruned_enqueued = pruned_enqueued;
      signal = reset_signal nonce enqueued;
    })
  if leb nonce a.next_nonce then some only_promoted else both

unfoldable pub enqueue : Transaction → Account → Option (Option PoolError × Account)
enqueue tx a =
    let pushed = Queue.push tx a.enqueued >>= λ q. some (none, record a { enqueued = q }) in
    if length a.enqueued == a.max_enqueued
    then some (some max_enqueued_limit_reached, a)
    else if ltb tx.nonce a.next_nonce
    then some (some nonce_too_low, a)
    else pushed

-- The variables of the loop in `promote`: `next_nonce`, the two queues and the two results.
pub record Promoting : Type 0 where
  pub next : ℕ
  pub waiting : Queue
  pub ready : Queue
  pub moved : List Transaction
  pub dropped : List Transaction

-- One round after its test: pops the transaction, promotes it and prunes what is now too low.
unfoldable pub promote_round : Promoting → Option Promoting
promote_round p = do
  (popped, waiting) ← Queue.pop p.waiting
  tx ← popped
  ready ← Queue.push tx p.ready
  let next = (tx.nonce + 1) % u64_mod
  (pruned, waiting') ← prune next waiting
  some (record {
    next = next;
    waiting = waiting';
    ready = ready;
    moved = p.moved ++ tx ∷ [];
    dropped = p.dropped ++ pruned;
  })

-- Each round pops a transaction, so the length of the enqueued queue is fuel enough.
pub promote_loop : ℕ → Promoting → Option Promoting
promote_loop zero p = some p
promote_loop (suc fuel) p =
    let round = promote_round p >>= promote_loop fuel in
    elim (peek p.waiting) [ none ↦ some p | some tx ↦ if tx.nonce == p.next then round else some p ]

-- Returns what was promoted, what was pruned, and the account.
unfoldable pub promote : Account → Option (List Transaction × List Transaction × Account)
unfolding promote_loop promote_round
promote a =
    let go = λ (first : Transaction).
      (promote_loop (length a.enqueued) (record {
        next = first.nonce;
        waiting = a.enqueued;
        ready = a.promoted;
        moved = [];
        dropped = [];
      })
        >>= λ p. some (
          p.moved,
          p.dropped,
          record a {
            enqueued = p.waiting;
            promoted = p.ready;
            next_nonce = if ltb a.next_nonce p.next then p.next else a.next_nonce;
          },
        )) in
    elim (peek a.enqueued) [
      | none ↦ some ([], [], a)
      | some first ↦ if ltb a.next_nonce first.nonce then some ([], [], a) else go first
    ]

-- The transaction that might be popped next, which stays where it is.
unfoldable pub get_lowest_tx : Account → Option Transaction
get_lowest_tx a = elim (peek a.promoted) [ none ↦ peek a.enqueued | some first ↦ some first ]
