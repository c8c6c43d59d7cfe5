-- ===== src/Txpool/Pool/Block.antt =====
-- txpool/txpool.go: what block building asks of the pool. `none` is a run-time panic.
use nxchain.Base.{ℕ, Option, none, some, List, [], ◌∷◌, leb, if◌then◌else◌, length, ◌>>=◌, ◌==◌}
use nxchain.Base.Int.{pos, negsuc, ◌-ℤ◌}
use nxchain.Types.{Transaction, Address}
use nxchain.Txpool.Queue
use nxchain.Txpool.Queue.{Queue, peek}
use nxchain.Txpool.Priced
use nxchain.Txpool.Account.{Account, reset_demotions, increment_demotions}
use nxchain.Txpool.Accounts.{get, put, get_primaries, promoted}
use nxchain.Txpool.Gauge.{slots_required, decrease}
use nxchain.Txpool.Index
use nxchain.Txpool.Pool.{Pool, EventType, update_pending, signal_event}

abbrev pub max_account_demotions : ℕ
max_account_demotions = 10

unfoldable pub push_all : List Transaction → Queue → Option Queue
push_all [] q = some q
push_all (tx ∷ txs) q = Priced.push tx q >>= push_all txs

-- Fetches the head of each promoted queue.
unfoldable pub prepare : Pool → Option Pool
unfolding push_all
prepare p =
    let cleared = if length p.executables == 0 then p.executables else Priced.clear p.executables in
    push_all (get_primaries p.accounts) cleared >>= λ q. some (record p { executables = q })

unfoldable pub peek_best : Pool → Option (Option Transaction × Pool)
peek_best p = Priced.pop p.executables >>= λ (tx, q). some (tx, record p { executables = q })

-- The head of the promoted queue, if any, goes to the executables.
unfoldable pub push_next : Queue → Queue → Option Queue
push_next promoted q = elim (peek promoted) [ none ↦ some q | some tx ↦ Priced.push tx q ]

unfoldable pub pop_tx : Transaction → Pool → Option Pool
pop_tx tx p = do
  account ← get tx.from p.accounts
  (popped, promoted) ← Queue.pop account.promoted
  executables ← push_next promoted p.executables
  some (
      update_pending (negsuc 0) (record p {
        accounts =
            put tx.from (reset_demotions (record account { promoted = promoted })) p.accounts;
        gauge = decrease (slots_required (tx ∷ [])) p.gauge;
        executables = executables;
      }))

-- `clearAccountQueue` of Drop: what a queue held leaves the index and the gauge.
unfoldable pub clear_account_queue : List Transaction → Pool → Pool
clear_account_queue txs p = record p {
  index = Index.remove txs p.index;
  gauge = decrease (slots_required txs) p.gauge;
}

-- The account with both queues cleared and its nonce rolled back.
unfoldable pub dropped_account : ℕ → Account → Account
dropped_account nonce a = record a { promoted = []; enqueued = []; next_nonce = nonce }

unfoldable pub drop_tx : Transaction → Pool → Option Pool
drop_tx tx p = do
  account ← get tx.from p.accounts
  let (promoted, _) = Queue.clear account.promoted
  let (enqueued, _) = Queue.clear account.enqueued
  let cleared = update_pending (pos 0 -ℤ pos (length promoted)) (
      clear_account_queue promoted
        (record p { accounts = put tx.from (dropped_account tx.nonce account) p.accounts }))
  some (signal_event EventType.dropped (tx.hash ∷ []) (clear_account_queue enqueued cleared))

unfoldable pub update_account : Address → (Account → Account) → Pool → Option Pool
update_account addr f p = do
  account ← get addr p.accounts
  some (record p { accounts = put addr (f account) p.accounts })

-- An account that was demoted too often is dropped.
unfoldable pub demote_tx : Transaction → Pool → Option Pool
demote_tx tx p = do
  account ← get tx.from p.accounts
  let out = drop_tx tx p >>= update_account tx.from reset_demotions
  let kept = update_account tx.from increment_demotions p >>= λ p'.
      some (signal_event EventType.demoted (tx.hash ∷ []) p')
  if leb max_account_demotions account.demotions then out else kept

-- The number of promoted transactions.
unfoldable pub pool_length : Pool → ℕ
pool_length p = promoted p.accounts
