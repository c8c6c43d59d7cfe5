-- ===== src/Txpool/Pool/Add.antt =====
-- txpool/txpool.go: the way of a transaction into the pool. `none` is a run-time panic: an account
-- that the map does not have is a nil pointer.
use nxchain.Base.{
  ◌+◌, ◌%◌, Bool, true, false, Option, none, some, [], ◌∷◌, ◌++◌, ltb, if◌then◌else◌, length, ◌>>=◌,
}
use nxchain.Base.Int.{pos}
use nxchain.Types.{Transaction, Address, u64_mod}
use nxchain.Txpool.Errors.{PoolError, reject_future_tx, tx_pool_overflow, already_known}
use nxchain.Txpool.World.{World}
use nxchain.Txpool.Account.{Account, enqueue, promote}
use nxchain.Txpool.Accounts.{exists, get, put, init_once}
use nxchain.Txpool.Gauge.{high_pressure, slots_required, increase, decrease}
use nxchain.Txpool.Index
use nxchain.Txpool.Pool.{Pool, EventType, update_pending, signal_event, to_hash}
use nxchain.Txpool.Pool.Validate.{validate_tx}

unfoldable pub create_account_once : World → Address → Pool → Pool
create_account_once w addr p =
    if exists addr p.accounts
    then p
    else record p { accounts = init_once addr (w.get_nonce w.state_root addr) p.accounts }

-- Under high pressure only a transaction of the expected nonce, or of a new account, may go on.
unfoldable pub is_future : Transaction → Pool → Bool
is_future tx p = elim (get tx.from p.accounts) [
  | none ↦ false
  | some account ↦ ltb account.next_nonce tx.nonce
]

-- addTx once the pool has room: the index, the account, the request and the event.
unfoldable pub admit_tx : World → Transaction → Pool → Option PoolError × Pool
admit_tx w tx p =
    let (fresh, index) = Index.add tx p.index in
    let indexed = create_account_once w tx.from (record p { index = index }) in
    if fresh
    then (
      none,
      signal_event EventType.added (tx.hash ∷ [])
          (record indexed { enqueue_requests = indexed.enqueue_requests ++ tx ∷ [] }),
    )
    else (some already_known, p)

unfoldable pub compute_hash : World → Transaction → Transaction
compute_hash w tx = record tx { hash = w.compute_hash tx }

-- addTx after the transaction is valid.
unfoldable pub check_room : World → Transaction → Pool → Option PoolError × Pool
check_room w tx p =
    if ltb p.gauge.max ((p.gauge.height + slots_required (tx ∷ [])) % u64_mod)
    then (some tx_pool_overflow, p)
    else admit_tx w (compute_hash w tx) p

unfoldable pub add_tx : World → Transaction → Pool → Option PoolError × Pool
add_tx w tx p =
    let (err, tx') = validate_tx w p tx in
    let pressed = record p { prune_signalled = true } in
    elim err [
      | some e ↦ (some e, p)
      | none ↦
          if high_pressure p.gauge
          then (if is_future tx' p
              then (some reject_future_tx, pressed)
              else check_room w tx' pressed)
          else check_room w tx' p
    ]

-- handleEnqueueRequest after the account took the transaction.
unfoldable pub enqueued_tx : Transaction → Account → Pool → Pool
enqueued_tx tx account p =
    let grown =
      signal_event EventType.enqueued (tx.hash ∷ [])
        (record p { gauge = increase (slots_required (tx ∷ [])) p.gauge }) in
    if ltb account.next_nonce tx.nonce
    then grown
    else record grown { promote_requests = p.promote_requests ++ tx.from ∷ [] }

unfoldable pub handle_enqueue_request : Transaction → Pool → Option Pool
handle_enqueue_request tx p = do
  account ← get tx.from p.accounts
  (err, account') ← enqueue tx account
  let p' = record p { accounts = put tx.from account' p.accounts }
  elim err [
    | some e ↦ some (record p' { index = Index.remove (tx ∷ []) p.index })
    | none ↦ some (enqueued_tx tx account' p')
  ]

unfoldable pub handle_promote_request : Address → Pool → Option Pool
handle_promote_request addr p = do
  account ← get addr p.accounts
  (promoted, pruned, account') ← promote account
  some (
      signal_event EventType.promoted (to_hash promoted) (
        update_pending (pos (length promoted)) (record p {
          accounts = put addr account' p.accounts;
          index = Index.remove pruned p.index;
          gauge = decrease (slots_required pruned) p.gauge;
        })))
