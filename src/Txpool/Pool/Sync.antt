-- ===== src/Txpool/Pool/Sync.antt =====
-- txpool/txpool.go: how the pool follows new blocks, and its clean-up of accounts. A loop over a map
-- runs in the order of its list; Go leaves that order open. `none` is a run-time panic.
use nxchain.Base.{
  ℕ, Option, none, some, List, [], ◌∷◌, ◌++◌, ltb, if◌then◌else◌, length, ◌>>=◌, ◌==◌,
}
use nxchain.Base.Int.{pos, ◌-ℤ◌}
use nxchain.Base.Dict.{Dict, contains, insert, erase}
use nxchain.Types.{Transaction, Address, Hash, zero_address}
use nxchain.Txpool.World.{World}
use nxchain.Txpool.Queue.{peek}
use nxchain.Txpool.Account.{
  Account, reset, reset_demotions, reset_skips, increment_skips, get_lowest_tx,
}
use nxchain.Txpool.Accounts.{get, put}
use nxchain.Txpool.Index
use nxchain.Txpool.Pool.{Pool, EventType, update_pending, signal_event, to_hash}
use nxchain.Txpool.Pool.Add.{add_tx}
use nxchain.Txpool.Pool.Block.{clear_account_queue, drop_tx, update_account}

abbrev pub max_account_skips : ℕ
max_account_skips = 10

-- The loop of resetAccounts, with the two lists of what was pruned.
pub record ResetState : Type 0 where
  pub pool : Pool
  pub pruned_promoted : List Transaction
  pub pruned_enqueued : List Transaction

unfoldable pub send_request : Option Address → Pool → Pool
send_request none p = p
send_request (some addr) p = record p { promote_requests = p.promote_requests ++ addr ∷ [] }

unfoldable pub reset_one : Address → ℕ → Account → ResetState → Option ResetState
reset_one addr nonce account s = do
  r ← reset nonce account
  some (record {
    pool =
        send_request r.signal
          (record (s.pool) { accounts = put addr (reset_demotions r.account) s.pool.accounts });
    pruned_promoted = s.pruned_promoted ++ r.pruned_promoted;
    pruned_enqueued = s.pruned_enqueued ++ r.pruned_enqueued;
  })

unfoldable pub reset_loop : Dict ℕ → ResetState → Option ResetState
reset_loop [] s = some s
reset_loop ((addr, nonce) ∷ nonces) s = elim (get addr s.pool.accounts) [
  | none ↦ reset_loop nonces s
  | some account ↦ reset_one addr nonce account s >>= reset_loop nonces
]

-- The clean-up of what the loop pruned.
unfoldable pub clean_promoted : List Transaction → Pool → Pool
clean_promoted stale p =
    if ltb 0 (length stale)
    then update_pending (pos 0 -ℤ pos (length stale))
        (signal_event EventType.pruned_promoted (to_hash stale) (clear_account_queue stale p))
    else p

unfoldable pub clean_enqueued : List Transaction → Pool → Pool
clean_enqueued stale p =
    if ltb 0 (length stale)
    then signal_event EventType.pruned_enqueued (to_hash stale) (clear_account_queue stale p)
    else p

unfoldable pub reset_accounts : Dict ℕ → Pool → Option Pool
reset_accounts nonces p =
    let run =
      reset_loop nonces (record { pool = p; pruned_promoted = []; pruned_enqueued = [] }) >>= λ s.
      some (clean_enqueued s.pruned_enqueued (clean_promoted s.pruned_promoted s.pool)) in
    if length nonces == 0 then some p else run

-- updateAccountSkipsCounts for one account.
unfoldable pub skip_account : Dict ℕ → Address → Account → Pool → Option Pool
skip_account active addr account p =
    let account' = increment_skips account in
    let skipped = record p { accounts = put addr account' p.accounts } in
    let idle = λ (first : Transaction).
      (if ltb account'.skips max_account_skips
        then some skipped
        else drop_tx first skipped >>= update_account addr reset_skips) in
    if contains addr active
    then update_account addr reset_skips p
    else elim (get_lowest_tx account) [ none ↦ some p | some first ↦ idle first ]

-- `Range` visits the accounts that the map had at the start, each as it is by then.
unfoldable pub skip_loop : Dict ℕ → List (Address × Account) → Pool → Option Pool
skip_loop active [] p = some p
skip_loop active ((addr, _) ∷ m) p = do
  account ← get addr p.accounts
  p' ← skip_account active addr account p
  skip_loop active m p'

unfoldable pub update_account_skips_counts : Dict ℕ → Pool → Option Pool
update_account_skips_counts active p = skip_loop active p.accounts.entries p

-- pruneAccountsWithNonceHoles for one account.
unfoldable pub prune_account : Address → Account → Pool → Pool
prune_account addr account p = elim (peek account.enqueued) [
  | none ↦ p
  | some first ↦
      if first.nonce == account.next_nonce
      then p
      else clear_account_queue account.enqueued
          (record p { accounts = put addr (record account { enqueued = [] }) p.accounts })
]

unfoldable pub prune_loop : List (Address × Account) → Pool → Option Pool
prune_loop [] p = some p
prune_loop ((addr, _) ∷ m) p = do
  account ← get addr p.accounts
  prune_loop m (prune_account addr account p)

unfoldable pub prune_accounts_with_nonce_holes : Pool → Option Pool
prune_accounts_with_nonce_holes p = prune_loop p.accounts.entries p

-- The loop of processEvent over the transactions of a new block: the nonces found so far, and the
-- transactions of the old chain that are not in the new one.
pub record EventState : Type 0 where
  pub nonces : Dict ℕ
  pub old_txs : Dict Transaction

unfoldable pub sender_of : World → Transaction → Option Address
sender_of w tx = if tx.from == zero_address then w.sender tx else some tx.from

unfoldable pub note_tx : World → Transaction → EventState → EventState
note_tx w tx s = elim (sender_of w tx) [
  | none ↦ s
  | some addr ↦ if contains addr s.nonces then s else record {
    nonces = insert addr (w.get_nonce w.state_root addr) s.nonces;
    old_txs = erase tx.hash s.old_txs;
  }
]

unfoldable pub note_block : World → List Transaction → EventState → EventState
note_block w [] s = s
note_block w (tx ∷ txs) s = note_block w txs (note_tx w tx s)

-- The new chain's headers, by their hashes: a block's transactions leave the index.
unfoldable pub new_chain : World → List Hash → EventState → Pool → EventState × Pool
new_chain w [] s p = (s, p)
new_chain w (h ∷ headers) s p = elim (w.get_block_by_hash h) [
  | none ↦ new_chain w headers s p
  | some txs ↦
      new_chain w headers (note_block w txs s) (record p { index = Index.remove txs p.index })
]

unfoldable pub collect : List Transaction → Dict Transaction → Dict Transaction
collect [] old = old
collect (tx ∷ txs) old = collect txs (insert tx.hash tx old)

unfoldable pub old_chain : World → List Hash → Dict Transaction → Dict Transaction
old_chain w [] old = old
old_chain w (h ∷ headers) old = elim (w.get_block_by_hash h) [
  | none ↦ old_chain w headers old
  | some txs ↦ old_chain w headers (collect txs old)
]

-- The transactions of the old chain are added again; an error is only logged.
unfoldable pub add_back : World → Dict Transaction → Pool → Pool
add_back w [] p = p
add_back w ((h, tx) ∷ old) p = add_back w old (add_tx w tx p).1

unfoldable pub process_event : World → List Hash → List Hash → Pool → Option Pool
process_event w old_headers new_headers p = do
  let old = old_chain w old_headers []
  let (s, seen) = new_chain w new_headers (record { nonces = []; old_txs = old }) p
  reset' ← reset_accounts s.nonces (add_back w s.old_txs seen)
  let skips = update_account_skips_counts s.nonces reset'
  if reset'.sealing then some reset' else skips

unfoldable pub reset_with_headers : World → List Hash → Pool → Option Pool
reset_with_headers w headers p = process_event w [] headers p
