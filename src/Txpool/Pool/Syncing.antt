-- ===== src/Txpool/Pool/Syncing.antt =====
-- Following a new block keeps the pool's invariant, and does not panic.
use native.Mathlib.Bridge.{le_prop}
use mathlib.Core.List.Perm
use nxchain.Base.{
  ℕ, suc, ◌+◌, ◌%◌, ◌<◌, ◌≡◌, ◌∙◌, refl, sym, true, Option, none, some, List, [], ◌∷◌, ◌++◌, arith,
  All, Any, All-split, length, Yields, yields, Yields-value, Yields-then, Bool-cases, Option-cases,
  inl, inr, ltb, Perm, ◌==◌,
}
use nxchain.Base.Sums.{sum_of, sum_of-append, sum_of-perm, All-perm}
use nxchain.Base.Dict.{Dict, lookup, contains}
use nxchain.Types.{Transaction, Address, u64_mod}
use nxchain.Txpool.Priced.{IsPriced}
use nxchain.Txpool.Account.{Account, ResetResult, reset_demotions}
use nxchain.Txpool.Account.Resetting.{Resets, reset_correct}
use nxchain.Txpool.Accounts.{get, put}
use nxchain.Txpool.Gauge.{slots_of}
use nxchain.Txpool.Pool.{Pool, signal_event, update_pending}
use nxchain.Txpool.Pool.Block.{clear_account_queue}
use nxchain.Txpool.Pool.Sync.{
  ResetState, send_request, reset_one, reset_loop, clean_promoted, clean_enqueued, reset_accounts,
}
use nxchain.Txpool.Pool.Invariant.{
  Held, account_slots, total_slots, IsBook, IsPool, contains-insert_self, put-IsBook, expect-IsBook,
  Held-lookup, slots-put, decrease-total,
}
use nxchain.Txpool.Pool.Dropping.{recount-Held}

-- Inside the loop of resetAccounts the gauge still counts what was pruned.
record IsResetting (s : ResetState) : Type 0 where
  book : IsBook s.pool.accounts.entries s.pool.enqueue_requests s.pool.promote_requests
  height :
      s.pool.gauge.height
      ≡ (total_slots s.pool.accounts.entries
          + sum_of slots_of s.pruned_promoted
          + sum_of slots_of s.pruned_enqueued)
        % u64_mod
  executables : IsPriced s.pool.executables

kept-All {κ} :
    (P : Transaction → Type κ)
    → ((t : Transaction) → IsProp (P t))
    → (cut q before : List Transaction) → Perm (cut ++ q) before
    → All P before
    → All P q
kept-All P pp cut q before perm h = (All-split P cut q (All-perm P pp (Perm.symm perm) h)).1

reset-Held :
    (addr : Address) (nonce : ℕ) (a : Account) (r : ResetResult)
    → Resets nonce a r
    → Held (addr, a)
    → Held (addr, reset_demotions r.account)
unfolding reset_demotions
reset-Held addr nonce a r b h = recount-Held addr r.account 0 r.account.skips (record {
  account = b.valid;
  enqueued_from =
      kept-All (λ t. t.from ≡ addr) (λ t. hlevel) r.pruned_enqueued r.account.enqueued a.enqueued
        b.kept_enqueued h.enqueued_from;
  promoted_from =
      kept-All (λ t. t.from ≡ addr) (λ t. hlevel) r.pruned_promoted r.account.promoted a.promoted
        b.kept_promoted h.promoted_from;
  no_wrap =
      kept-All (λ t. suc t.nonce < u64_mod) (λ t. le_prop) r.pruned_enqueued r.account.enqueued
        a.enqueued b.kept_enqueued h.no_wrap;
})

reset-slots :
    (addr : Address) (nonce : ℕ) (a : Account) (r : ResetResult)
    → Resets nonce a r
    → account_slots (addr, reset_demotions r.account)
        + sum_of slots_of r.pruned_promoted
        + sum_of slots_of r.pruned_enqueued
      ≡ account_slots (addr, a)
unfolding account_slots reset_demotions
reset-slots addr nonce a r b = omega (
  arith,
  sum_of-perm slots_of b.kept_promoted,
  sum_of-perm slots_of b.kept_enqueued,
  sum_of-append slots_of r.pruned_promoted r.account.promoted,
  sum_of-append slots_of r.pruned_enqueued r.account.enqueued,
)

-- A request that `reset` sends is for the account itself.
own_signal :
    (addr other : Address) (nonce : ℕ) (q : List Transaction)
    → All (λ t. t.from ≡ addr) q
    → Any (λ t. (t.nonce ≡ nonce) × (t.from ≡ other)) q
    → other ≡ addr
own_signal addr other nonce [] h a = absurd a
own_signal addr other nonce (t ∷ q) h (inl e) = sym e.1 ∙ h.0
own_signal addr other nonce (t ∷ q) h (inr a) = own_signal addr other nonce q h.1 a

send-IsBook :
    (addr : Address) (signal : Option Address) (p : Pool)
    → ((other : Address) → signal ≡ some other → other ≡ addr)
    → contains addr p.accounts.entries ≡ true
    → IsBook p.accounts.entries p.enqueue_requests p.promote_requests
    → IsBook
        (send_request signal p).accounts.entries
        (send_request signal p).enqueue_requests
        (send_request signal p).promote_requests
unfolding send_request
send-IsBook addr none p own k b = b
send-IsBook addr (some other) p own k b =
    expect-IsBook other p.accounts.entries p.enqueue_requests p.promote_requests
      (rw (own other refl) k) b

send-rest :
    (signal : Option Address) (p : Pool)
    → ((send_request signal p).accounts ≡ p.accounts)
      × ((send_request signal p).gauge ≡ p.gauge)
      × ((send_request signal p).executables ≡ p.executables)
unfolding send_request
send-rest none p = (refl, refl, refl)
send-rest (some addr) p = (refl, refl, refl)

reset_one-keeps :
    (addr : Address) (nonce : ℕ) (a : Account) (s : ResetState)
    → lookup addr s.pool.accounts.entries ≡ some a
    → IsResetting s
    → Yields IsResetting (reset_one addr nonce a s)
unfolding reset_one put
reset_one-keeps addr nonce a s e h =
    let m = s.pool.accounts.entries in
    let held = Held-lookup addr a m h.book e in
    let (r, ran, b) = Yields-value (reset_correct nonce a held.account) in
    let a' = reset_demotions r.account in
    let p' : Pool = record (s.pool) { accounts = put addr a' s.pool.accounts } in
    let h' = reset-Held addr nonce a r b held in
    let book =
      send-IsBook addr r.signal p'
        (λ other x.
          own_signal addr other nonce r.account.enqueued
            (kept-All (λ t. t.from ≡ addr) (λ t. hlevel) r.pruned_enqueued r.account.enqueued
              a.enqueued b.kept_enqueued held.enqueued_from)
            (b.spoken other x).1)
        (contains-insert_self addr a' m)
        (put-IsBook addr a' m s.pool.enqueue_requests s.pool.promote_requests h' h.book) in
    let rest = send-rest r.signal p' in
    rw ran (
      yields _ (record {
        book = book;
        height =
            rw (rest.1, rest.0)
              (omega (
                arith,
                h.height,
                slots-put addr a a' m e,
                reset-slots addr nonce a r b,
                sum_of-append slots_of s.pruned_promoted r.pruned_promoted,
                sum_of-append slots_of s.pruned_enqueued r.pruned_enqueued,
              ));
        executables = rw (rest.2) h.executables;
      }))

reset_loop-keeps :
    (nonces : Dict ℕ) (s : ResetState) → IsResetting s → Yields IsResetting (reset_loop nonces s)
unfolding reset_loop get
reset_loop-keeps [] s h = yields s h
reset_loop-keeps ((addr, nonce) ∷ nonces) s h =
    elim (Option-cases (lookup addr s.pool.accounts.entries)) [
      | inl unknown ↦ rw (unknown, reset_loop) (reset_loop-keeps nonces s h)
      | inr (a, e) ↦
          rw (e, reset_loop)
            (Yields-then (reset_one-keeps addr nonce a s e h)
              λ s' h'. reset_loop-keeps nonces s' h')
    ]

-- The pool while transactions have left the queues and not the gauge.
record IsStale (stale : ℕ) (p : Pool) : Type 0 where
  book : IsBook p.accounts.entries p.enqueue_requests p.promote_requests
  height : p.gauge.height ≡ (total_slots p.accounts.entries + stale) % u64_mod
  executables : IsPriced p.executables

clean_promoted-keeps :
    (stale : List Transaction) (n : ℕ) (p : Pool)
    → IsStale (sum_of slots_of stale + n) p
    → IsStale n (clean_promoted stale p)
unfolding clean_promoted clear_account_queue signal_event update_pending
clean_promoted-keeps [] n p h = record {
  book = h.book;
  height = omega (arith, h.height);
  executables = h.executables;
}
clean_promoted-keeps (tx ∷ txs) n p h = elim (Bool-cases (ltb 0 (length (tx ∷ txs)))) [
  | inr none_left ↦ absurd (ground arith)
  | inl more ↦ rw more (record {
    book = h.book;
    height =
        decrease-total (tx ∷ txs) p _ (total_slots p.accounts.entries + n) h.height (omega arith);
    executables = h.executables;
  })
]

clean_enqueued-keeps :
    (stale : List Transaction) (p : Pool)
    → IsStale (sum_of slots_of stale) p
    → IsPool (clean_enqueued stale p)
unfolding clean_enqueued clear_account_queue signal_event
clean_enqueued-keeps [] p h = record {
  book = h.book;
  height = omega (arith, h.height);
  executables = h.executables;
}
clean_enqueued-keeps (tx ∷ txs) p h = elim (Bool-cases (ltb 0 (length (tx ∷ txs)))) [
  | inr none_left ↦ absurd (ground arith)
  | inl more ↦ rw more (record {
    book = h.book;
    height = decrease-total (tx ∷ txs) p _ (total_slots p.accounts.entries) h.height (omega arith);
    executables = h.executables;
  })
]

-- resetAccounts never panics, and keeps the invariant.
pub reset_accounts-IsPool :
    (nonces : Dict ℕ) (p : Pool) → IsPool p → Yields IsPool (reset_accounts nonces p)
unfolding reset_accounts
reset_accounts-IsPool nonces p h = elim (Bool-cases (length nonces == 0)) [
  | inl none_left ↦ rw none_left (yields p h)
  | inr more ↦ rw more (
      Yields-then
        (reset_loop-keeps nonces (record { pool = p; pruned_promoted = []; pruned_enqueued = [] })
          (record { book = h.book; height = omega (arith, h.height); executables = h.executables }))
        (λ s k. yields _ (
          clean_enqueued-keeps s.pruned_enqueued (clean_promoted s.pruned_promoted s.pool) (
            clean_promoted-keeps s.pruned_promoted (sum_of slots_of s.pruned_enqueued) s.pool
              (record {
                book = k.book;
                height = omega (arith, k.height);
                executables = k.executables;
              })))))
]
