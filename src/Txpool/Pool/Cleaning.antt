-- ===== src/Txpool/Pool/Cleaning.antt =====
-- The clean-up of idle accounts and of nonce holes keeps the pool's invariant, and does not panic.
use mathlib.Core.Path.{subst}
use mathlib.Core.Option.{some-injective}
use nxchain.Base.{
  ◌>>=◌, ℕ, ◌+◌, ◌%◌, ◌≡◌, refl, true, Option, some, List, [], ◌∷◌, arith, All, All-weaken, Yields,
  yields, Yields-value, Yields-then, Yields-weaken, Bool-cases, Option-cases, inl, inr, ltb, ◌==◌,
  if◌then◌else◌,
}
use nxchain.Base.Dict.{Dict, lookup, contains, insert}
use nxchain.Types.{Transaction, Address, u64_mod}
use nxchain.Txpool.Queue.{Queue, peek}
use nxchain.Txpool.Account.{Account, reset_skips, increment_skips, get_lowest_tx}
use nxchain.Txpool.Accounts.{get, put}
use nxchain.Txpool.Pool.{Pool, signal_event, update_pending}
use nxchain.Txpool.Pool.Block.{clear_account_queue, drop_tx, update_account, dropped_account}
use nxchain.Txpool.Pool.Sync.{
  skip_account, skip_loop, update_account_skips_counts, prune_account, prune_loop,
  prune_accounts_with_nonce_holes, max_account_skips,
}
use nxchain.Txpool.Pool.Invariant.{
  Held, account_slots, total_slots, IsPool, contains-insert, contains-insert_self, contains-lookup,
  put-IsBook, Held-lookup, slots-put, decrease-total,
}
use nxchain.Txpool.Pool.Dropping.{KeepsQueues, recount-Held, update-IsPool, drop_tx-IsPool}

-- No account is lost.
abbrev Grows : Pool → Pool → Type 0
Grows p p' =
    (j : Address) → contains j p.accounts.entries ≡ true → contains j p'.accounts.entries ≡ true

-- An operation that keeps the invariant and the accounts.
abbrev KeepsPool : Pool → Option Pool → Type 0
KeepsPool p r = Yields (λ p'. IsPool p' × Grows p p') r

drop_tx-Grows : (tx : Transaction) (p p' : Pool) → drop_tx tx p ≡ some p' → Grows p p'
unfolding drop_tx get put update_pending signal_event clear_account_queue
drop_tx-Grows tx p p' h j k = elim (Option-cases (lookup tx.from p.accounts.entries)) [
  | inl gone ↦ absurd (ground arith)
  | inr (a, e) ↦
      let same : (insert tx.from (dropped_account tx.nonce a) p.accounts.entries)
          ≡ p'.accounts.entries =
        ground arith in
      rw (← same) (contains-insert tx.from j (dropped_account tx.nonce a) p.accounts.entries k)
]

update-Grows :
    (addr : Address) (f : Account → Account) (p p' : Pool)
    → update_account addr f p ≡ some p'
    → Grows p p'
unfolding update_account get put
update-Grows addr f p p' h j k = elim (Option-cases (lookup addr p.accounts.entries)) [
  | inl gone ↦ absurd (ground arith)
  | inr (a, e) ↦
      let same : (insert addr (f a) p.accounts.entries) ≡ p'.accounts.entries = ground arith in
      rw (← same) (contains-insert addr j (f a) p.accounts.entries k)
]

reset_skips-KeepsQueues : KeepsQueues reset_skips
unfolding reset_skips account_slots
reset_skips-KeepsQueues = record {
  held = λ addr a h. recount-Held addr a a.demotions 0 h;
  slots = λ addr a. refl;
}

increment_skips-KeepsQueues : KeepsQueues increment_skips
unfolding increment_skips account_slots
increment_skips-KeepsQueues = record {
  held = λ addr a h. recount-Held addr a a.demotions ((a.skips + 1) % u64_mod) h;
  slots = λ addr a. refl;
}

update-keeps :
    (addr : Address) (f : Account → Account) (p : Pool)
    → KeepsQueues f
    → contains addr p.accounts.entries ≡ true
    → IsPool p
    → KeepsPool p (update_account addr f p)
update-keeps addr f p f_keeps k h =
    let (p', ran, s) = Yields-value (update-IsPool addr f p f_keeps k h) in
    rw ran (yields p' (s.0, update-Grows addr f p p' ran))

drop-keeps :
    (tx : Transaction) (p : Pool)
    → contains tx.from p.accounts.entries ≡ true
    → IsPool p
    → KeepsPool p (drop_tx tx p)
drop-keeps tx p k h =
    let (p', ran, s) = Yields-value (drop_tx-IsPool tx p k h) in
    rw ran (yields p' (s, drop_tx-Grows tx p p' ran))

keeps-then :
    (p : Pool) (r : Option Pool) (f : Pool → Option Pool)
    → KeepsPool p r
    → ((q : Pool) → IsPool q → Grows p q → KeepsPool q (f q))
    → KeepsPool p (r >>= f)
keeps-then p r f h k =
    Yields-then h λ q s. Yields-weaken (k q s.0 s.1) (λ t u. (u.0, λ j c. u.1 j (s.1 j c)))

peek-from :
    (addr : Address) (q : Queue) (tx : Transaction)
    → All (λ t. t.from ≡ addr) q
    → peek q ≡ some tx
    → tx.from ≡ addr
unfolding peek
peek-from addr [] tx h e = cc
peek-from addr (x ∷ q) tx h e =
    subst (λ (t : Transaction). t.from ≡ addr) (some-injective x tx e) h.0

lowest-from :
    (addr : Address) (a : Account) (tx : Transaction)
    → Held (addr, a)
    → get_lowest_tx a ≡ some tx
    → tx.from ≡ addr
unfolding get_lowest_tx
lowest-from addr a tx h e = elim (Option-cases (peek a.promoted)) [
  | inl none_left ↦ peek-from addr a.enqueued tx h.enqueued_from (ground arith)
  | inr (first, f) ↦ peek-from addr a.promoted tx h.promoted_from (ground arith)
]

put_skipped-IsPool :
    (addr : Address) (a : Account) (p : Pool)
    → lookup addr p.accounts.entries ≡ some a
    → IsPool p
    → IsPool (record p { accounts = put addr (increment_skips a) p.accounts })
unfolding put
put_skipped-IsPool addr a p e h =
    let m = p.accounts.entries in
    let keeps = increment_skips-KeepsQueues in
    record {
      book =
          put-IsBook addr (increment_skips a) m p.enqueue_requests p.promote_requests
            (keeps.held addr a (Held-lookup addr a m h.book e)) h.book;
      height =
          omega (arith, h.height, slots-put addr a (increment_skips a) m e, keeps.slots addr a);
      executables = h.executables;
    }

-- An account with transactions that no new block held.
idle-keeps :
    (addr : Address) (a : Account) (tx : Transaction) (p : Pool)
    → lookup addr p.accounts.entries ≡ some a
    → tx.from ≡ addr
    → IsPool p
    → let p' = record p { accounts = put addr (increment_skips a) p.accounts } in
      KeepsPool p (
        if ltb (increment_skips a).skips max_account_skips
        then some p'
        else drop_tx tx p' >>= update_account addr reset_skips)
unfolding put
idle-keeps addr a tx p e own h =
    let p' = record p { accounts = put addr (increment_skips a) p.accounts } in
    let h' = put_skipped-IsPool addr a p e h in
    let there = contains-insert_self addr (increment_skips a) p.accounts.entries in
    let grows : Grows p p' =
      λ j c. contains-insert addr j (increment_skips a) p.accounts.entries c in
    let out =
      keeps-then p' (drop_tx tx p') (update_account addr reset_skips)
        (drop-keeps tx p' (rw own there) h')
        (λ q s g. update-keeps addr reset_skips q reset_skips-KeepsQueues (g addr there) s) in
    elim (Bool-cases (ltb (increment_skips a).skips max_account_skips)) [
      | inl few ↦ rw few (yields p' (h', grows))
      | inr many ↦ rw many (Yields-weaken out (λ q s. (s.0, λ j c. s.1 j (grows j c))))
    ]

skip_account-keeps :
    (active : Dict ℕ) (addr : Address) (a : Account) (p : Pool)
    → lookup addr p.accounts.entries ≡ some a
    → IsPool p
    → KeepsPool p (skip_account active addr a p)
unfolding skip_account
skip_account-keeps active addr a p e h =
    let k : contains addr p.accounts.entries ≡ true = ground arith in
    elim (Bool-cases (contains addr active)) [
      | inl seen ↦ rw seen (update-keeps addr reset_skips p reset_skips-KeepsQueues k h)
      | inr idle ↦ rw idle (elim (Option-cases (get_lowest_tx a)) [
        | inl no_txs ↦ rw (no_txs, skip_account) (yields p (h, λ j c. c))
        | inr (tx, low) ↦
            rw (low, skip_account)
              (idle-keeps addr a tx p e
                (lowest-from addr a tx (Held-lookup addr a p.accounts.entries h.book e) low) h)
      ])
    ]

-- The accounts of a list are all there.
abbrev AllThere : List (Address × Account) → Pool → Type 0
AllThere l p = All (λ e. contains e.0 p.accounts.entries ≡ true) l

there-later : (l : List (Address × Account)) (p q : Pool) → Grows p q → AllThere l p → AllThere l q
there-later l p q g h =
    All-weaken (λ e. contains e.0 p.accounts.entries ≡ true)
      (λ e. contains e.0 q.accounts.entries ≡ true) l (λ e c. g e.0 c) h

all_there : (m : Dict Account) → All (λ e. contains e.0 m ≡ true) m
all_there [] = tt
all_there ((addr, a) ∷ m) = (
  ground arith,
  All-weaken (λ e. contains e.0 m ≡ true) (λ e. contains e.0 ((addr, a) ∷ m) ≡ true) m
      (λ e c. ground arith) (all_there m),
)

skip_loop-keeps :
    (active : Dict ℕ) (l : List (Address × Account)) (p : Pool)
    → AllThere l p
    → IsPool p
    → Yields IsPool (skip_loop active l p)
unfolding skip_loop get
skip_loop-keeps active [] p k h = yields p h
skip_loop-keeps active ((addr, b) ∷ l) p k h =
    let (a, e) = contains-lookup addr p.accounts.entries k.0 in
    rw e (
      Yields-then (skip_account-keeps active addr a p e h)
        λ q s. skip_loop-keeps active l q (there-later l p q s.1 k.1) s.0)

-- updateAccountSkipsCounts never panics, and keeps the invariant.
pub skips-IsPool :
    (active : Dict ℕ) (p : Pool) → IsPool p → Yields IsPool (update_account_skips_counts active p)
unfolding update_account_skips_counts
skips-IsPool active p h =
    skip_loop-keeps active p.accounts.entries p (all_there p.accounts.entries) h

cleared-Held :
    (addr : Address) (a : Account) → Held (addr, a) → Held (addr, record a { enqueued = [] })
cleared-Held addr a h = record {
  account = record {
    enqueued_valid = λ c p q. absurd (omega arith);
    promoted_valid = h.account.promoted_valid;
    waiting = tt;
    ready = h.account.ready;
    bounded = omega arith;
  };
  enqueued_from = tt;
  promoted_from = h.promoted_from;
  no_wrap = tt;
}

prune_account-keeps :
    (addr : Address) (a : Account) (p : Pool)
    → lookup addr p.accounts.entries ≡ some a
    → IsPool p
    → IsPool (prune_account addr a p) × Grows p (prune_account addr a p)
unfolding prune_account clear_account_queue put account_slots
prune_account-keeps addr a p e h =
    let m = p.accounts.entries in
    let a' = record a { enqueued = [] } in
    let cleared : IsPool
        (clear_account_queue a.enqueued (record p { accounts = put addr a' p.accounts })) =
      record {
        book =
            put-IsBook addr a' m p.enqueue_requests p.promote_requests
              (cleared-Held addr a (Held-lookup addr a m h.book e)) h.book;
        height =
            decrease-total a.enqueued p (total_slots m) (total_slots (insert addr a' m)) h.height
              (omega (arith, slots-put addr a a' m e));
        executables = h.executables;
      } in
    elim (Option-cases (peek a.enqueued)) [
      | inl none_left ↦ rw (none_left, prune_account) (h, λ j c. c)
      | inr (tx, first) ↦
          rw (first, prune_account)
            (elim (Bool-cases (tx.nonce == a.next_nonce)) [
              | inl due ↦ rw due (h, λ j c. c)
              | inr hole ↦ rw hole (cleared, λ j c. contains-insert addr j a' m c)
            ])
    ]

prune_loop-keeps :
    (l : List (Address × Account)) (p : Pool)
    → AllThere l p
    → IsPool p
    → Yields IsPool (prune_loop l p)
unfolding prune_loop get
prune_loop-keeps [] p k h = yields p h
prune_loop-keeps ((addr, b) ∷ l) p k h =
    let (a, e) = contains-lookup addr p.accounts.entries k.0 in
    let s = prune_account-keeps addr a p e h in
    rw e (
      prune_loop-keeps l (prune_account addr a p) (there-later l p (prune_account addr a p) s.1 k.1)
        s.0)

-- On a pool that holds its invariant, pruneAccountsWithNonceHoles does not panic, and the pool holds
-- its invariant again.
pub prune_holes-IsPool : (p : Pool) → IsPool p → Yields IsPool (prune_accounts_with_nonce_holes p)
unfolding prune_accounts_with_nonce_holes
prune_holes-IsPool p h = prune_loop-keeps p.accounts.entries p (all_there p.accounts.entries) h
