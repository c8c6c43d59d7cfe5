-- ===== src/Txpool/Pool/Dropping.antt =====
-- Drop and Demote keep the pool's invariant, and do not panic.
use nxchain.Base.{
  ℕ, ◌+◌, ◌%◌, ◌≡◌, refl, true, some, arith, Yields, yields, Yields-value, Yields-then,
  Yields-weaken, Bool-cases, Option-cases, inl, inr, leb,
}
use nxchain.Base.Sums.{sum_of}
use nxchain.Base.Dict.{lookup, contains, insert}
use nxchain.Types.{Transaction, Address, u64_mod}
use nxchain.Txpool.Account.{Account, reset_demotions, increment_demotions}
use nxchain.Txpool.Accounts.{get, put}
use nxchain.Txpool.Queue
use nxchain.Txpool.Queue.{Queue, peek}
use nxchain.Txpool.Gauge.{slots_of, slots_required, decrease}
use nxchain.Txpool.Pool.{Pool, signal_event, update_pending}
use nxchain.Txpool.Pool.Block.{
  clear_account_queue, dropped_account, drop_tx, update_account, demote_tx, max_account_demotions,
}
use nxchain.Txpool.Pool.Invariant.{
  Held, account_slots, total_slots, IsPool, contains-insert_self, contains-lookup, put-IsBook,
  Held-lookup, slots-put, decrease-total,
}

dropped-Held : (addr : Address) (nonce : ℕ) (a : Account) → Held (addr, dropped_account nonce a)
unfolding dropped_account
dropped-Held addr nonce a = record {
  account = record {
    enqueued_valid = λ c h k. absurd (omega arith);
    promoted_valid = λ c h k. absurd (omega arith);
    waiting = tt;
    ready = tt;
    bounded = omega arith;
  };
  enqueued_from = tt;
  promoted_from = tt;
  no_wrap = tt;
}

dropped-slots :
    (addr : Address) (nonce : ℕ) (a : Account)
    → account_slots (addr, dropped_account nonce a)
        + sum_of slots_of a.enqueued
        + sum_of slots_of a.promoted
      ≡ account_slots (addr, a)
unfolding account_slots dropped_account
dropped-slots addr nonce a = omega arith

-- On a pool that holds its invariant, Drop does not panic where the sender has an account, and the
-- pool holds its invariant again.
pub drop_tx-IsPool :
    (tx : Transaction) (p : Pool)
    → contains tx.from p.accounts.entries ≡ true
    → IsPool p
    → Yields IsPool (drop_tx tx p)
unfolding drop_tx get put update_pending signal_event clear_account_queue Queue.clear
drop_tx-IsPool tx p k h =
    let m = p.accounts.entries in
    let (a, e) = contains-lookup tx.from m k in
    let a' = dropped_account tx.nonce a in
    let total = total_slots (insert tx.from a' m) in
    let once : (decrease (slots_required a.promoted) p.gauge).height
        ≡ (total + sum_of slots_of a.enqueued) % u64_mod =
      decrease-total a.promoted p (total_slots m) (total + sum_of slots_of a.enqueued) h.height
        (omega (arith, slots-put tx.from a a' m e, dropped-slots tx.from tx.nonce a)) in
    let mid : Pool = record p { gauge = decrease (slots_required a.promoted) p.gauge } in
    rw e (
      yields _ (record {
        book =
            put-IsBook tx.from a' m p.enqueue_requests p.promote_requests
              (dropped-Held tx.from tx.nonce a) h.book;
        height =
            decrease-total a.enqueued mid (total + sum_of slots_of a.enqueued) total once
              (omega arith);
        executables = h.executables;
      }))

-- A change of an account's counters alone.
pub record KeepsQueues (f : Account → Account) : Type 0 where
  pub held : (addr : Address) (a : Account) → Held (addr, a) → Held (addr, f a)
  pub slots : (addr : Address) (a : Account) → account_slots (addr, f a) ≡ account_slots (addr, a)

pub recount-Held :
    (addr : Address) (a : Account) (n k : ℕ)
    → Held (addr, a)
    → Held (addr, record a { demotions = n; skips = k })
recount-Held addr a n k h = record {
  account = record {
    enqueued_valid = h.account.enqueued_valid;
    promoted_valid = h.account.promoted_valid;
    waiting = h.account.waiting;
    ready = h.account.ready;
    bounded = h.account.bounded;
  };
  enqueued_from = h.enqueued_from;
  promoted_from = h.promoted_from;
  no_wrap = h.no_wrap;
}

reset_demotions-KeepsQueues : KeepsQueues reset_demotions
unfolding reset_demotions account_slots
reset_demotions-KeepsQueues = record {
  held = λ addr a h. recount-Held addr a 0 a.skips h;
  slots = λ addr a. refl;
}

increment_demotions-KeepsQueues : KeepsQueues increment_demotions
unfolding increment_demotions account_slots
increment_demotions-KeepsQueues = record {
  held = λ addr a h. recount-Held addr a ((a.demotions + 1) % u64_mod) a.skips h;
  slots = λ addr a. refl;
}

pub update-IsPool :
    (addr : Address) (f : Account → Account) (p : Pool)
    → KeepsQueues f
    → contains addr p.accounts.entries ≡ true
    → IsPool p
    → Yields
        (λ p'. IsPool p' × (contains addr p'.accounts.entries ≡ true))
        (update_account addr f p)
unfolding update_account get put
update-IsPool addr f p f_keeps k h =
    let m = p.accounts.entries in
    let (a, e) = contains-lookup addr m k in
    rw e (
      yields _ (
        record {
          book =
              put-IsBook addr (f a) m p.enqueue_requests p.promote_requests
                (f_keeps.held addr a (Held-lookup addr a m h.book e)) h.book;
          height = omega (arith, h.height, slots-put addr a (f a) m e, f_keeps.slots addr a);
          executables = h.executables;
        },
        contains-insert_self addr (f a) m,
      ))

-- The account that was dropped is still there.
pub drop_tx-contains :
    (tx : Transaction) (p p' : Pool)
    → drop_tx tx p ≡ some p'
    → contains tx.from p'.accounts.entries ≡ true
unfolding drop_tx get put update_pending signal_event clear_account_queue
drop_tx-contains tx p p' h = elim (Option-cases (lookup tx.from p.accounts.entries)) [
  | inl gone ↦ absurd (ground arith)
  | inr (a, e) ↦
      let same : (insert tx.from (dropped_account tx.nonce a) p.accounts.entries)
          ≡ p'.accounts.entries =
        ground arith in
      rw (← same) (contains-insert_self tx.from (dropped_account tx.nonce a) p.accounts.entries)
]

-- Demote does not panic where the sender has an account, and keeps the invariant.
pub demote_tx-IsPool :
    (tx : Transaction) (p : Pool)
    → contains tx.from p.accounts.entries ≡ true
    → IsPool p
    → Yields IsPool (demote_tx tx p)
unfolding demote_tx get signal_event
demote_tx-IsPool tx p k h =
    let (a, e) = contains-lookup tx.from p.accounts.entries k in
    let (q, dropped, d) = Yields-value (drop_tx-IsPool tx p k h) in
    let out =
      update-IsPool tx.from reset_demotions q reset_demotions-KeepsQueues
        (drop_tx-contains tx p q dropped) d in
    let kept = update-IsPool tx.from increment_demotions p increment_demotions-KeepsQueues k h in
    elim (Bool-cases (leb max_account_demotions a.demotions)) [
      | inl often ↦ rw (e, often, dropped) (Yields-weaken out (λ p' s. s.0))
      | inr seldom ↦
          rw (e, seldom)
            (Yields-then kept λ p' s.
              yields _
                (record { book = s.0.book; height = s.0.height; executables = s.0.executables }))
    ]
