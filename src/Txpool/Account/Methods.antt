-- ===== src/Txpool/Account/Methods.antt =====
-- txpool/account.go: what `enqueue` and `promote` do to an account.
use native.Mathlib.Bridge.{le_prop}
use mathlib.Core.List.Perm
use mathlib.Core.Path.{subst}
use mathlib.Core.Option.{some-injective}
use nxchain.Base.{
  if◌then◌else◌, ℕ, ◌+◌, ◌≤◌, ◌<◌, ◌≡◌, ◌≢◌, refl, Option, none, some, List, [], ◌∷◌, ◌++◌, Perm,
  arith, length, All, Any, All-weaken, All-append, Yields, yields, Yields-value, Bool-cases,
  Option-cases, inl, inr, ◌==◌, ltb, length-append,
}
use nxchain.Base.Arrays.{length-perm}
use nxchain.Base.Sums.{All-perm}
use nxchain.Types.{Transaction}
use nxchain.Txpool.Errors.{PoolError, max_enqueued_limit_reached, nonce_too_low}
use nxchain.Txpool.Queue.{Queue, peek}
use nxchain.Txpool.Queue.Order.{IsQueue, peek-least}
use nxchain.Txpool.Queue.Laws.{push_adds, peek-none}
use nxchain.Txpool.Account.{Account, enqueue, promote, Promoting}
use nxchain.Txpool.Account.Invariant.{IsAccount}
use nxchain.Txpool.Account.Promotion.{
  IsRun, IsWorse, NoWrap, IsRun-below, Promotes, promote_loop-Promotes,
}

-- How `enqueue` ends: a full queue and a low nonce are refused and change nothing, and any other
-- transaction is added.
pub data Enqueues (tx : Transaction) (a : Account) : Option PoolError × Account → Type 0 where
  full : length a.enqueued ≡ a.max_enqueued → Enqueues tx a (some max_enqueued_limit_reached, a)
  low :
      length a.enqueued ≢ a.max_enqueued
      → tx.nonce < a.next_nonce
      → Enqueues tx a (some nonce_too_low, a)
  added :
      (q : Queue)
      → length a.enqueued ≢ a.max_enqueued
      → a.next_nonce ≤ tx.nonce
      → Perm q (tx ∷ a.enqueued)
      → Enqueues tx a (none, record a { enqueued = q })

enqueued-IsAccount :
    (tx : Transaction) (a : Account) (q : Queue)
    → IsAccount a
    → length a.enqueued ≢ a.max_enqueued
    → a.next_nonce ≤ tx.nonce
    → IsQueue q
    → Perm q (tx ∷ a.enqueued)
    → IsAccount (record a { enqueued = q })
enqueued-IsAccount tx a q h room k valid perm = record {
  enqueued_valid = valid;
  promoted_valid = h.promoted_valid;
  waiting = All-perm (λ t. a.next_nonce ≤ t.nonce) (λ t. le_prop) (Perm.symm perm) (k, h.waiting);
  ready = h.ready;
  bounded = omega (arith, length-perm perm, h.bounded);
}

-- On a valid account, enqueue never panics, keeps the account's invariant, and ends in one of the
-- three ways: it refuses a transaction on a full queue, else one with a nonce below the account's,
-- and changes nothing; or it adds exactly the transaction.
pub enqueue_correct :
    (tx : Transaction) (a : Account)
    → IsAccount a
    → Yields (λ r. Enqueues tx a r × IsAccount r.1) (enqueue tx a)
unfolding enqueue
enqueue_correct tx a h = elim (Bool-cases (length a.enqueued == a.max_enqueued)) [
  | inl at_limit ↦ rw at_limit (yields _ (Enqueues.full (ground arith), h))
  | inr room ↦ rw room (elim (Bool-cases (ltb tx.nonce a.next_nonce)) [
    | inl below ↦ rw below (yields _ (Enqueues.low (ground arith) (ground arith), h))
    | inr high ↦ rw high (
        let (q, pushed, s) = Yields-value (push_adds tx a.enqueued h.enqueued_valid) in
        rw pushed (
          yields _ (
            Enqueues.added q (ground arith) (ground arith) s.1,
            enqueued-IsAccount tx a q h (ground arith) (ground arith) s.0 s.1,
          )))
  ])
]

-- How `promote` ends.
pub record Promoted (a : Account) (r : List Transaction × List Transaction × Account) : Type 0 where
  pub valid : IsAccount r.2
  pub consecutive : IsRun a.next_nonce r.0
  pub nonce : r.2.next_nonce ≡ a.next_nonce + length r.0
  pub kept : Perm (r.0 ++ (r.1 ++ r.2.enqueued)) a.enqueued
  pub added : Perm r.2.promoted (r.0 ++ a.promoted)
  pub complete : All (λ t. r.2.next_nonce < t.nonce) r.2.enqueued
  pub worse : All (λ t. Any (IsWorse t) r.0) r.1
  pub counters :
      (r.2.demotions ≡ a.demotions) × (r.2.skips ≡ a.skips) × (r.2.max_enqueued ≡ a.max_enqueued)

promotes_none :
    (a : Account)
    → IsAccount a
    → All (λ t. a.next_nonce < t.nonce) a.enqueued
    → Promoted a ([], [], a)
promotes_none a h beyond = record {
  valid = h;
  consecutive = tt;
  nonce = omega arith;
  kept = Perm.rfl;
  added = Perm.rfl;
  complete = beyond;
  worse = tt;
  counters = (refl, refl, refl);
}

abbrev starting : Account → ℕ → Promoting
starting a n = record {
  next = n;
  waiting = a.enqueued;
  ready = a.promoted;
  moved = [];
  dropped = [];
}

Promotes-run :
    (a : Account) (q : Promoting)
    → IsAccount a
    → (b : Promotes (starting a a.next_nonce) q)
    → Promoted a (
      q.moved,
      q.dropped,
      record a {
        enqueued = q.waiting;
        promoted = q.ready;
        next_nonce = if ltb a.next_nonce q.next then q.next else a.next_nonce;
      },
    )
Promotes-run a q h b =
    let raised : (if ltb a.next_nonce q.next then q.next else a.next_nonce) ≡ q.next =
      ground (arith, b.next) in
    let below =
      All-weaken (λ t. t.nonce < a.next_nonce + length b.run) (λ t. t.nonce < q.next) b.run
        (λ t k. omega (arith, b.next)) (IsRun-below a.next_nonce b.run b.consecutive) in
    let old =
      All-weaken (λ t. t.nonce < a.next_nonce) (λ t. t.nonce < q.next) a.promoted
        (λ t k. omega (arith, b.next)) h.ready in
    rw (raised, b.moved, b.dropped)
      (record {
        valid = record {
          enqueued_valid = b.waiting_valid;
          promoted_valid = b.ready_valid;
          waiting =
              All-weaken (λ t. q.next < t.nonce) (λ t. q.next ≤ t.nonce) q.waiting
                (λ t k. omega arith) b.beyond;
          ready =
              All-perm (λ t. t.nonce < q.next) (λ t. le_prop) (Perm.symm b.added)
                (All-append (λ t. t.nonce < q.next) b.run a.promoted below old);
          bounded = omega (
            arith,
            h.bounded,
            length-perm b.kept,
            length-append b.run (b.cut ++ q.waiting),
            length-append b.cut q.waiting,
          );
        };
        consecutive = b.consecutive;
        nonce = b.next;
        kept = b.kept;
        added = b.added;
        complete = b.beyond;
        worse = b.worse;
        counters = (refl, refl, refl);
      })

pub peek-waiting :
    (n : ℕ) (q : Queue) (tx : Transaction)
    → peek q ≡ some tx
    → All (λ t. n ≤ t.nonce) q
    → n ≤ tx.nonce
unfolding peek
peek-waiting n [] tx e h = cc
peek-waiting n (x ∷ q) tx e h = subst (λ (t : Transaction). n ≤ t.nonce) (some-injective x tx e) h.0

-- On a valid account, promote never panics and keeps the account's invariant. It promotes a run of
-- consecutive nonces from the account's nonce on and raises the nonce by their number; what it
-- prunes has the nonce of a promoted transaction and no higher price; all else stays enqueued, and
-- has a nonce above the new one. The condition is that no enqueued nonce is the last of a uint64.
pub promote_correct :
    (a : Account) → IsAccount a → NoWrap a.enqueued → Yields (Promoted a) (promote a)
unfolding promote
promote_correct a h wraps = elim (Option-cases (peek a.enqueued)) [
  | inl empty ↦
      rw (empty, promote)
        (yields ([], [], a) (promotes_none a h (rw (peek-none a.enqueued empty) tt)))
  | inr (tx, e) ↦
      rw (e, promote)
        (elim (Bool-cases (ltb a.next_nonce tx.nonce)) [
          | inl beyond ↦ rw beyond (
              yields ([], [], a)
                (promotes_none a h (
                  All-weaken (λ t. tx.nonce ≤ t.nonce) (λ t. a.next_nonce < t.nonce) a.enqueued
                    (λ t k. ground arith) (peek-least a.enqueued tx h.enqueued_valid e))))
          | inr here ↦
              let first : tx.nonce ≡ a.next_nonce =
                ground (arith, peek-waiting a.next_nonce a.enqueued tx e h.waiting) in
              let (q, ran, b) = Yields-value (
                promote_loop-Promotes (length a.enqueued) (starting a a.next_nonce) (omega arith)
                  (record {
                    waiting_valid = h.enqueued_valid;
                    ready_valid = h.promoted_valid;
                    expected = h.waiting;
                    no_wrap = wraps;
                  })) in
              rw (here, first, ran) (yields _ (Promotes-run a q h b))
        ])
]
