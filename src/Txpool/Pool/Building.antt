-- ===== src/Txpool/Pool/Building.antt =====
-- What block building does keeps the pool's invariant, and does not panic.
use native.Mathlib.Bridge.{le_prop}
use mathlib.Core.List.Perm
use mathlib.Core.List.{perm_middle, append-nil}
use mathlib.Core.Path.{subst, sym}
use nxchain.Base.{
  if◌then◌else◌, ◌+◌, ◌<◌, ◌≡◌, refl, some, List, [], ◌∷◌, ◌++◌, arith, length, Yields, yields,
  Yields-value, Yields-then, Yields-weaken, Bool-cases, Option-cases, inl, inr, Perm, ◌==◌, ◌⊎◌,
}
use nxchain.Base.Sums.{sum_of, sum_of-perm, All-perm}
use nxchain.Base.Dict.{lookup, insert}
use nxchain.Types.{Transaction, Address}
use nxchain.Txpool.Account.{Account, reset_demotions}
use nxchain.Txpool.Accounts.{get, put, get_primaries, primaries_of}
use nxchain.Txpool.Queue.{Queue, peek}
use nxchain.Txpool.Queue.Order.{IsQueue}
use nxchain.Txpool.Queue.Laws.{pop_takes}
use nxchain.Txpool.Priced
use nxchain.Txpool.Priced.{IsPriced, IsPriced-push_adds, pop_best, TakenBest}
use nxchain.Txpool.Gauge.{slots_of}
use nxchain.Txpool.Pool.{Pool, update_pending}
use nxchain.Txpool.Pool.Block.{push_all, prepare, peek_best, push_next, pop_tx}
use nxchain.Txpool.Pool.Invariant.{
  Held, account_slots, total_slots, IsPool, put-IsBook, Held-lookup, slots-put, decrease-total,
}

push_all-adds :
    (txs : List Transaction) (q : Queue)
    → IsPriced q
    → Yields (λ q'. IsPriced q' × Perm q' (txs ++ q)) (push_all txs q)
unfolding push_all
push_all-adds [] q h = yields q (h, Perm.rfl)
push_all-adds (tx ∷ txs) q h = Yields-then (IsPriced-push_adds tx q h) λ q' s.
    Yields-weaken (push_all-adds txs q' s.0)
      (λ r t. (t.0, Perm.trans t.1 (Perm.trans (Perm.append_left txs s.1) (perm_middle txs q))))

-- A head of each promoted queue that has one: the first entry of the queue's array, in the accounts' order.
pub data PromotedHeads : List (Address × Account) → List Transaction → Type 0 where
  no_account : PromotedHeads [] []
  no_promoted :
      {addr : Address} {a : Account} {m : List (Address × Account)} {txs : List Transaction}
      → a.promoted ≡ []
      → PromotedHeads m txs
      → PromotedHeads ((addr, a) ∷ m) txs
  head :
      {addr : Address} {a : Account} {m : List (Address × Account)} {txs : List Transaction}
      {tx : Transaction} {q : Queue}
      → a.promoted ≡ tx ∷ q
      → PromotedHeads m txs
      → PromotedHeads ((addr, a) ∷ m) (tx ∷ txs)

List-cases : (q : Queue) → (q ≡ []) ⊎ ((tx : Transaction) × (rest : Queue) × (q ≡ tx ∷ rest))
List-cases [] = inl refl
List-cases (tx ∷ q) = inr (tx, q, refl)

module _ (addr : Address) (a : Account) (m : List (Address × Account)) where
  primaries-none : a.promoted ≡ [] → primaries_of ((addr, a) ∷ m) ≡ primaries_of m
  unfolding primaries_of peek
  primaries-none e = ground (arith, e)

  primaries-some :
      (tx : Transaction) (q : Queue)
      → a.promoted ≡ tx ∷ q
      → primaries_of ((addr, a) ∷ m) ≡ tx ∷ primaries_of m
  unfolding primaries_of peek
  primaries-some tx q e = ground (arith, e)

primaries-PromotedHeads : (m : List (Address × Account)) → PromotedHeads m (primaries_of m)
primaries-PromotedHeads [] = unfold primaries_of in PromotedHeads.no_account
primaries-PromotedHeads ((addr, a) ∷ m) = elim (List-cases a.promoted) [
  | inl empty ↦
      subst (PromotedHeads ((addr, a) ∷ m)) (sym (primaries-none addr a m empty))
        (PromotedHeads.no_promoted empty (primaries-PromotedHeads m))
  | inr (tx, q, e) ↦
      subst (PromotedHeads ((addr, a) ∷ m)) (sym (primaries-some addr a m tx q e))
        (PromotedHeads.head e (primaries-PromotedHeads m))
]

-- What `prepare` leaves: the executables are exactly the heads of the promoted queues.
pub record Prepared (p p' : Pool) : Type 0 where
  pub heads :
      (txs : List Transaction) × PromotedHeads p.accounts.entries txs × Perm p'.executables txs
  pub valid : IsPriced p'.executables
  pub rest : p' ≡ record p { executables = p'.executables }

-- Prepare never panics. It makes the executables exactly the first entries of the accounts' promoted
-- queues that are not empty, whatever was there before, as a valid heap by price, and changes nothing
-- else.
pub prepare_correct : (p : Pool) → Yields (Prepared p) (prepare p)
unfolding prepare Priced.clear get_primaries
prepare_correct p = rw (emptied p.executables) (
    Yields-then (push_all-adds (get_primaries p.accounts) [] (λ c h k. absurd (omega arith))) λ q s.
      yields _ (record {
        heads = (
          get_primaries p.accounts,
          primaries-PromotedHeads p.accounts.entries,
          rw (append-nil (get_primaries p.accounts)) at s.1,
        );
        valid = s.0;
        rest = refl;
      }))
  where
    emptied : (q : Queue) → (if length q == 0 then q else []) ≡ []
    emptied [] = refl
    emptied (x ∷ q) = ground arith

pub prepare-IsPool : (p : Pool) → IsPool p → Yields IsPool (prepare p)
prepare-IsPool p h =
    Yields-weaken (prepare_correct p)
      λ p' s. rw (s.rest) (record { book = h.book; height = h.height; executables = s.valid })

pub peek_best-IsPool : (p : Pool) → IsPool p → Yields (λ r. IsPool r.1) (peek_best p)
unfolding peek_best Priced.pop
peek_best-IsPool p h = elim (Bool-cases (length p.executables == 0)) [
  | inl none_left ↦
      rw none_left
        (yields _ (record { book = h.book; height = h.height; executables = h.executables }))
  | inr more ↦
      Yields-then (pop_best p.executables h.executables (ground arith))
        λ r t. yields _ (record { book = h.book; height = h.height; executables = t.valid })
]

-- An account whose queues hold no more than before.
popped-Held :
    (addr : Address) (a : Account) (tx : Transaction) (q : Queue)
    → IsQueue q
    → Perm (tx ∷ q) a.promoted
    → Held (addr, a)
    → Held (addr, reset_demotions (record a { promoted = q }))
unfolding reset_demotions
popped-Held addr a tx q v perm h = record {
  account = record {
    enqueued_valid = h.account.enqueued_valid;
    promoted_valid = v;
    waiting = h.account.waiting;
    ready =
        (All-perm (λ t. t.nonce < a.next_nonce) (λ t. le_prop) (Perm.symm perm) h.account.ready).1;
    bounded = h.account.bounded;
  };
  enqueued_from = h.enqueued_from;
  promoted_from = (All-perm (λ t. t.from ≡ addr) (λ t. hlevel) (Perm.symm perm) h.promoted_from).1;
  no_wrap = h.no_wrap;
}

popped-slots :
    (addr : Address) (a : Account) (tx : Transaction) (q : Queue)
    → Perm (tx ∷ q) a.promoted
    → account_slots (addr, reset_demotions (record a { promoted = q })) + sum_of slots_of (tx ∷ [])
      ≡ account_slots (addr, a)
unfolding account_slots reset_demotions
popped-slots addr a tx q perm = omega (arith, sum_of-perm slots_of perm)

next-IsPriced : (promoted q : Queue) → IsPriced q → Yields IsPriced (push_next promoted q)
unfolding push_next
next-IsPriced promoted q h = elim (Option-cases (peek promoted)) [
  | inl none_left ↦ rw (none_left, push_next) (yields q h)
  | inr (tx, e) ↦ rw (e, push_next) (Yields-weaken (IsPriced-push_adds tx q h) (λ r s. s.0))
]

-- On a pool that holds its invariant, Pop does not panic where the transaction is the head of its
-- sender's promoted queue, and the pool holds its invariant again.
pub pop_tx-IsPool :
    (tx : Transaction) (a : Account) (p : Pool)
    → lookup tx.from p.accounts.entries ≡ some a
    → peek a.promoted ≡ some tx
    → IsPool p
    → Yields IsPool (pop_tx tx p)
unfolding pop_tx get put update_pending
pop_tx-IsPool tx a p e first h =
    let m = p.accounts.entries in
    let held = Held-lookup tx.from a m h.book e in
    let (r, popped, t) = Yields-value (pop_takes a.promoted tx held.account.promoted_valid first) in
    let (q, pushed, valid) = Yields-value (next-IsPriced r.1 p.executables h.executables) in
    let a' = reset_demotions (record a { promoted = r.1 }) in
    rw (e, popped, pushed)
      (yields _ (record {
        book =
            put-IsBook tx.from a' m p.enqueue_requests p.promote_requests
              (popped-Held tx.from a tx r.1 t.valid t.kept held) h.book;
        height =
            decrease-total (tx ∷ []) p (total_slots m) (total_slots (insert tx.from a' m)) h.height
              (omega (arith, slots-put tx.from a a' m e, popped-slots tx.from a tx r.1 t.kept));
        executables = valid;
      }))
