-- ===== src/Txpool/Pool/Adding.antt =====
-- The handlers on a transaction's way in keep the pool's invariant, and do not panic.
use native.Mathlib.Bridge.{le_prop}
use mathlib.Core.List.Perm
use nxchain.Base.{
  ℕ, suc, ◌+◌, ◌%◌, ◌<◌, ◌≡◌, ◌∙◌, refl, sym, ap, Bool, true, Option, none, some, List, [], ◌∷◌,
  ◌++◌, arith, All, All-append, All-split, Yields, yields, Yields-value, Bool-cases, Option-cases,
  inl, inr, ltb, Perm,
}
use nxchain.Base.Sums.{sum_of, sum_of-append, sum_of-perm, All-perm}
use nxchain.Base.Dict.{lookup, contains, insert}
use nxchain.Types.{Transaction, Address, u64_mod}
use nxchain.Txpool.Errors.{PoolError}
use nxchain.Txpool.World.{World}
use nxchain.Txpool.Account.{Account}
use nxchain.Txpool.Account.Methods.{Enqueues, enqueue_correct, Promoted, promote_correct}
use nxchain.Txpool.Account.Invariant.{IsAccount}
use nxchain.Txpool.Accounts.{exists, get, put, init_once}
use nxchain.Txpool.Gauge.{slots_of, slots_required, increase, high_pressure}
use nxchain.Txpool.Gauge.Laws.{slots_required-eq}
use nxchain.Txpool.Index
use nxchain.Txpool.Pool.{Pool, signal_event, update_pending}
use nxchain.Txpool.Pool.Validate.{validate_tx, set_sender}
use nxchain.Txpool.Pool.Add.{
  create_account_once, admit_tx, check_room, add_tx, compute_hash, enqueued_tx,
  handle_enqueue_request, handle_promote_request, is_future,
}
use nxchain.Txpool.Pool.Invariant.{
  Held, account_slots, total_slots, IsPool, contains-insert_self, contains-lookup, put-IsBook,
  expect-IsBook, ask-IsBook, Held-lookup, slots-put, slots-put_new, new_account-Held,
  decrease-total,
}

pub create-IsPool :
    (w : World) (addr : Address) (p : Pool)
    → IsPool p
    → IsPool (create_account_once w addr p)
      × (contains addr (create_account_once w addr p).accounts.entries ≡ true)
unfolding create_account_once exists init_once
create-IsPool w addr p h = elim (Bool-cases (contains addr p.accounts.entries)) [
  | inl known ↦ rw known (h, known)
  | inr new ↦
      let a = new_account-Held addr p.accounts.max_enqueued_limit (w.get_nonce w.state_root addr) in
      rw new (
        record {
          book =
              put-IsBook addr _ p.accounts.entries p.enqueue_requests p.promote_requests a h.book;
          height =
              h.height
              ∙ ap (λ (n : ℕ). n % u64_mod)
                  (sym (
                    slots-put_new addr p.accounts.max_enqueued_limit (w.get_nonce w.state_root addr)
                      p.accounts.entries (ground arith)));
          executables = h.executables;
        },
        contains-insert_self addr _ p.accounts.entries,
      )
]

index-IsPool : (p : Pool) (m : Index.LookupMap) → IsPool p → IsPool (record p { index = m })
index-IsPool p m h = record { book = h.book; height = h.height; executables = h.executables }

signalled-IsPool : (p : Pool) (b : Bool) → IsPool p → IsPool (record p { prune_signalled = b })
signalled-IsPool p b h = record { book = h.book; height = h.height; executables = h.executables }

admit-IsPool :
    (w : World) (tx : Transaction) (p : Pool)
    → suc tx.nonce < u64_mod
    → IsPool p
    → IsPool (admit_tx w tx p).1
unfolding admit_tx signal_event
admit-IsPool w tx p n h =
    let q = record p { index = (Index.add tx p.index).1 } in
    let (c, known) = create-IsPool w tx.from q (index-IsPool p (Index.add tx p.index).1 h) in
    let p' = create_account_once w tx.from q in
    elim (Bool-cases (Index.add tx p.index).0) [
      | inl fresh ↦ rw fresh (record {
        book =
            ask-IsBook tx p'.accounts.entries p'.enqueue_requests p'.promote_requests known n
              c.book;
        height = c.height;
        executables = c.executables;
      })
      | inr old ↦ rw old h
    ]

room-IsPool :
    (w : World) (tx : Transaction) (p : Pool)
    → suc tx.nonce < u64_mod
    → IsPool p
    → IsPool (check_room w tx p).1
unfolding check_room compute_hash
room-IsPool w tx p n h =
    elim (Bool-cases (ltb p.gauge.max ((p.gauge.height + slots_required (tx ∷ [])) % u64_mod))) [
      | inl over ↦ rw over h
      | inr room ↦ rw room (admit-IsPool w (compute_hash w tx) p n h)
    ]

validated-nonce :
    (w : World) (p : Pool) (tx : Transaction) → (validate_tx w p tx).1.nonce ≡ tx.nonce
unfolding validate_tx set_sender
validated-nonce w p tx = ground arith

-- addTx keeps the pool's invariant, whatever it returns, if the nonce is not the last of a uint64.
pub add_tx-IsPool :
    (w : World) (tx : Transaction) (p : Pool)
    → suc tx.nonce < u64_mod
    → IsPool p
    → IsPool (add_tx w tx p).1
unfolding add_tx
add_tx-IsPool w tx p n h =
    let tx' = (validate_tx w p tx).1 in
    let n' : suc tx'.nonce < u64_mod = omega (arith, validated-nonce w p tx) in
    let pressed = record p { prune_signalled = true } in
    elim (Option-cases (validate_tx w p tx).0) [
      | inr (e, bad) ↦ rw (bad, add_tx) h
      | inl good ↦
          rw (good, add_tx)
            (elim (Bool-cases (high_pressure p.gauge)) [
              | inr low ↦ rw low (room-IsPool w tx' p n' h)
              | inl high ↦ rw high (elim (Bool-cases (is_future tx' p)) [
                | inl future ↦ rw future (signalled-IsPool p true h)
                | inr next ↦ rw next (room-IsPool w tx' pressed n' (signalled-IsPool p true h))
              ])
            ])
    ]

-- The account after a transaction was added to it.
enqueued-Held :
    (tx : Transaction) (a a' : Account)
    → a'.promoted ≡ a.promoted
    → Perm a'.enqueued (tx ∷ a.enqueued)
    → suc tx.nonce < u64_mod
    → IsAccount a'
    → Held (tx.from, a)
    → Held (tx.from, a')
enqueued-Held tx a a' same perm n v h = record {
  account = v;
  enqueued_from =
      All-perm (λ t. t.from ≡ tx.from) (λ t. hlevel) (Perm.symm perm) (refl, h.enqueued_from);
  promoted_from = rw same h.promoted_from;
  no_wrap = All-perm (λ t. suc t.nonce < u64_mod) (λ t. le_prop) (Perm.symm perm) (n, h.no_wrap);
}

module _ (tx : Transaction) (a : Account) (p : Pool) (h : IsPool p)
    (e : lookup tx.from p.accounts.entries ≡ some a) where
  put_same-IsPool :
      (m : Index.LookupMap) → IsPool (record p { accounts = put tx.from a p.accounts; index = m })
  unfolding put
  put_same-IsPool m = record {
    book =
        put-IsBook tx.from a p.accounts.entries p.enqueue_requests p.promote_requests
          (Held-lookup tx.from a p.accounts.entries h.book e) h.book;
    height = omega (arith, h.height, slots-put tx.from a a p.accounts.entries e);
    executables = h.executables;
  }

  added-IsPool :
      (q : List Transaction)
      → suc tx.nonce < u64_mod
      → Perm q (tx ∷ a.enqueued)
      → IsAccount (record a { enqueued = q })
      → IsPool (
          enqueued_tx tx
            (record a { enqueued = q })
            (record p { accounts = put tx.from (record a { enqueued = q }) p.accounts }))
  unfolding enqueued_tx signal_event increase put account_slots
  added-IsPool q n perm v =
      let a' : Account = record a { enqueued = q } in
      let m = p.accounts.entries in
      let held = enqueued-Held tx a a' refl perm n v (Held-lookup tx.from a m h.book e) in
      let book = put-IsBook tx.from a' m p.enqueue_requests p.promote_requests held h.book in
      let height : (p.gauge.height + slots_required (tx ∷ [])) % u64_mod
          ≡ total_slots (insert tx.from a' m) % u64_mod =
        omega (
          arith,
          h.height,
          slots_required-eq (tx ∷ []),
          slots-put tx.from a a' m e,
          sum_of-perm slots_of perm,
        ) in
      elim (Bool-cases (ltb a.next_nonce tx.nonce)) [
        | inl early ↦
            rw early (record { book = book; height = height; executables = h.executables })
        | inr due ↦ rw due (record {
          book =
              expect-IsBook tx.from (insert tx.from a' m) p.enqueue_requests p.promote_requests
                (contains-insert_self tx.from a' m) book;
          height = height;
          executables = h.executables;
        })
      ]

-- handleEnqueueRequest does not panic on a request whose account exists, and keeps the invariant.
pub handle_enqueue-IsPool :
    (tx : Transaction) (p : Pool)
    → contains tx.from p.accounts.entries ≡ true
    → suc tx.nonce < u64_mod
    → IsPool p
    → Yields IsPool (handle_enqueue_request tx p)
unfolding handle_enqueue_request get
handle_enqueue-IsPool tx p k n h =
    let (a, e) = contains-lookup tx.from p.accounts.entries k in
    let held = Held-lookup tx.from a p.accounts.entries h.book e in
    let (r, ran, (s, v)) = Yields-value (enqueue_correct tx a held.account) in
    rw (e, ran) (finish a e r s v)
  where
    finish :
        (a : Account)
        → lookup tx.from p.accounts.entries ≡ some a
        → (r : Option PoolError × Account) → Enqueues tx a r
        → IsAccount r.1
        → Yields IsPool (elim r.0 [
          | some e ↦ some (record p {
            accounts = put tx.from r.1 p.accounts;
            index = Index.remove (tx ∷ []) p.index;
          })
          | none ↦ some (enqueued_tx tx r.1 (record p { accounts = put tx.from r.1 p.accounts }))
        ])
    finish a e (_, _) (Enqueues.full c) v =
        yields _ (put_same-IsPool tx a p h e (Index.remove (tx ∷ []) p.index))
    finish a e (_, _) (Enqueues.low c d) v =
        yields _ (put_same-IsPool tx a p h e (Index.remove (tx ∷ []) p.index))
    finish a e (_, _) (Enqueues.added q c d perm) v = yields _ (added-IsPool tx a p h e q n perm v)

-- What holds of all that was enqueued holds of what was promoted and of what still is enqueued.
promoted-All {κ} :
    (P : Transaction → Type κ)
    → ((t : Transaction) → IsProp (P t))
    → (a : Account) (r : List Transaction × List Transaction × Account) → Promoted a r
    → All P a.enqueued
    → All P r.0 × All P r.2.enqueued
promoted-All P pp a r b h =
    let whole = All-split P r.0 (r.1 ++ r.2.enqueued) (All-perm P pp (Perm.symm b.kept) h) in
    (whole.0, (All-split P r.1 r.2.enqueued whole.1).1)

promoted-Held :
    (addr : Address) (a : Account) (r : List Transaction × List Transaction × Account)
    → Promoted a r
    → Held (addr, a)
    → Held (addr, r.2)
promoted-Held addr a r b h =
    let sent = promoted-All (λ t. t.from ≡ addr) (λ t. hlevel) a r b h.enqueued_from in
    record {
      account = b.valid;
      enqueued_from = sent.1;
      promoted_from =
          All-perm (λ t. t.from ≡ addr) (λ t. hlevel) (Perm.symm b.added)
            (All-append (λ t. t.from ≡ addr) r.0 a.promoted sent.0 h.promoted_from);
      no_wrap = (promoted-All (λ t. suc t.nonce < u64_mod) (λ t. le_prop) a r b h.no_wrap).1;
    }

Promoted-slots :
    (addr : Address) (a : Account) (r : List Transaction × List Transaction × Account)
    → Promoted a r
    → account_slots (addr, r.2) + sum_of slots_of r.1 ≡ account_slots (addr, a)
unfolding account_slots
Promoted-slots addr a r b = omega (
  arith,
  sum_of-perm slots_of b.kept,
  sum_of-perm slots_of b.added,
  sum_of-append slots_of r.0 (r.1 ++ r.2.enqueued),
  sum_of-append slots_of r.1 r.2.enqueued,
  sum_of-append slots_of r.0 a.promoted,
)

-- handlePromoteRequest does not panic on a request whose account exists, and keeps the invariant.
pub handle_promote-IsPool :
    (addr : Address) (p : Pool)
    → contains addr p.accounts.entries ≡ true
    → IsPool p
    → Yields IsPool (handle_promote_request addr p)
unfolding handle_promote_request get put signal_event update_pending
handle_promote-IsPool addr p k h =
    let m = p.accounts.entries in
    let (a, e) = contains-lookup addr m k in
    let held = Held-lookup addr a m h.book e in
    let (r, ran, b) = Yields-value (promote_correct a held.account held.no_wrap) in
    rw (e, ran)
      (yields _ (record {
        book =
            put-IsBook addr r.2 m p.enqueue_requests p.promote_requests
              (promoted-Held addr a r b held) h.book;
        height =
            decrease-total r.1 p (total_slots m) (total_slots (insert addr r.2 m)) h.height
              (omega (arith, slots-put addr a r.2 m e, Promoted-slots addr a r b));
        executables = h.executables;
      }))
