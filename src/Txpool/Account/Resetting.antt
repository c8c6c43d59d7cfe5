-- ===== src/Txpool/Account/Resetting.antt =====
-- txpool/account.go: what `reset` does to an account.
use native.Mathlib.Bridge.{le_prop}
use mathlib.Core.List.Perm
use nxchain.Base.{
  ℕ, ◌≤◌, ◌<◌, ◌≡◌, ◌≢◌, refl, none, some, [], ◌∷◌, ◌++◌, Perm, arith, All, Any, All-weaken,
  All-split, Yields, yields, Yields-value, Bool-cases, Option-cases, inl, inr, leb, length-append,
  max,
}
use nxchain.Base.Arrays.{length-perm}
use nxchain.Base.Sums.{All-perm}
use nxchain.Types.{Address}
use nxchain.Txpool.Queue.{Queue, peek}
use nxchain.Txpool.Queue.Order.{IsQueue, peek-least}
use nxchain.Txpool.Queue.Laws.{prune_correct, peek-none}
use nxchain.Txpool.Account.{Account, reset, reset_signal, ResetResult}
use nxchain.Txpool.Account.Invariant.{IsAccount}
use nxchain.Txpool.Account.Methods.{peek-waiting}

-- How `reset` ends.
pub record Resets (nonce : ℕ) (a : Account) (r : ResetResult) : Type 0 where
  pub valid : IsAccount r.account
  pub next : r.account.next_nonce ≡ max nonce a.next_nonce
  pub kept_promoted : Perm (r.pruned_promoted ++ r.account.promoted) a.promoted
  pub kept_enqueued : Perm (r.pruned_enqueued ++ r.account.enqueued) a.enqueued
  pub stale_promoted : All (λ t. t.nonce < nonce) r.pruned_promoted
  pub stale_enqueued : All (λ t. t.nonce < nonce) r.pruned_enqueued
  pub fresh_promoted : All (λ t. nonce ≤ t.nonce) r.account.promoted
  pub fresh_enqueued : All (λ t. nonce ≤ t.nonce) r.account.enqueued
  pub silent :
      r.signal ≡ none → a.next_nonce < nonce → All (λ t. nonce < t.nonce) r.account.enqueued
  pub spoken :
      (addr : Address)
      → r.signal ≡ some addr
      → (a.next_nonce < nonce) × Any (λ t. (t.nonce ≡ nonce) × (t.from ≡ addr)) r.account.enqueued
  pub counters :
      (r.account.demotions ≡ a.demotions)
      × (r.account.skips ≡ a.skips)
      × (r.account.max_enqueued ≡ a.max_enqueued)

signal-silent :
    (nonce : ℕ) (q : Queue)
    → IsQueue q
    → All (λ t. nonce ≤ t.nonce) q
    → reset_signal nonce q ≡ none
    → All (λ t. nonce < t.nonce) q
unfolding reset_signal
signal-silent nonce q h above quiet = elim (Option-cases (peek q)) [
  | inl empty ↦ rw (peek-none q empty) tt
  | inr (tx, e) ↦
      let differs : tx.nonce ≢ nonce = ground arith in
      All-weaken (λ t. tx.nonce ≤ t.nonce) (λ t. nonce < t.nonce) q
        (λ t k. omega (arith, peek-waiting nonce q tx e above)) (peek-least q tx h e)
]

signal-spoken :
    (nonce : ℕ) (q : Queue) (addr : Address)
    → reset_signal nonce q ≡ some addr
    → Any (λ t. (t.nonce ≡ nonce) × (t.from ≡ addr)) q
unfolding reset_signal peek
signal-spoken nonce [] addr e = cc
signal-spoken nonce (t ∷ q) addr e = inl (ground arith)

pruned-valid :
    (a : Account) (cut promoted : Queue)
    → IsAccount a
    → IsQueue promoted
    → Perm (cut ++ promoted) a.promoted
    → IsAccount (record a { promoted = promoted })
pruned-valid a cut promoted h valid perm = record {
  enqueued_valid = h.enqueued_valid;
  promoted_valid = valid;
  waiting = h.waiting;
  ready =
      (All-split (λ t. t.nonce < a.next_nonce) cut promoted
        (All-perm (λ t. t.nonce < a.next_nonce) (λ t. le_prop) (Perm.symm perm) h.ready)).1;
  bounded = h.bounded;
}

-- Pruned of all below both the new and the old nonce, the promoted queue is empty.
none_ready :
    (n m : ℕ) (q : Queue) → m < n → All (λ t. n ≤ t.nonce) q → All (λ t. t.nonce < m) q → q ≡ []
none_ready n m [] k above below = refl
none_ready n m (x ∷ q) k above below = absurd (omega arith)

-- On a valid account, reset never panics and keeps the account's invariant. The account's nonce
-- becomes the higher of its own and the given one; exactly the transactions below the given nonce
-- leave the two queues. If the nonce was raised, promotion is signalled exactly where a
-- transaction of the new nonce is enqueued, for the sender of one.
pub reset_correct :
    (nonce : ℕ) (a : Account) → IsAccount a → Yields (Resets nonce a) (reset nonce a)
unfolding reset
reset_correct nonce a h =
    let ((pp, promoted), ran, p) = Yields-value (prune_correct nonce a.promoted h.promoted_valid) in
    let kept = pruned-valid a pp promoted h p.valid p.kept in
    rw ran (elim (Bool-cases (leb nonce a.next_nonce)) [
      | inl old ↦ rw old (
          yields _ (record {
            valid = kept;
            next = ground arith;
            kept_promoted = p.kept;
            kept_enqueued = Perm.rfl;
            stale_promoted = p.below;
            stale_enqueued = tt;
            fresh_promoted = p.above;
            fresh_enqueued =
                All-weaken (λ t. a.next_nonce ≤ t.nonce) (λ t. nonce ≤ t.nonce) a.enqueued
                  (λ t k. ground arith) h.waiting;
            silent = λ s k. absurd (ground arith);
            spoken = λ addr s. cc;
            counters = (refl, refl, refl);
          }))
      | inr new ↦ rw new (
          let ((pe, enqueued), swept, q) =
            Yields-value (prune_correct nonce a.enqueued h.enqueued_valid) in
          let higher : a.next_nonce < nonce = ground arith in
          rw swept (
            yields _ (record {
              valid = record {
                enqueued_valid = q.valid;
                promoted_valid = p.valid;
                waiting = q.above;
                ready = rw (none_ready nonce a.next_nonce promoted higher p.above kept.ready) tt;
                bounded = omega (arith, h.bounded, length-perm q.kept, length-append pe enqueued);
              };
              next = omega arith;
              kept_promoted = p.kept;
              kept_enqueued = q.kept;
              stale_promoted = p.below;
              stale_enqueued = q.below;
              fresh_promoted = p.above;
              fresh_enqueued = q.above;
              silent = λ s k. signal-silent nonce enqueued q.valid q.above s;
              spoken = λ addr s. (higher, signal-spoken nonce enqueued addr s);
              counters = (refl, refl, refl);
            })))
    ])
