-- ===== src/Txpool/Queue/Laws.antt =====
-- push, pop and prune on a valid queue.
use mathlib.Core.List.Perm
use mathlib.Core.List.{append_assoc, append-nil}
use nxchain.Base.{
  ℕ, zero, suc, ◌≤◌, ◌<◌, ◌≡◌, ◌∙◌, refl, sym, false, Option, none, some, List, [], ◌∷◌, ◌++◌, Perm,
  arith, length, All, All-weaken, Yields, yields, Yields-weaken, Yields-value, leb, Bool-cases, inl,
  inr, get_or, Option-cases, ap, ◌==◌,
}
use nxchain.Base.Arrays.{length-perm}
use nxchain.Types.{Transaction}
use nxchain.Heap.Ends.{push_correct, pop_correct}
use nxchain.Txpool.Queue.{Queue, nonce_less, peek, push, pop, prune, prune_loop}
use nxchain.Txpool.Queue.Order.{zero_transaction, nonce_less-IsOrder, IsQueue, peek-least}

-- A push on a valid queue never panics, leaves a valid queue, and adds exactly the transaction.
pub push_adds :
    (tx : Transaction) (q : Queue)
    → IsQueue q
    → Yields (λ q'. IsQueue q' × Perm q' (tx ∷ q)) (push tx q)
unfolding push
push_adds tx q h = push_correct nonce_less zero_transaction nonce_less-IsOrder tx q h

-- What `pop` returns on a queue whose `peek` is `tx`.
pub record Taken (q : Queue) (tx : Transaction) (r : Option Transaction × Queue) : Type 0 where
  pub popped : r.0 ≡ some tx
  pub valid : IsQueue r.1
  pub kept : Perm (tx ∷ r.1) q

peek-root : (q : Queue) (tx : Transaction) → peek q ≡ some tx → get_or q 0 zero_transaction ≡ tx
unfolding peek
peek-root [] tx e = cc
peek-root (x ∷ q) tx e = cc

peek-some : (q : Queue) (tx : Transaction) → peek q ≡ some tx → 0 < length q
unfolding peek
peek-some [] tx e = cc
peek-some (x ∷ q) tx e = omega arith

pub peek-none : (q : Queue) → peek q ≡ none → q ≡ []
unfolding peek
peek-none [] e = refl
peek-none (x ∷ q) e = cc

-- On a valid queue whose first entry `peek` shows, `pop` never panics, returns that entry, and leaves
-- a valid queue of exactly the others.
pub pop_takes :
    (q : Queue) (tx : Transaction) → IsQueue q → peek q ≡ some tx → Yields (Taken q tx) (pop q)
unfolding pop
pop_takes q tx h e =
    let (r, popped, p) =
      Yields-value
        (pop_correct nonce_less zero_transaction nonce_less-IsOrder q (peek-some q tx e) h) in
    let top : r.0 ≡ tx = p.root ∙ peek-root q tx e in
    let full : (length q == 0) ≡ false = ground (arith, peek-some q tx e) in
    rw (full, popped)
      (yields (some r.0, r.1)
        (record { popped = ap some top; valid = p.rest; kept = rw top at p.kept }))

-- What `prune` leaves: no lower nonce is kept, no other is removed, and nothing is lost.
pub record Pruned (nonce : ℕ) (q : Queue) (r : List Transaction × Queue) : Type 0 where
  pub valid : IsQueue r.1
  pub kept : Perm (r.0 ++ r.1) q
  pub below : All (λ t. t.nonce < nonce) r.0
  pub above : All (λ t. nonce ≤ t.nonce) r.1

abbrev PrunedFrom : ℕ → List Transaction → Queue → List Transaction × Queue → Type 0
PrunedFrom nonce acc q r = (cut : List Transaction) × (r.0 ≡ acc ++ cut) × Pruned nonce q (cut, r.1)

prune_loop_correct :
    (fuel nonce : ℕ) (acc : List Transaction) (q : Queue)
    → length q ≤ fuel
    → IsQueue q
    → Yields (PrunedFrom nonce acc q) (prune_loop fuel nonce acc q)
unfolding prune_loop
prune_loop_correct zero nonce acc [] f h =
    yields (acc, [])
      ([], sym (append-nil acc), record { valid = h; kept = Perm.rfl; below = tt; above = tt })
prune_loop_correct zero nonce acc (x ∷ q) f h = absurd (omega arith)
prune_loop_correct (suc fuel) nonce acc q f h = elim (Option-cases (peek q)) [
  | inl empty ↦
      rw (empty, prune_loop)
        (yields (acc, q)
          (
            [],
            sym (append-nil acc),
            record { valid = h; kept = Perm.rfl; below = tt; above = rw (peek-none q empty) tt },
          ))
  | inr (tx, e) ↦
      rw (e, prune_loop)
        (elim (Bool-cases (leb nonce tx.nonce)) [
          | inl stop ↦ rw stop (
              yields (acc, q)
                (
                  [],
                  sym (append-nil acc),
                  record {
                    valid = h;
                    kept = Perm.rfl;
                    below = tt;
                    above =
                        All-weaken (λ t. tx.nonce ≤ t.nonce) (λ t. nonce ≤ t.nonce) q
                          (λ t k. ground arith) (peek-least q tx h e);
                  },
                ))
          | inr more ↦ rw more (
              let (r, popped, t) = Yields-value (pop_takes q tx h e) in
              rw (popped, t.popped)
                (Yields-weaken
                  (prune_loop_correct fuel nonce (acc ++ tx ∷ []) r.1
                    (omega (arith, length-perm t.kept)) t.valid)
                  (λ res (cut, joined, p). (
                    tx ∷ cut,
                    joined ∙ append_assoc acc (tx ∷ []) cut,
                    record {
                      valid = p.valid;
                      kept = Perm.trans (Perm.cons tx p.kept) t.kept;
                      below = (ground arith, p.below);
                      above = p.above;
                    },
                  ))))
        ])
]

-- Pruning a valid queue at a nonce never panics. What it returns and what stays are together the
-- entries of the queue; exactly the entries with a lower nonce are returned, and a valid queue stays.
pub prune_correct : (nonce : ℕ) (q : Queue) → IsQueue q → Yields (Pruned nonce q) (prune nonce q)
unfolding prune
prune_correct nonce q h =
    Yields-weaken (prune_loop_correct (length q) nonce [] q (omega arith) h)
      (λ r (cut, joined, p). rw (joined) p)
