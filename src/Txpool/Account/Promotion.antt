-- ===== src/Txpool/Account/Promotion.antt =====
-- `promote`: the loop moves a run of consecutive nonces and prunes only worse offers for them.
use native.Mathlib.Bridge.{le_prop}
use mathlib.Core.List.Perm
use mathlib.Core.List.{append_assoc, append-nil, perm_middle}
use mathlib.Core.Path.{subst}
use mathlib.Core.Option.{some-injective}
use nxchain.Base.{
  ℕ, zero, suc, ◌+◌, ◌%◌, ◌≤◌, ◌<◌, ◌≡◌, ◌∙◌, ◌≢◌, refl, sym, ap, false, some, List, [], ◌∷◌, ◌++◌,
  Perm, arith, length, All, Any, All-weaken, All-append, All-split, Yields, yields, Yields-weaken,
  Yields-value, Bool-cases, Option-cases, inl, inr, ◌==◌, length-append,
}
use nxchain.Base.Arrays.{length-perm, append_swap-perm}
use nxchain.Base.Sums.{All-perm}
use nxchain.Types.{Transaction, u64_mod}
use nxchain.Txpool.Queue.{Queue, nonce_less, peek}
use nxchain.Txpool.Queue.Order.{IsQueue, peek-first, peek-least, first_in_numbers}
use nxchain.Txpool.Queue.Laws.{push_adds, pop_takes, prune_correct, peek-none}
use nxchain.Txpool.Account.{Promoting, promote_round, promote_loop}

-- The nonces are n, n + 1, n + 2, ...
abbrev pub IsRun : ℕ → List Transaction → Type 0
IsRun n [] = Unit
IsRun n (t ∷ ts) = (t.nonce ≡ n) × IsRun (suc n) ts

-- `t` has the nonce of `u` and offers no higher price.
abbrev pub IsWorse : Transaction → Transaction → Type 0
IsWorse t u = (t.nonce ≡ u.nonce) × (t.gas_price ≤ u.gas_price)

-- No nonce is the last of a `uint64`, whose successor wraps to 0.
abbrev pub NoWrap : Queue → Type 0
NoWrap q = All (λ t. suc t.nonce < u64_mod) q

pub IsRun-below :
    (n : ℕ) (ts : List Transaction) → IsRun n ts → All (λ t. t.nonce < n + length ts) ts
IsRun-below n [] r = tt
IsRun-below n (t ∷ ts) r = (
  omega arith,
  All-weaken (λ u. u.nonce < suc n + length ts) (λ u. u.nonce < n + suc (length ts)) ts
      (λ u h. omega arith) (IsRun-below (suc n) ts r.1),
)

-- What holds at the head of the loop.
pub record Ready (p : Promoting) : Type 0 where
  pub waiting_valid : IsQueue p.waiting
  pub ready_valid : IsQueue p.ready
  pub expected : All (λ t. p.next ≤ t.nonce) p.waiting
  pub no_wrap : NoWrap p.waiting

-- What one round does.
record Advanced (p : Promoting) (tx : Transaction) (q : Promoting) : Type 0 where
  next : q.next ≡ suc p.next
  moved : q.moved ≡ p.moved ++ tx ∷ []
  cut : List Transaction
  dropped : q.dropped ≡ p.dropped ++ cut
  inv : Ready q
  kept : Perm (tx ∷ cut ++ q.waiting) p.waiting
  added : Perm q.ready (tx ∷ p.ready)
  worse : All (λ t. IsWorse t tx) cut

cut-IsWorse :
    (n : ℕ) (tx : Transaction) (cut : List Transaction)
    → tx.nonce ≡ n
    → All (λ t. t.nonce < suc n) cut
    → All (λ t. n ≤ t.nonce) cut
    → All (λ t. nonce_less t tx ≡ false) cut
    → All (λ t. IsWorse t tx) cut
cut-IsWorse n tx [] e below above first = tt
cut-IsWorse n tx (t ∷ cut) e below above first =
    let f = first_in_numbers tx t first.0 in
    ((omega arith, f.1 (omega arith)), cut-IsWorse n tx cut e below.1 above.1 first.1)

module _ (p : Promoting) (tx : Transaction) (h : Ready p) (e : peek p.waiting ≡ some tx)
    (same : tx.nonce ≡ p.next) where
  round_advances : Yields (Advanced p tx) (promote_round p)
  unfolding promote_round
  round_advances =
      let (r, popped, t) = Yields-value (pop_takes p.waiting tx h.waiting_valid e) in
      let (ready, pushed, a) = Yields-value (push_adds tx p.ready h.ready_valid) in
      let wraps =
        All-perm (λ u. suc u.nonce < u64_mod) (λ u. le_prop) (Perm.symm t.kept) h.no_wrap in
      let next : (tx.nonce + 1) % u64_mod ≡ suc p.next = omega arith in
      let (s, pruned, c) = Yields-value (prune_correct (suc p.next) r.1 t.valid) in
      let whole = Perm.trans (Perm.cons tx c.kept) t.kept in
      let above = All-perm (λ u. p.next ≤ u.nonce) (λ u. le_prop) (Perm.symm whole) h.expected in
      let first =
        All-perm (λ u. nonce_less u tx ≡ false) (λ u. hlevel) (Perm.symm whole)
          (peek-first p.waiting tx h.waiting_valid e) in
      let kept_wraps =
        All-perm (λ u. suc u.nonce < u64_mod) (λ u. le_prop) (Perm.symm c.kept) wraps.1 in
      rw (popped, t.popped, pushed, next, pruned)
        (yields _ (record {
          next = refl;
          moved = refl;
          cut = s.0;
          dropped = refl;
          inv = record {
            waiting_valid = c.valid;
            ready_valid = a.0;
            expected = c.above;
            no_wrap = (All-split (λ u. suc u.nonce < u64_mod) s.0 s.1 kept_wraps).1;
          };
          kept = whole;
          added = a.1;
          worse =
              cut-IsWorse p.next tx s.0 same c.below
                (All-split (λ u. p.next ≤ u.nonce) s.0 s.1 above.1).0
                (All-split (λ u. nonce_less u tx ≡ false) s.0 s.1 first.1).0;
        }))

-- What the whole loop does, from one state to its last.
pub record Promotes (p q : Promoting) : Type 0 where
  pub run : List Transaction
  pub cut : List Transaction
  pub moved : q.moved ≡ p.moved ++ run
  pub dropped : q.dropped ≡ p.dropped ++ cut
  pub consecutive : IsRun p.next run
  pub next : q.next ≡ p.next + length run
  pub kept : Perm (run ++ (cut ++ q.waiting)) p.waiting
  pub added : Perm q.ready (run ++ p.ready)
  pub waiting_valid : IsQueue q.waiting
  pub ready_valid : IsQueue q.ready
  pub beyond : All (λ t. q.next < t.nonce) q.waiting
  pub worse : All (λ t. Any (IsWorse t) run) cut

-- The loop ends where the first waiting transaction, if any, is beyond the expected nonce.
stops : (p : Promoting) → Ready p → All (λ t. p.next < t.nonce) p.waiting → Promotes p p
stops p h b = record {
  run = [];
  cut = [];
  moved = sym (append-nil p.moved);
  dropped = sym (append-nil p.dropped);
  consecutive = tt;
  next = omega arith;
  kept = Perm.rfl;
  added = Perm.rfl;
  waiting_valid = h.waiting_valid;
  ready_valid = h.ready_valid;
  beyond = b;
  worse = tt;
}

continues :
    (p q r : Promoting) (tx : Transaction)
    → tx.nonce ≡ p.next
    → Advanced p tx q
    → Promotes q r
    → Promotes p r
continues p q r tx same a b = record {
  run = tx ∷ b.run;
  cut = a.cut ++ b.cut;
  moved =
      b.moved
      ∙ ap (λ (l : List Transaction). l ++ b.run) a.moved
      ∙ append_assoc p.moved (tx ∷ []) b.run;
  dropped =
      b.dropped
      ∙ ap (λ (l : List Transaction). l ++ b.cut) a.dropped
      ∙ append_assoc p.dropped a.cut b.cut;
  consecutive = (same, subst (λ n. IsRun n b.run) a.next b.consecutive);
  next = omega (arith, a.next, b.next);
  kept = rw (append_assoc a.cut b.cut r.waiting) (
      Perm.trans
        (Perm.cons tx (
          Perm.trans (append_swap-perm b.run a.cut (b.cut ++ r.waiting))
            (Perm.append_left a.cut b.kept)))
        a.kept);
  added =
      Perm.trans b.added (Perm.trans (Perm.append_left b.run a.added) (perm_middle b.run p.ready));
  waiting_valid = b.waiting_valid;
  ready_valid = b.ready_valid;
  beyond = b.beyond;
  worse =
      All-append (λ t. Any (IsWorse t) (tx ∷ b.run)) a.cut b.cut
        (All-weaken (λ t. IsWorse t tx) (λ t. Any (IsWorse t) (tx ∷ b.run)) a.cut (λ t w. inl w)
          a.worse)
        (All-weaken (λ t. Any (IsWorse t) b.run) (λ t. Any (IsWorse t) (tx ∷ b.run)) b.cut
          (λ t w. inr w) b.worse);
}

head_beyond :
    (p : Promoting) (tx : Transaction)
    → Ready p
    → peek p.waiting ≡ some tx
    → tx.nonce ≢ p.next
    → All (λ t. p.next < t.nonce) p.waiting
unfolding peek
head_beyond p tx h e ne =
    All-weaken (λ t. tx.nonce ≤ t.nonce) (λ t. p.next < t.nonce) p.waiting
      (λ t k. omega (arith, peeked-expected p.waiting tx e h.expected))
      (peek-least p.waiting tx h.waiting_valid e)
  where
    peeked-expected :
        (q : Queue) (u : Transaction)
        → peek q ≡ some u
        → All (λ t. p.next ≤ t.nonce) q
        → p.next ≤ u.nonce
    peeked-expected [] u e a = cc
    peeked-expected (x ∷ q) u e a =
        subst (λ (t : Transaction). p.next ≤ t.nonce) (some-injective x u e) a.0

pub promote_loop-Promotes :
    (fuel : ℕ) (p : Promoting)
    → length p.waiting ≤ fuel
    → Ready p
    → Yields (Promotes p) (promote_loop fuel p)
unfolding promote_loop
promote_loop-Promotes zero p f h = yields p (stops p h (none_left p.waiting f))
  where
    none_left : (q : Queue) → length q ≤ 0 → All (λ t. p.next < t.nonce) q
    none_left [] k = tt
    none_left (x ∷ q) k = absurd (omega arith)
promote_loop-Promotes (suc fuel) p f h = elim (Option-cases (peek p.waiting)) [
  | inl empty ↦ rw (empty, promote_loop) (yields p (stops p h (rw (peek-none p.waiting empty) tt)))
  | inr (tx, e) ↦
      rw (e, promote_loop)
        (elim (Bool-cases (tx.nonce == p.next)) [
          | inl same ↦ rw same (
              let eq : tx.nonce ≡ p.next = ground arith in
              let (q, advanced, a) = Yields-value (round_advances p tx h e eq) in
              rw advanced (
                Yields-weaken
                  (promote_loop-Promotes fuel q
                    (omega (arith, length-perm a.kept, length-append a.cut q.waiting)) a.inv)
                  (λ r b. continues p q r tx eq a b)))
          | inr other ↦ rw other (yields p (stops p h (head_beyond p tx h e (ground arith))))
        ])
]
