-- ===== src/Txpool/Pool/Steps.antt =====
-- Every run of the pool: the handlers in any order, against a chain that may change between them.
use nxchain.Base.{
  suc, ◌<◌, ◌≡◌, ◌∙◌, sym, arith, Bool, true, Option, some, List, ◌∷◌, ◌++◌, All, All-split,
  All-append, Yields, Yields-value,
}
use mathlib.Core.Path.{subst}
use mathlib.Core.Option.{some-injective}
use nxchain.Base.Dict.{lookup, contains}
use nxchain.Types.{Transaction, Address, Hash, u64_mod}
use nxchain.Txpool.World.{World}
use nxchain.Txpool.Queue.{peek}
use nxchain.Txpool.Account.{Account}
use nxchain.Txpool.Pool.{Pool, Config, new_tx_pool, set_sealing}
use nxchain.Txpool.Pool.Add.{add_tx, handle_enqueue_request, handle_promote_request}
use nxchain.Txpool.Pool.Block.{prepare, peek_best, pop_tx, drop_tx, demote_tx}
use nxchain.Txpool.Pool.Sync.{reset_with_headers, prune_accounts_with_nonce_holes}
use nxchain.Txpool.Pool.Invariant.{IsPool}
use nxchain.Txpool.Pool.Adding.{add_tx-IsPool, handle_enqueue-IsPool, handle_promote-IsPool}
use nxchain.Txpool.Pool.Building.{prepare-IsPool, peek_best-IsPool, pop_tx-IsPool}
use nxchain.Txpool.Pool.Dropping.{drop_tx-IsPool, demote_tx-IsPool}
use nxchain.Txpool.Pool.Cleaning.{prune_holes-IsPool}
use nxchain.Txpool.Pool.Following.{reset_with_headers-IsPool}

-- The pool as a handler takes a request off its channel.
abbrev pub without_enqueue : List Transaction → List Transaction → Pool → Pool
without_enqueue before after p = record p { enqueue_requests = before ++ after }

abbrev pub without_promote : List Address → List Address → Pool → Pool
without_promote before after p = record p { promote_requests = before ++ after }

-- One step. A block is built on the head of a promoted queue, and from accounts that there are.
pub data Step (p : Pool) : Pool → Type 0 where
  add : (w : World) (tx : Transaction) → suc tx.nonce < u64_mod → Step p (add_tx w tx p).1
  enqueue :
      {p' : Pool} (before after : List Transaction) (tx : Transaction)
      → p.enqueue_requests ≡ before ++ tx ∷ after
      → handle_enqueue_request tx (without_enqueue before after p) ≡ some p'
      → Step p p'
  promote :
      {p' : Pool} (before after : List Address) (addr : Address)
      → p.promote_requests ≡ before ++ addr ∷ after
      → handle_promote_request addr (without_promote before after p) ≡ some p'
      → Step p p'
  prepare_block : {p' : Pool} → prepare p ≡ some p' → Step p p'
  peek_block : {tx : Option Transaction} {p' : Pool} → peek_best p ≡ some (tx, p') → Step p p'
  pop_block :
      {p' : Pool} (tx : Transaction) (a : Account)
      → lookup tx.from p.accounts.entries ≡ some a
      → peek a.promoted ≡ some tx
      → pop_tx tx p ≡ some p'
      → Step p p'
  drop :
      {p' : Pool} (tx : Transaction)
      → contains tx.from p.accounts.entries ≡ true
      → drop_tx tx p ≡ some p'
      → Step p p'
  demote :
      {p' : Pool} (tx : Transaction)
      → contains tx.from p.accounts.entries ≡ true
      → demote_tx tx p ≡ some p'
      → Step p p'
  follow :
      {p' : Pool} (w : World) (headers : List Hash)
      → reset_with_headers w headers p ≡ some p'
      → Step p p'
  prune : {p' : Pool} → prune_accounts_with_nonce_holes p ≡ some p' → Step p p'
  seal : (sealing : Bool) → Step p (set_sealing sealing p)

pub data Reach (p : Pool) : Pool → Type 0 where
  here : Reach p p
  next : {q r : Pool} → Reach p q → Step q r → Reach p r

-- What is known of a result is known of the value that it is.
value_of {κ} : {A : Type 0} (P : A → Type κ) {r : Option A} {a : A} → Yields P r → r ≡ some a → P a
value_of P {a = a} y e =
    let (b, f, p) = Yields-value y in subst P (some-injective b a (sym f ∙ e)) p

take_asked :
    (p : Pool) (before after : List Transaction) (tx : Transaction)
    → p.enqueue_requests ≡ before ++ tx ∷ after
    → IsPool p
    → IsPool (without_enqueue before after p)
      × (contains tx.from p.accounts.entries ≡ true)
      × (suc tx.nonce < u64_mod)
take_asked p before after tx e h =
    let P =
      λ (t : Transaction). (contains t.from p.accounts.entries ≡ true) × (suc t.nonce < u64_mod) in
    let known = All-split P before (tx ∷ after) (subst (λ l. All P l) e h.book.known) in
    (
      record {
        book = record {
          held = h.book.held;
          known = All-append P before after known.0 known.1.1;
          expected = h.book.expected;
        };
        height = h.height;
        executables = h.executables;
      },
      known.1.0.0,
      known.1.0.1,
    )

take_promised :
    (p : Pool) (before after : List Address) (addr : Address)
    → p.promote_requests ≡ before ++ addr ∷ after
    → IsPool p
    → IsPool (without_promote before after p) × (contains addr p.accounts.entries ≡ true)
take_promised p before after addr e h =
    let P = λ (a : Address). contains a p.accounts.entries ≡ true in
    let expected = All-split P before (addr ∷ after) (subst (λ l. All P l) e h.book.expected) in
    (
      record {
        book = record {
          held = h.book.held;
          known = h.book.known;
          expected = All-append P before after expected.0 expected.1.1;
        };
        height = h.height;
        executables = h.executables;
      },
      expected.1.0,
    )

-- A request to enqueue that waits in the channel of a pool that holds its invariant is handled
-- without a panic, and the pool holds its invariant again.
pub enqueue_request-handled :
    (p : Pool) (before after : List Transaction) (tx : Transaction)
    → p.enqueue_requests ≡ before ++ tx ∷ after
    → IsPool p
    → Yields IsPool (handle_enqueue_request tx (without_enqueue before after p))
enqueue_request-handled p before after tx e h =
    let (h', known, small) = take_asked p before after tx e h in
    handle_enqueue-IsPool tx (without_enqueue before after p) known small h'

-- A request to promote that waits in the channel of a pool that holds its invariant is handled
-- without a panic, and the pool holds its invariant again.
pub promote_request-handled :
    (p : Pool) (before after : List Address) (addr : Address)
    → p.promote_requests ≡ before ++ addr ∷ after
    → IsPool p
    → Yields IsPool (handle_promote_request addr (without_promote before after p))
promote_request-handled p before after addr e h =
    let (h', known) = take_promised p before after addr e h in
    handle_promote-IsPool addr (without_promote before after p) known h'

pub Step-IsPool : {p p' : Pool} → IsPool p → Step p p' → IsPool p'
unfolding set_sealing
Step-IsPool {p} h (Step.add w tx n) = add_tx-IsPool w tx p n h
Step-IsPool {p} h (Step.enqueue before after tx e r) =
    value_of IsPool (enqueue_request-handled p before after tx e h) r
Step-IsPool {p} h (Step.promote before after addr e r) =
    value_of IsPool (promote_request-handled p before after addr e h) r
Step-IsPool {p} h (Step.prepare_block r) = value_of IsPool (prepare-IsPool p h) r
Step-IsPool {p} h (Step.peek_block r) =
    value_of (λ (s : Option Transaction × Pool). IsPool s.1) (peek_best-IsPool p h) r
Step-IsPool {p} h (Step.pop_block tx a e f r) = value_of IsPool (pop_tx-IsPool tx a p e f h) r
Step-IsPool {p} h (Step.drop tx k r) = value_of IsPool (drop_tx-IsPool tx p k h) r
Step-IsPool {p} h (Step.demote tx k r) = value_of IsPool (demote_tx-IsPool tx p k h) r
Step-IsPool {p} h (Step.follow w headers r) =
    value_of IsPool (reset_with_headers-IsPool w headers p h) r
Step-IsPool {p} h (Step.prune r) = value_of IsPool (prune_holes-IsPool p h) r
Step-IsPool {p} h (Step.seal sealing) = record {
  book = h.book;
  height = h.height;
  executables = h.executables;
}

pub new_tx_pool-IsPool : (config : Config) → IsPool (new_tx_pool config)
unfolding new_tx_pool
new_tx_pool-IsPool config = record {
  book = record { held = tt; known = tt; expected = tt };
  height = omega arith;
  executables = λ c h k. absurd (omega arith);
}

-- Every pool that the handlers reach from a new one, in any order and against any chain, holds the
-- invariant: both queues of each account are heaps, split by the account's nonce, within its limit
-- and of its own transactions; the gauge counts the slots of what the queues hold, modulo 2^64;
-- every request that waits has its account; and the executables are a heap. The conditions are in
-- the steps: no nonce is the last of a uint64, Pop takes the head of a promoted queue, and Drop and
-- Demote a transaction whose sender has an account.
pub Reach-IsPool : (config : Config) {p : Pool} → Reach (new_tx_pool config) p → IsPool p
Reach-IsPool config here = new_tx_pool-IsPool config
Reach-IsPool config (next r s) = Step-IsPool (Reach-IsPool config r) s
