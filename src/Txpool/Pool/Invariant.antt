-- ===== src/Txpool/Pool/Invariant.antt =====
-- What holds of the pool between two handlers: txpool/txpool.go and txpool/account.go.
use nxchain.Base.{
  ℕ, suc, ◌+◌, ◌%◌, ◌<◌, ◌≡◌, true, none, some, List, [], ◌∷◌, ◌++◌, arith, All, All-weaken,
  All-append,
}
use nxchain.Base.Sums.{sum_of}
use nxchain.Base.Dict.{
  Dict, lookup, contains, insert, lookup-insert, sum_of-insert, sum_of-insert_new, All-insert,
  All-lookup,
}
use nxchain.Types.{Transaction, Address, u64_mod}
use nxchain.Txpool.Account.{Account, new_account}
use nxchain.Txpool.Account.Invariant.{IsAccount, new_account-IsAccount}
use nxchain.Txpool.Account.Promotion.{NoWrap}
use nxchain.Txpool.Priced.{IsPriced}
use nxchain.Txpool.Gauge.{slots_of, slots_required, decrease}
use nxchain.Txpool.Gauge.Laws.{slots_required-eq, decrease-height}
use nxchain.Txpool.Pool.{Pool}

-- The account at an address is valid and holds that address's transactions; no enqueued nonce is
-- the last of a uint64.
pub record Held (e : Address × Account) : Type 0 where
  pub account : IsAccount e.1
  pub enqueued_from : All (λ t. t.from ≡ e.0) e.1.enqueued
  pub promoted_from : All (λ t. t.from ≡ e.0) e.1.promoted
  pub no_wrap : NoWrap e.1.enqueued

-- The slots of all that the queues hold.
unfoldable pub account_slots : Address × Account → ℕ
account_slots e = sum_of slots_of e.1.enqueued + sum_of slots_of e.1.promoted

abbrev pub total_slots : Dict Account → ℕ
total_slots m = sum_of account_slots m

-- The accounts, and the requests for them that are not handled: an account exists for each.
pub record IsBook (m : Dict Account) (asked : List Transaction) (promised : List Address)
    : Type 0 where
  pub held : All Held m
  pub known : All (λ t. (contains t.from m ≡ true) × (suc t.nonce < u64_mod)) asked
  pub expected : All (λ addr. contains addr m ≡ true) promised

pub record IsPool (p : Pool) : Type 0 where
  pub book : IsBook p.accounts.entries p.enqueue_requests p.promote_requests
  pub height : p.gauge.height ≡ total_slots p.accounts.entries % u64_mod
  pub executables : IsPriced p.executables

pub contains-insert :
    (k j : ℕ) (a : Account) (m : Dict Account)
    → contains j m ≡ true
    → contains j (insert k a m) ≡ true
contains-insert k j a m h = ground (arith, lookup-insert k j a m)

pub contains-insert_self :
    (k : ℕ) (a : Account) (m : Dict Account) → contains k (insert k a m) ≡ true
contains-insert_self k a m = ground (arith, lookup-insert k k a m)

pub contains-lookup :
    (k : ℕ) (m : Dict Account) → contains k m ≡ true → (a : Account) × (lookup k m ≡ some a)
contains-lookup k m h = ground arith

pub put-IsBook :
    (addr : Address) (a : Account) (m : Dict Account) (asked : List Transaction)
    (promised : List Address)
    → Held (addr, a)
    → IsBook m asked promised
    → IsBook (insert addr a m) asked promised
put-IsBook addr a m asked promised h b = record {
  held = All-insert Held addr a m h b.held;
  known =
      All-weaken (λ t. (contains t.from m ≡ true) × (suc t.nonce < u64_mod))
        (λ t. (contains t.from (insert addr a m) ≡ true) × (suc t.nonce < u64_mod)) asked
        (λ t k. (contains-insert addr t.from a m k.0, k.1)) b.known;
  expected =
      All-weaken (λ j. contains j m ≡ true) (λ j. contains j (insert addr a m) ≡ true) promised
        (λ j k. contains-insert addr j a m k) b.expected;
}

pub expect-IsBook :
    (addr : Address) (m : Dict Account) (asked : List Transaction) (promised : List Address)
    → contains addr m ≡ true
    → IsBook m asked promised
    → IsBook m asked (promised ++ addr ∷ [])
expect-IsBook addr m asked promised k b = record {
  held = b.held;
  known = b.known;
  expected = All-append (λ j. contains j m ≡ true) promised (addr ∷ []) b.expected (k, tt);
}

pub ask-IsBook :
    (tx : Transaction) (m : Dict Account) (asked : List Transaction) (promised : List Address)
    → contains tx.from m ≡ true
    → suc tx.nonce < u64_mod
    → IsBook m asked promised
    → IsBook m (asked ++ tx ∷ []) promised
ask-IsBook tx m asked promised k n b = record {
  held = b.held;
  known =
      All-append (λ t. (contains t.from m ≡ true) × (suc t.nonce < u64_mod)) asked (tx ∷ []) b.known
        ((k, n), tt);
  expected = b.expected;
}

pub Held-lookup :
    {asked : List Transaction} {promised : List Address} (addr : Address) (a : Account)
    (m : Dict Account)
    → IsBook m asked promised
    → lookup addr m ≡ some a
    → Held (addr, a)
Held-lookup addr a m b e = All-lookup Held addr a m e b.held

pub slots-put :
    (addr : Address) (a a' : Account) (m : Dict Account)
    → lookup addr m ≡ some a
    → total_slots (insert addr a' m) + account_slots (addr, a)
      ≡ total_slots m + account_slots (addr, a')
slots-put addr a a' m e = sum_of-insert account_slots addr a' a m e

pub new_account-Held : (addr : Address) (limit nonce : ℕ) → Held (addr, new_account limit nonce)
unfolding new_account
new_account-Held addr limit nonce = record {
  account = new_account-IsAccount limit nonce;
  enqueued_from = tt;
  promoted_from = tt;
  no_wrap = tt;
}

pub slots-put_new :
    (addr : Address) (limit nonce : ℕ) (m : Dict Account)
    → lookup addr m ≡ none
    → total_slots (insert addr (new_account limit nonce) m) ≡ total_slots m
unfolding account_slots new_account
slots-put_new addr limit nonce m e =
    omega (arith, sum_of-insert_new account_slots addr (new_account limit nonce) m e)

-- The gauge after transactions have left the queues.
pub decrease-total :
    (txs : List Transaction) (p : Pool) (before after : ℕ)
    → p.gauge.height ≡ before % u64_mod
    → after + sum_of slots_of txs ≡ before
    → (decrease (slots_required txs) p.gauge).height ≡ after % u64_mod
decrease-total txs p before after h e =
    let size = slots_required-eq txs in
    let small : slots_required txs < u64_mod = omega (arith, size) in
    omega (arith, h, e, size, decrease-height (slots_required txs) p.gauge small)
