-- ===== src/Txpool/Account/Invariant.antt =====
-- What holds of every account between two calls: the comment on `account` in txpool/account.go.
use nxchain.Base.{ℕ, ◌≤◌, ◌<◌, arith, length, All}
use nxchain.Txpool.Queue.Order.{IsQueue}
use nxchain.Txpool.Account.{Account, new_account}

pub record IsAccount (a : Account) : Type 0 where
  pub enqueued_valid : IsQueue a.enqueued
  pub promoted_valid : IsQueue a.promoted
  pub waiting : All (λ t. a.next_nonce ≤ t.nonce) a.enqueued
  pub ready : All (λ t. t.nonce < a.next_nonce) a.promoted
  pub bounded : length a.enqueued ≤ a.max_enqueued

pub new_account-IsAccount : (limit nonce : ℕ) → IsAccount (new_account limit nonce)
unfolding new_account
new_account-IsAccount limit nonce = record {
  enqueued_valid = λ c h k. absurd (omega arith);
  promoted_valid = λ c h k. absurd (omega arith);
  waiting = tt;
  ready = tt;
  bounded = omega arith;
}
