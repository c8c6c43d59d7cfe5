-- ===== src/Txpool/Accounts.antt =====
-- txpool/account.go: `accountsMap`, the accounts by their address. `Range` visits the entries in the
-- order of the list; Go leaves that order open.
use nxchain.Base.{ℕ, ◌+◌, ◌%◌, Bool, Option, none, some, List, [], ◌∷◌, if◌then◌else◌, length, ◌==◌}
use nxchain.Base.Dict.{Dict, lookup, contains, insert}
use nxchain.Types.{Transaction, Address, u64_mod}
use nxchain.Txpool.Queue.{Queue, peek}
use nxchain.Txpool.Account.{Account, new_account}

pub record AccountsMap : Type 0 where
  pub entries : Dict Account
  pub count : ℕ
  pub max_enqueued_limit : ℕ

-- The account is made on the first call for its address, and the later ones do nothing.
unfoldable pub init_once : Address → ℕ → AccountsMap → AccountsMap
init_once addr nonce m = if contains addr m.entries then m else record m {
  entries = insert addr (new_account m.max_enqueued_limit nonce) m.entries;
  count = (m.count + 1) % u64_mod;
}

unfoldable pub exists : Address → AccountsMap → Bool
exists addr m = contains addr m.entries

unfoldable pub get : Address → AccountsMap → Option Account
get addr m = lookup addr m.entries

-- A method that changes the account at `addr`, which the map holds by reference.
unfoldable pub put : Address → Account → AccountsMap → AccountsMap
put addr a m = record m { entries = insert addr a m.entries }

unfoldable pub primaries_of : List (Address × Account) → List Transaction
primaries_of [] = []
primaries_of ((addr, a) ∷ m) =
    let rest = primaries_of m in elim (peek a.promoted) [ none ↦ rest | some tx ↦ tx ∷ rest ]

-- The heads of the promoted queues.
unfoldable pub get_primaries : AccountsMap → List Transaction
unfolding primaries_of
get_primaries m = primaries_of m.entries

pub promoted_loop : ℕ → List (Address × Account) → ℕ
promoted_loop total [] = total
promoted_loop total ((addr, a) ∷ m) = promoted_loop ((total + length a.promoted) % u64_mod) m

unfoldable pub promoted : AccountsMap → ℕ
unfolding promoted_loop
promoted m = promoted_loop 0 m.entries

-- An entry of `allTxs`, for a queue that is not empty.
pub listed : (Account → Queue) → List (Address × Account) → Dict Queue
listed queue [] = []
listed queue ((addr, a) ∷ m) =
    let rest = listed queue m in if length (queue a) == 0 then rest else (addr, queue a) ∷ rest

unfoldable pub all_txs : Bool → AccountsMap → Dict Queue × Dict Queue
unfolding listed
all_txs include_enqueued m = (
  listed (λ a. a.promoted) m.entries,
  if include_enqueued then listed (λ a. a.enqueued) m.entries else [],
)
