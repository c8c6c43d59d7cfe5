-- ===== src/Txpool/Pool.antt =====
-- txpool/txpool.go: the state of the pool. The channels are unbuffered, and each request is handled
-- in a goroutine of its own: `enqueue_requests` and `promote_requests` hold the requests that are
-- sent and not yet handled, in any order. Logging and metrics but `pending` are left out.
pub mod Validate
pub mod Add
pub mod Block
pub mod Sync
pub mod Invariant
pub mod Adding
pub mod Building
pub mod Dropping
pub mod Syncing
pub mod Cleaning
pub mod Following
pub mod Steps
mod Tests
use nxchain.Base.{
  ℕ, ◌+◌, ◌-◌, ◌%◌, ◌^◌, ltb, Bool, Option, List, [], ◌∷◌, ◌++◌, false, true, if◌then◌else◌, length,
  ◌==◌,
}
use nxchain.Base.Int.{ℤ, pos, negsuc, pos_part, neg_part, ◌+ℤ◌}
use nxchain.Base.Dict.{Dict, contains, insert}
use nxchain.Types.{Transaction, Address, Hash, u64_mod}
use nxchain.Txpool.Queue.{Queue, new_queue}
use nxchain.Txpool.Accounts.{AccountsMap}
use nxchain.Txpool.Index.{LookupMap}
use nxchain.Txpool.Gauge.{SlotGauge}

-- The events of txpool/proto that the pool signals.
pub data EventType : Type 0 where
  added enqueued promoted dropped demoted pruned_promoted pruned_enqueued : EventType

-- The addresses that may deploy contracts. The source keys the map by the address's text, which
-- tells addresses apart.
abbrev pub DeploymentWhitelist : Type 0
DeploymentWhitelist = Dict Bool

pub record Pool : Type 0 where
  pub accounts : AccountsMap
  pub executables : Queue
  pub index : LookupMap
  pub gauge : SlotGauge
  pub price_limit : ℕ
  pub enqueue_requests : List Transaction
  pub promote_requests : List Address
  -- A signal was sent to the loop that prunes.
  pub prune_signalled : Bool
  pub sealing : Bool
  pub events : List (EventType × List Hash)
  pub whitelist : DeploymentWhitelist
  pub pending : ℤ

pub record Config : Type 0 where
  pub price_limit : ℕ
  pub max_slots : ℕ
  pub max_account_enqueued : ℕ
  pub deployment_whitelist : List Address

unfoldable pub whitelist_add : Address → DeploymentWhitelist → DeploymentWhitelist
whitelist_add addr w = insert addr true w

-- Anyone may deploy if the list is empty.
unfoldable pub allowed : Address → DeploymentWhitelist → Bool
allowed addr w = if length w == 0 then true else contains addr w

unfoldable pub new_deployment_whitelist : List Address → DeploymentWhitelist → DeploymentWhitelist
unfolding whitelist_add
new_deployment_whitelist [] w = w
new_deployment_whitelist (addr ∷ addrs) w = new_deployment_whitelist addrs (whitelist_add addr w)

unfoldable pub new_tx_pool : Config → Pool
unfolding new_deployment_whitelist
new_tx_pool config = record {
  accounts = record { entries = []; count = 0; max_enqueued_limit = config.max_account_enqueued };
  executables = new_queue;
  index = [];
  gauge = record { height = 0; max = config.max_slots };
  price_limit = config.price_limit;
  enqueue_requests = [];
  promote_requests = [];
  prune_signalled = false;
  sealing = false;
  events = [];
  whitelist = new_deployment_whitelist config.deployment_whitelist [];
  pending = pos 0;
}

-- An integer as an `int64` keeps it, in two's complement.
unfoldable pub int64_of : ℤ → ℤ
int64_of z =
    let r = (pos_part z + (u64_mod - neg_part z % u64_mod)) % u64_mod in
    if ltb r (2 ^ 63) then pos r else negsuc (u64_mod - r - 1)

-- `atomic.AddInt64` wraps.
unfoldable pub update_pending : ℤ → Pool → Pool
unfolding int64_of
update_pending i p = record p { pending = int64_of (p.pending +ℤ i) }

unfoldable pub signal_event : EventType → List Hash → Pool → Pool
signal_event type hashes p = record p { events = p.events ++ (type, hashes) ∷ [] }

unfoldable pub set_sealing : Bool → Pool → Pool
set_sealing sealing p = record p { sealing = sealing }

pub to_hash : List Transaction → List Hash
to_hash [] = []
to_hash (tx ∷ txs) = tx.hash ∷ to_hash txs
