-- ===== src/Txpool/Pool/Tests.antt =====
-- A run of the pool on a small chain, and the laws of the pool at work on it.
use nxchain.Base.{◌≡◌, ◌↔◌, refl, arith, true, Option, none, some, [], ◌∷◌, ◌++◌, Yields, yields}
use nxchain.Base.Int.{pos, ◌+ℤ◌}
use nxchain.Types.{Transaction}
use nxchain.Txpool.Queue.Order.{zero_transaction}
use nxchain.Txpool.Pool.Validate.{check_gas, check_sent, check_state, set_sender}
use nxchain.Types.{cost, is_contract_creation, is_underpriced}
use nxchain.State.IntrinsicGas.{transaction_gas_cost}
use nxchain.Txpool.Gauge.{decrease, high_pressure, increase, slots_required}
use nxchain.Txpool.Pool.Add.{
  admit_tx, check_room, compute_hash, create_account_once, enqueued_tx, is_future,
}
use nxchain.Txpool.Account.{enqueue, new_account, promote, promote_round}
use nxchain.Txpool.Pool.{
  allowed, new_deployment_whitelist, signal_event, update_pending, whitelist_add,
}
use nxchain.Heap
use nxchain.Txpool.Queue
use nxchain.Txpool.Index
use nxchain.Txpool.Accounts
use nxchain.Txpool.Queue.{peek}
use nxchain.Base.Dict.{lookup, contains}
use nxchain.Txpool.Account.{Account}
use nxchain.Txpool.World.{World}
use nxchain.Txpool.Pool.{Pool, Config, new_tx_pool}
use nxchain.Txpool.Pool.Validate.{validate_tx, IsAcceptable}
use nxchain.Txpool.Pool.Add.{add_tx, handle_enqueue_request, handle_promote_request}
use nxchain.Txpool.Pool.Block.{prepare, pop_tx, drop_tx}
use nxchain.Txpool.Pool.Sync.{reset_with_headers, prune_accounts_with_nonce_holes}
use nxchain.Txpool.Pool.Invariant.{IsPool}
use nxchain.Txpool.Pool.Validate.{validate_tx_iff}
use nxchain.Txpool.Pool.Building.{Prepared, prepare_correct, pop_tx-IsPool}
use nxchain.Txpool.Pool.Dropping.{drop_tx-IsPool}
use nxchain.Txpool.Pool.Cleaning.{prune_holes-IsPool}
use nxchain.Txpool.Pool.Following.{reset_with_headers-IsPool}
use nxchain.Txpool.Pool.Steps.{
  Step, Reach, without_enqueue, without_promote, enqueue_request-handled, promote_request-handled,
  Reach-IsPool,
}

-- Everyone has nonce 0 and enough balance, and address 7 signs.
abbrev world : World
world = record {
  state_root = 1;
  gas_limit = 100000;
  get_nonce = λ root addr. 0;
  get_balance = λ root addr. some (pos 1000000000);
  get_block_by_hash = λ h. none;
  sender = λ tx. some 7;
  compute_hash = λ tx. 55;
  homestead = true;
  istanbul = true;
}

abbrev config : Config
config = record {
  price_limit = 1;
  max_slots = 100;
  max_account_enqueued = 4;
  deployment_whitelist = [];
}

abbrev payment : Transaction
payment = record zero_transaction { gas_price = 2; gas = 21000; to = some 9; size = 120 }

-- The payment as the pool holds it.
abbrev held : Transaction
held = record payment { from = 7; hash = 55 }

abbrev or_new : Option Pool → Pool
or_new none = new_tx_pool config
or_new (some p) = p

abbrev asked : Pool
asked = (add_tx world payment (new_tx_pool config)).1

abbrev waiting : Pool
waiting = or_new (handle_enqueue_request held (without_enqueue [] [] asked))

abbrev ready : Pool
ready = or_new (handle_promote_request 7 (without_promote [] [] waiting))

asked-request : asked.enqueue_requests ≡ [] ++ held ∷ []
unfolding add_tx validate_tx check_sent is_contract_creation set_sender is_underpriced new_tx_pool
    check_state cost ◌+ℤ◌ check_gas transaction_gas_cost high_pressure check_room slots_required
    admit_tx Index.add new_account Accounts.exists Accounts.get Accounts.init_once compute_hash
    create_account_once is_future allowed new_deployment_whitelist signal_event whitelist_add
asked-request = refl

waiting-request : waiting.promote_requests ≡ [] ++ 7 ∷ []
unfolding add_tx validate_tx check_sent is_contract_creation set_sender is_underpriced new_tx_pool
    check_state cost ◌+ℤ◌ check_gas transaction_gas_cost high_pressure check_room slots_required
    admit_tx Index.add new_account Accounts.exists Accounts.get Accounts.init_once compute_hash
    create_account_once is_future allowed new_deployment_whitelist signal_event whitelist_add
    handle_enqueue_request enqueued_tx enqueue Queue.push Queue.nonce_less Heap.push Accounts.put
    increase
waiting-request = refl

found : {P : Pool → Type 0} {r : Option Pool} → Yields P r → r ≡ some (or_new r)
found (yields a p) = refl

step_add : Reach (new_tx_pool config) asked
step_add = Reach.next Reach.here (Step.add world payment (omega arith))

asked-IsPool : IsPool asked
asked-IsPool = Reach-IsPool config step_add

step_enqueue : Reach (new_tx_pool config) waiting
step_enqueue = Reach.next step_add (
    Step.enqueue [] [] held asked-request
      (found (enqueue_request-handled asked [] [] held asked-request asked-IsPool)))

waiting-IsPool : IsPool waiting
waiting-IsPool = Reach-IsPool config step_enqueue

step_promote : Reach (new_tx_pool config) ready
step_promote = Reach.next step_enqueue (
    Step.promote [] [] 7 waiting-request
      (found (promote_request-handled waiting [] [] 7 waiting-request waiting-IsPool)))

Reach-IsPool_example : IsPool ready
Reach-IsPool_example = Reach-IsPool config step_promote

ready-IsPool : IsPool ready
ready-IsPool = Reach-IsPool config step_promote

enqueue_request-handled_example :
    Yields IsPool (handle_enqueue_request held (without_enqueue [] [] asked))
enqueue_request-handled_example =
    enqueue_request-handled asked [] [] held asked-request asked-IsPool

promote_request-handled_example :
    Yields IsPool (handle_promote_request 7 (without_promote [] [] waiting))
promote_request-handled_example =
    promote_request-handled waiting [] [] 7 waiting-request waiting-IsPool

validate_tx_iff_example :
    (validate_tx world (new_tx_pool config) payment ≡ (none, record payment { from = 7 }))
    ↔ IsAcceptable world (new_tx_pool config) payment (record payment { from = 7 })
validate_tx_iff_example =
    validate_tx_iff world (new_tx_pool config) payment (record payment { from = 7 })

prepare_correct_example : Yields (Prepared ready) (prepare ready)
prepare_correct_example = prepare_correct ready

reset_with_headers-IsPool_example : Yields IsPool (reset_with_headers world (3 ∷ []) ready)
reset_with_headers-IsPool_example = reset_with_headers-IsPool world (3 ∷ []) ready ready-IsPool

prune_holes-IsPool_example : Yields IsPool (prune_accounts_with_nonce_holes ready)
prune_holes-IsPool_example = prune_holes-IsPool ready ready-IsPool

ready-account : contains 7 ready.accounts.entries ≡ true
unfolding add_tx validate_tx check_sent is_contract_creation set_sender is_underpriced new_tx_pool
    check_state cost ◌+ℤ◌ check_gas transaction_gas_cost high_pressure check_room slots_required
    admit_tx Index.add new_account Accounts.exists Accounts.get Accounts.init_once compute_hash
    create_account_once is_future allowed new_deployment_whitelist signal_event whitelist_add
    handle_enqueue_request enqueued_tx enqueue Queue.push Queue.nonce_less Heap.push Accounts.put
    increase handle_promote_request promote Queue.pop Queue.prune peek Heap.pop Index.remove
    decrease update_pending promote_round
ready-account = refl

drop_tx-IsPool_example : Yields IsPool (drop_tx held ready)
drop_tx-IsPool_example = drop_tx-IsPool held ready ready-account ready-IsPool

abbrev held_account : Account
held_account = record {
  enqueued = [];
  promoted = held ∷ [];
  next_nonce = 1;
  demotions = 0;
  skips = 0;
  max_enqueued = 4;
}

ready-lookup : lookup 7 ready.accounts.entries ≡ some held_account
unfolding add_tx validate_tx check_sent is_contract_creation set_sender is_underpriced new_tx_pool
    check_state cost ◌+ℤ◌ check_gas transaction_gas_cost high_pressure check_room slots_required
    admit_tx Index.add new_account Accounts.exists Accounts.get Accounts.init_once compute_hash
    create_account_once is_future allowed new_deployment_whitelist signal_event whitelist_add
    handle_enqueue_request enqueued_tx enqueue Queue.push Queue.nonce_less Heap.push Accounts.put
    increase handle_promote_request promote Queue.pop Queue.prune peek Heap.pop Index.remove
    decrease update_pending promote_round
ready-lookup = refl

pop_tx-IsPool_example : Yields IsPool (pop_tx held ready)
unfolding peek
pop_tx-IsPool_example = pop_tx-IsPool held held_account ready ready-lookup refl ready-IsPool
