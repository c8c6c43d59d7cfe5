-- ===== src/State/Transition/Tests.antt =====
-- Calls over a small state.
use nxchain.Base.{length, ℕ, ◌+◌, ◌/◌, ◌≡◌, refl, arith, true, false, some, []}
use nxchain.Chain.{forks_at, all_forks_enabled, active}
use nxchain.State.Runtime.{VmError, CallType, Contract, StorageStatus, Host, failed}
use nxchain.State.Transition.{
  Ledger, Runtimes, stopped_with, callx, apply_create, run_create, store_code, run, transfer,
  has_code_or_nonce, is_create,
}
use nxchain.State.Transition.Gas.{KeepsGas, callx-ReturnsGas}
use nxchain.State.Transition.Failing.{LeftBy, callx-LeftBy}
use nxchain.State.Storage.{set_storage, legacy_metering}
use nxchain.State.Storage.Refunds.{held_for, reset_bonus, set_storage-refund}
use nxchain.State.Apply.{Block, apply}
use nxchain.State.Apply.Accounting.{Accounts, apply-Accounts}
use nxchain.Txpool.Queue.Order.{zero_transaction}
use nxchain.Evm.Instructions.Calls.{Hashes}
use nxchain.Evm.Gas.Calls.{ReturnsGas}

-- A state of one number, the nonce of every account; a contract always runs into an error and gives back
-- half of its gas.
abbrev ledger : Ledger ℕ
ledger = record {
  sub_balance = λ a v s. some s;
  add_balance = λ a v s. s;
  get_nonce = λ a s. 0;
  incr_nonce = λ a s. s + 1;
  get_code_hash = λ a s. 0;
  set_code = λ a code s. s + 100;
  create_account = λ a s. s + 10;
  touch_account = λ a s. s + 1000;
  get_balance = λ a s. 1000000;
  get_code = λ a s. [];
  get_refund = λ s. 0;
}

abbrev runtimes : Runtimes ℕ
runtimes = record {
  precompiled = λ c. false;
  run_precompiled = λ c s. (stopped_with VmError.out_of_gas 0, s);
  run_evm = λ c s. (stopped_with VmError.execution_reverted (c.gas / 2), s + 5);
}

abbrev creation : Contract
creation = record {
  code = [];
  type = CallType.create;
  code_address = 9;
  address = 9;
  origin = 1;
  caller = 1;
  depth = 1;
  value = some 3;
  input = [];
  gas = 100;
  static = false;
}

abbrev some_host : Host ℕ
some_host = record {
  account_exists = λ a w. true;
  get_storage = λ a k w. w;
  set_storage = λ a k v f w. (StorageStatus.modified, v);
  get_balance = λ a w. 10;
  get_code_size = λ a w. 0;
  get_code_hash = λ a w. 0;
  get_code = λ a w. [];
  selfdestruct = λ a b w. w;
  get_tx_context = record {
    gas_price = 0;
    origin = 1;
    coinbase = 2;
    number = 3;
    timestamp = 4;
    gas_limit = 5;
    chain_id = 6;
    difficulty = 7;
  };
  get_block_hash = λ n w. 0;
  emit_log = λ a t d w. w;
  callx = λ k w. (stopped_with VmError.out_of_gas 0, w);
  empty = λ a w. false;
  get_nonce = λ a w. 0;
}

precompiled_keeps : KeepsGas runtimes.run_precompiled
unfolding stopped_with
precompiled_keeps c s = omega arith

evm_keeps : KeepsGas runtimes.run_evm
unfolding stopped_with
evm_keeps c s = omega arith

callx-ReturnsGas_example :
    ReturnsGas
      (record some_host { callx = callx ledger runtimes (forks_at all_forks_enabled 0) 77 })
callx-ReturnsGas_example =
    callx-ReturnsGas ledger runtimes (forks_at all_forks_enabled 0) 77 precompiled_keeps evm_keeps
      some_host

creation_fails :
    failed (callx ledger runtimes (forks_at all_forks_enabled 0) 77 creation 0).0 ≡ true
unfolding failed callx apply_create run_create store_code run transfer has_code_or_nonce is_create
    stopped_with forks_at active
creation_fails = refl

homestead_on : (forks_at all_forks_enabled 0).homestead ≡ true
unfolding forks_at active
homestead_on = refl

callx-LeftBy_example :
    LeftBy ledger
      (forks_at all_forks_enabled 0)
      creation
      0
      (callx ledger runtimes (forks_at all_forks_enabled 0) 77 creation 0).0
      (callx ledger runtimes (forks_at all_forks_enabled 0) 77 creation 0).1
callx-LeftBy_example =
    callx-LeftBy ledger runtimes (forks_at all_forks_enabled 0) 77 homestead_on creation 0
      creation_fails

net_metering : legacy_metering (forks_at all_forks_enabled 0) ≡ false
unfolding legacy_metering forks_at active
net_metering = refl

-- A place of value 5, deleted before and now set back to 5.
set_storage-refund_example :
    (set_storage (forks_at all_forks_enabled 0) 5 0 5 15000).1 + held_for 5 0
    ≡ 15000 + held_for 5 5 + reset_bonus (forks_at all_forks_enabled 0) 5 0 5
set_storage-refund_example =
    set_storage-refund (forks_at all_forks_enabled 0) 5 0 5 15000 net_metering (omega arith)
      (omega arith)

abbrev hashes : Hashes
hashes = record { keccak256 = length; marshal = λ a n. a }

abbrev block : Block ℕ
block = record { txn = 0; gas_pool = 90000 }

-- A call that its contract reverts, with half of the gas that is left after the intrinsic gas.
apply-Accounts_example :
    Accounts ledger
      (record zero_transaction { to = some 9; gas = 30000 })
      block
      (apply hashes ledger runtimes
        (forks_at all_forks_enabled 0)
        77
        5
        (record zero_transaction { to = some 9; gas = 30000 })
        block)
apply-Accounts_example =
    apply-Accounts hashes ledger runtimes (forks_at all_forks_enabled 0) 77 5 precompiled_keeps
      evm_keeps (record zero_transaction { to = some 9; gas = 30000 }) (omega arith) block
      (omega arith)
