-- ===== src/Txpool/Pool/Validate.antt =====
-- txpool/txpool.go: `validateTx`. The transaction comes back too, since the call may set its sender.
use nxchain.Base.{
  sym, ◌∙◌, ◌↔◌, ℕ, ◌*◌, ◌≤◌, ◌≡◌, ◌⊎◌, inl, inr, arith, true, Option, none, some, ltb, ◌==◌,
  if◌then◌else◌, ◌&&◌, not, Option-cases,
}
use nxchain.Base.Int.{ℤ, pos, ltb_ℤ, ◌≤ℤ◌}
use nxchain.Types.{Transaction, zero_address, is_contract_creation, cost, is_underpriced}
use nxchain.State.IntrinsicGas.{transaction_gas_cost}
use nxchain.Txpool.Errors.{
  PoolError, intrinsic_gas, block_limit_exceeded, negative_value, extract_signature, invalid_sender,
  underpriced, nonce_too_low, insufficient_funds, invalid_account_state, oversized_data,
  smart_contract_restricted, intrinsic_gas_overflow,
}
use nxchain.Txpool.World.{World}
use nxchain.Txpool.Pool.{Pool, allowed}

abbrev pub tx_max_size : ℕ
tx_max_size = 128 * 1024

-- The last checks, on the gas.
unfoldable pub check_gas : World → Transaction → Option PoolError
check_gas w tx = elim (transaction_gas_cost tx w.homestead w.istanbul) [
  | none ↦ some intrinsic_gas_overflow
  | some gas ↦
      if ltb tx.gas gas
      then some intrinsic_gas
      else if ltb w.gas_limit tx.gas
      then some block_limit_exceeded
      else none
]

-- The checks against the state of the latest block, and on the gas.
unfoldable pub check_state : World → Transaction → Option PoolError
check_state w tx =
    if ltb tx.nonce (w.get_nonce w.state_root tx.from)
    then some nonce_too_low
    else elim (w.get_balance w.state_root tx.from) [
      | none ↦ some invalid_account_state
      | some balance ↦ if ltb_ℤ balance (cost tx) then some insufficient_funds else check_gas w tx
    ]

-- The checks once the sender is known.
unfoldable pub check_sent : World → Pool → Transaction → Option PoolError
check_sent w p tx =
    if is_contract_creation tx && not (allowed tx.from p.whitelist)
    then some smart_contract_restricted
    else if is_underpriced tx p.price_limit
    then some underpriced
    else check_state w tx

unfoldable pub set_sender : ℕ → Transaction → Transaction
set_sender from tx = if tx.from == zero_address then record tx { from = from } else tx

unfoldable pub validate_tx : World → Pool → Transaction → Option PoolError × Transaction
validate_tx w p tx =
    if ltb tx_max_size tx.size
    then (some oversized_data, tx)
    else if ltb_ℤ tx.value (pos 0)
    then (some negative_value, tx)
    else elim (w.sender tx) [
      | none ↦ (some extract_signature, tx)
      | some from ↦
          if not (tx.from == zero_address) && not (tx.from == from)
          then (some invalid_sender, tx)
          else (check_sent w p (set_sender from tx), set_sender from tx)
    ]

-- What the checks after the sender's ask of a transaction.
pub record IsPayable (w : World) (p : Pool) (tx : Transaction) : Type 0 where
  pub deployer : is_contract_creation tx ≡ true → allowed tx.from p.whitelist ≡ true
  pub price : p.price_limit ≤ tx.gas_price
  pub nonce : w.get_nonce w.state_root tx.from ≤ tx.nonce
  pub balance : ℤ
  pub funded : w.get_balance w.state_root tx.from ≡ some balance
  pub covered : cost tx ≤ℤ balance
  pub intrinsic : ℕ
  pub computed : transaction_gas_cost tx w.homestead w.istanbul ≡ some intrinsic
  pub paid : intrinsic ≤ tx.gas
  pub fits : tx.gas ≤ w.gas_limit

check_gas-none :
    (w : World) (tx : Transaction)
    → check_gas w tx ≡ none
    → (g : ℕ) × (transaction_gas_cost tx w.homestead w.istanbul ≡ some g)
      × (g ≤ tx.gas)
      × (tx.gas ≤ w.gas_limit)
unfolding check_gas
check_gas-none w tx h = elim (Option-cases (transaction_gas_cost tx w.homestead w.istanbul)) [
  | inl e ↦ absurd (ground arith)
  | inr (g, e) ↦ (g, e, ground arith, ground arith)
]

check_state-none :
    (w : World) (tx : Transaction)
    → check_state w tx ≡ none
    → (b : ℤ) × (w.get_nonce w.state_root tx.from ≤ tx.nonce)
      × (w.get_balance w.state_root tx.from ≡ some b)
      × (cost tx ≤ℤ b)
      × (check_gas w tx ≡ none)
unfolding check_state
check_state-none w tx h = elim (Option-cases (w.get_balance w.state_root tx.from)) [
  | inl e ↦ absurd (ground arith)
  | inr (b, e) ↦ (b, ground arith, e, ground arith, ground arith)
]

check_sent-none :
    (w : World) (p : Pool) (tx : Transaction) → check_sent w p tx ≡ none → IsPayable w p tx
unfolding check_sent is_underpriced
check_sent-none w p tx h =
    let passed : check_state w tx ≡ none = ground arith in
    let (b, nonce, funded, covered, last) = check_state-none w tx passed in
    let (g, computed, paid, fits) = check_gas-none w tx last in
    record {
      deployer = λ c. ground arith;
      price = ground arith;
      nonce = nonce;
      balance = b;
      funded = funded;
      covered = covered;
      intrinsic = g;
      computed = computed;
      paid = paid;
      fits = fits;
    }

check_sent-payable :
    (w : World) (p : Pool) (tx : Transaction) → IsPayable w p tx → check_sent w p tx ≡ none
unfolding check_sent check_state check_gas is_underpriced
check_sent-payable w p tx h =
    ground (arith, h.deployer, h.price, h.nonce, h.funded, h.covered, h.computed, h.paid, h.fits)

-- What validateTx asks of a transaction, and the sender that it leaves in it.
pub record IsAcceptable (w : World) (p : Pool) (tx tx' : Transaction) : Type 0 where
  pub small : tx.size ≤ tx_max_size
  pub value : pos 0 ≤ℤ tx.value
  pub signer : ℕ
  pub signed : w.sender tx ≡ some signer
  pub own : (tx.from ≡ zero_address) ⊎ (tx.from ≡ signer)
  pub sent : tx' ≡ record tx { from = signer }
  pub payable : IsPayable w p tx'

set_sender-eq :
    (signer : ℕ) (tx : Transaction)
    → (tx.from ≡ zero_address) ⊎ (tx.from ≡ signer)
    → set_sender signer tx ≡ record tx { from = signer }
unfolding set_sender
set_sender-eq signer tx h = ground arith

validate_tx-accepts :
    (w : World) (p : Pool) (tx tx' : Transaction)
    → validate_tx w p tx ≡ (none, tx')
    → IsAcceptable w p tx tx'
unfolding validate_tx
validate_tx-accepts w p tx tx' h = elim (Option-cases (w.sender tx)) [
  | inl e ↦ absurd (ground arith)
  | inr (s, e) ↦
      let own : (tx.from ≡ zero_address) ⊎ (tx.from ≡ s) = ground arith in
      let left : set_sender s tx ≡ tx' = ground arith in
      let passed : check_sent w p tx' ≡ none = ground arith in
      record {
        small = ground arith;
        value = ground arith;
        signer = s;
        signed = e;
        own = own;
        sent = sym left ∙ set_sender-eq s tx own;
        payable = check_sent-none w p tx' passed;
      }
]

acceptable-validates :
    (w : World) (p : Pool) (tx tx' : Transaction)
    → IsAcceptable w p tx tx'
    → validate_tx w p tx ≡ (none, tx')
unfolding validate_tx
acceptable-validates w p tx tx' a =
    let left : set_sender a.signer tx ≡ tx' = set_sender-eq a.signer tx a.own ∙ sym a.sent in
    ground (arith, a.small, a.value, a.signed, a.own, left, check_sent-payable w p tx' a.payable)

-- validateTx accepts a transaction, leaving it as tx', exactly if: it is at most 128 kB, its value is
-- not negative, it is signed and its sender is unset or the signer, tx' is it with the signer for its
-- sender, and for tx': a deployment is allowed, the price reaches the pool's limit, the nonce reaches
-- the state's, the balance covers the cost, and the gas covers the intrinsic cost within the block's
-- limit.
pub validate_tx_iff :
    (w : World) (p : Pool) (tx tx' : Transaction)
    → (validate_tx w p tx ≡ (none, tx')) ↔ IsAcceptable w p tx tx'
validate_tx_iff w p tx tx' = (validate_tx-accepts w p tx tx', acceptable-validates w p tx tx')
