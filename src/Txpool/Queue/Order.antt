-- ===== src/Txpool/Queue/Order.antt =====
-- The order of an account's queue, and what a valid queue is.
use nxchain.Base.{◌≤◌, ◌≡◌, true, false, none, some, [], ◌∷◌, arith, length, All, All-weaken}
use mathlib.Core.Path.{subst}
use mathlib.Core.Option.{some-injective}
use nxchain.Base.Int.{pos}
use nxchain.Types.{Transaction}
use nxchain.Heap.Order.{IsOrder, IsHeap}
use nxchain.Heap.Ends.{root-All}
use nxchain.Txpool.Queue.{Queue, nonce_less, peek}

abbrev pub zero_transaction : Transaction
zero_transaction = record {
  nonce = 0;
  gas_price = 0;
  gas = 0;
  to = none;
  value = pos 0;
  input = [];
  v = 0;
  r = 0;
  s = 0;
  hash = 0;
  from = 0;
  size = 0;
}

nonce_less-asym : (x y : Transaction) → nonce_less x y ≡ true → nonce_less y x ≡ false
unfolding nonce_less
nonce_less-asym x y h = ground arith

nonce_less-chain :
    (x y z : Transaction) → nonce_less y x ≡ false → nonce_less z y ≡ false → nonce_less z x ≡ false
unfolding nonce_less
nonce_less-chain x y z h k = ground arith

pub nonce_less-IsOrder : IsOrder nonce_less
nonce_less-IsOrder = record { asym = nonce_less-asym; chain = nonce_less-chain }

-- The slice is a heap of the order.
abbrev pub IsQueue : Queue → Type 0
IsQueue q = IsHeap nonce_less zero_transaction (length q) q

-- What `nonce_less y x ≡ false` says in numbers.
pub first_in_numbers :
    (x y : Transaction)
    → nonce_less y x ≡ false
    → (x.nonce ≤ y.nonce) × (x.nonce ≡ y.nonce → y.gas_price ≤ x.gas_price)
unfolding nonce_less
first_in_numbers x y h = ground arith

-- The entry that `peek` sees precedes every other.
pub peek-first :
    (q : Queue) (tx : Transaction)
    → IsQueue q
    → peek q ≡ some tx
    → All (λ y. nonce_less y tx ≡ false) q
unfolding peek
peek-first [] tx h e = tt
peek-first (x ∷ q) tx h e =
    subst (λ t. All (λ y. nonce_less y t ≡ false) (x ∷ q)) (some-injective x tx e)
      (root-All nonce_less zero_transaction nonce_less-IsOrder (x ∷ q) h)

pub peek-least :
    (q : Queue) (tx : Transaction) → IsQueue q → peek q ≡ some tx → All (λ y. tx.nonce ≤ y.nonce) q
peek-least q tx h e =
    All-weaken (λ y. nonce_less y tx ≡ false) (λ y. tx.nonce ≤ y.nonce) q
      (λ y k. (first_in_numbers tx y k).0) (peek-first q tx h e)
