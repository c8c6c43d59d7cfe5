-- ===== src/Txpool/Gauge.antt =====
-- txpool/slot_gauge.go: the gauge of the pool's capacity, on `uint64` arithmetic.
pub mod Laws
use nxchain.Base.{ℕ, ◌+◌, ◌-◌, ◌*◌, ◌/◌, ◌%◌, Bool, List, [], ◌∷◌, ltb}
use nxchain.Types.{Transaction, u64_mod}

abbrev pub tx_slot_size : ℕ
tx_slot_size = 32 * 1024

abbrev pub high_pressure_mark : ℕ
high_pressure_mark = 80

pub record SlotGauge : Type 0 where
  pub height : ℕ
  pub max : ℕ

unfoldable pub increase : ℕ → SlotGauge → SlotGauge
increase slots g = record g { height = (g.height + slots) % u64_mod }

-- `^(slots - 1)`, every bit flipped.
unfoldable pub complement_pred : ℕ → ℕ
complement_pred slots = u64_mod - 1 - (slots + u64_mod - 1) % u64_mod

unfoldable pub decrease : ℕ → SlotGauge → SlotGauge
unfolding complement_pred
decrease slots g = record g { height = (g.height + complement_pred slots) % u64_mod }

unfoldable pub high_pressure : SlotGauge → Bool
high_pressure g = ltb (high_pressure_mark * g.max % u64_mod / 100) g.height

-- The slots of one transaction: its size in units of 32 kB, rounded up.
unfoldable pub slots_of : Transaction → ℕ
slots_of tx = (tx.size + tx_slot_size - 1) % u64_mod / tx_slot_size

pub slots_loop : ℕ → List Transaction → ℕ
slots_loop slots [] = slots
slots_loop slots (tx ∷ txs) = slots_loop ((slots + slots_of tx) % u64_mod) txs

unfoldable pub slots_required : List Transaction → ℕ
unfolding slots_loop slots_of
slots_required txs = slots_loop 0 txs
