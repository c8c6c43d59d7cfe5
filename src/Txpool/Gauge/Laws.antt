-- ===== src/Txpool/Gauge/Laws.antt =====
-- The gauge counts modulo 2^64.
use nxchain.Base.{ℕ, ◌+◌, ◌-◌, ◌*◌, ◌%◌, ◌≤◌, ◌<◌, ◌≡◌, ◌↔◌, true, List, [], ◌∷◌, arith}
use nxchain.Base.Sums.{sum_of}
use nxchain.Types.{Transaction, u64_mod}
use nxchain.Txpool.Gauge.{
  SlotGauge, increase, decrease, high_pressure, slots_of, slots_loop, slots_required, tx_slot_size,
}

-- decrease takes the slots off, modulo 2^64.
pub decrease-height :
    (slots : ℕ) (g : SlotGauge)
    → slots < u64_mod
    → (decrease slots g).height ≡ (g.height + (u64_mod - slots)) % u64_mod
unfolding decrease
decrease-height slots g h = omega arith

-- decrease undoes increase, where the slots and the height are uint64 values.
pub decrease-increase :
    (slots : ℕ) (g : SlotGauge)
    → slots < u64_mod
    → g.height < u64_mod
    → decrease slots (increase slots g) ≡ g
unfolding decrease increase
decrease-increase slots g h k = ground arith

slots_loop-eq :
    (acc : ℕ) (txs : List Transaction)
    → slots_loop acc txs % u64_mod ≡ (acc + sum_of slots_of txs) % u64_mod
unfolding slots_loop
slots_loop-eq acc [] = omega arith
slots_loop-eq acc (tx ∷ txs) = omega (arith, slots_loop-eq ((acc + slots_of tx) % u64_mod) txs)

slots_loop-lt : (acc : ℕ) (txs : List Transaction) → acc < u64_mod → slots_loop acc txs < u64_mod
unfolding slots_loop
slots_loop-lt acc [] h = h
slots_loop-lt acc (tx ∷ txs) h = slots_loop-lt ((acc + slots_of tx) % u64_mod) txs (omega arith)

-- The slots of a list are the sum of its transactions' slots, modulo 2^64.
pub slots_required-eq :
    (txs : List Transaction) → slots_required txs ≡ sum_of slots_of txs % u64_mod
unfolding slots_required
slots_required-eq txs = omega (arith, slots_loop-eq 0 txs, slots_loop-lt 0 txs (omega arith))

-- The pressure is high exactly above 80% of the maximum, where 80 times the maximum is a uint64.
pub high_pressure_iff :
    (g : SlotGauge)
    → 80 * g.max < u64_mod
    → (high_pressure g ≡ true) ↔ (80 * g.max < 100 * g.height)
unfolding high_pressure
high_pressure_iff g h = ground arith

-- A transaction takes the least number of slots that hold its bytes, where its size and one slot
-- more are still a uint64.
pub slots_of_bounds :
    (tx : Transaction)
    → tx.size + tx_slot_size < u64_mod
    → (tx.size ≤ slots_of tx * tx_slot_size) × (slots_of tx * tx_slot_size < tx.size + tx_slot_size)
unfolding slots_of
slots_of_bounds tx h = omega arith
