-- ===== src/State/Storage/Refunds.antt =====
-- state/txn.go: the refund of a place of storage under net metering.
use nxchain.Base.{ℕ, ◌+◌, ◌^◌, ◌≤◌, ◌<◌, false, ◌==◌, if◌then◌else◌, ◌&&◌, not, ◌≡◌, arith}
use nxchain.Types.{Hash}
use nxchain.Chain.{ForksInTime}
use nxchain.State.Storage.{
  add_refund, sub_refund, legacy_metering, populated_refund, reset_refund, set_storage,
}

-- What the counter holds for a place of this value: it is deleted now and was not before.
abbrev pub held_for : Hash → Hash → ℕ
held_for original value = if not (original == 0) && value == 0 then 15000 else 0

-- What the reset to the original value is worth.
abbrev pub reset_bonus : ForksInTime → Hash → Hash → Hash → ℕ
reset_bonus f original current value =
    if original == value && not (current == value)
    then (if original == 0
        then (if f.istanbul then 19200 else 19800)
        else if f.istanbul
        then 4200
        else 4800)
    else 0

-- Under net metering, with a counter that holds what the place has earned and is far from its bound: the
-- write trades what is held for the old value for what is held for the new one, and adds the bonus of a
-- reset; so the counter never runs below zero.
pub set_storage-refund :
    (f : ForksInTime) (original current value refund : ℕ)
    → legacy_metering f ≡ false
    → held_for original current ≤ refund
    → refund < 2 ^ 63
    → (set_storage f original current value refund).1 + held_for original current
      ≡ refund + held_for original value + reset_bonus f original current value
unfolding set_storage populated_refund reset_refund add_refund sub_refund
set_storage-refund f original current value refund net held far = ground arith
