-- ===== src/State/Storage.antt =====
-- state/txn.go: SetStorage, which writes a place of an account's storage and counts the refund. `original`
-- is the value before the transaction and `current` the value now; the refund is a `uint64`.
pub mod Refunds
use nxchain.Base.{ℕ, ◌+◌, ◌-◌, ◌%◌, Bool, true, false, ◌==◌, if◌then◌else◌, ◌&&◌, ◌||◌, not}
use nxchain.Types.{Hash, u64_mod}
use nxchain.Chain.{ForksInTime}
use nxchain.State.Runtime.{StorageStatus}

unfoldable pub add_refund : ℕ → ℕ → ℕ
add_refund refund gas = (refund + gas) % u64_mod

unfoldable pub sub_refund : ℕ → ℕ → ℕ
sub_refund refund gas = (refund + u64_mod - gas) % u64_mod

unfoldable pub legacy_metering : ForksInTime → Bool
legacy_metering f = not f.istanbul && (f.petersburg || not f.constantinople)

-- A place that this transaction has already changed: the refund for deleting or recreating it, ...
unfoldable pub populated_refund : Hash → Hash → Hash → ℕ → ℕ
unfolding add_refund sub_refund
populated_refund original current value refund =
    if original == 0
    then refund
    else if current == 0
    then sub_refund refund 15000
    else if value == 0
    then add_refund refund 15000
    else refund

-- ... and the refund for setting it back to what it was.
unfoldable pub reset_refund : ForksInTime → Hash → Hash → ℕ → ℕ
unfolding add_refund
reset_refund f original value refund =
    if not (original == value)
    then refund
    else if original == 0
    then add_refund refund (if f.istanbul then 19200 else 19800)
    else add_refund refund (if f.istanbul then 4200 else 4800)

-- The status and the refund after the write.
unfoldable pub set_storage : ForksInTime → Hash → Hash → Hash → ℕ → StorageStatus × ℕ
unfolding add_refund legacy_metering populated_refund reset_refund
set_storage f original current value refund =
    if current == value
    then (StorageStatus.unchanged, refund)
    else if legacy_metering f
    then (if current == 0
        then (StorageStatus.added, refund)
        else if value == 0
        then (StorageStatus.deleted, add_refund refund 15000)
        else (StorageStatus.modified, refund))
    else if original == current
    then (if original == 0
        then (StorageStatus.added, refund)
        else if value == 0
        then (StorageStatus.deleted, add_refund refund 15000)
        else (StorageStatus.modified, refund))
    else (
      StorageStatus.modified_again,
      reset_refund f original value (populated_refund original current value refund),
    )
