-- ===== src/State.antt =====
-- state/: the execution of transactions.
pub mod IntrinsicGas
pub mod Runtime
pub mod Transition
pub mod Storage
pub mod Apply
mod Tests
