-- ===== src/Txpool.antt =====
-- txpool/: the pool of pending transactions.
pub mod Errors
pub mod Queue
pub mod Priced
pub mod Account
pub mod Accounts
pub mod Gauge
pub mod Index
pub mod World
pub mod Pool
mod Tests
