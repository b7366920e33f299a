-- ===== src/CopyEngine.antt =====
-- src/copy_engine.rs: from a notification about the target wallet to the trade that it made.
pub mod Types
pub mod Notification
pub mod Pump
pub mod Balances
pub mod Swap
pub mod Transaction
pub mod Fetch
