-- ===== src/Settlement.antt =====
-- src/futures_mvp/modules/settlement: the daily settlement of an account.
pub mod Models
pub mod Calculator
pub mod Store
pub mod Live
pub mod Engine
pub mod Rows
pub mod Writes
pub mod Outcome
pub mod Rolls
pub mod Accounts
pub mod Replay
pub mod Tests
pub mod Retries
