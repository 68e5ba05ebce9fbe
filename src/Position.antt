-- ===== src/Position.antt =====
-- The position manager: trades applied to positions, with a ledger of events.
pub mod Apply
pub mod Store
pub mod Manager
pub mod Books
pub mod Outcome
pub mod Sums
pub mod Ledger
pub mod Derived
pub mod Retries
pub mod Replay
pub mod Tests
