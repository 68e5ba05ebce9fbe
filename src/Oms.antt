-- ===== src/Oms.antt =====
-- The order management system: its status machine, its tables and its service.
pub mod Status
pub mod Store
pub mod Events
pub mod Journal
pub mod Writes
pub mod Service
pub mod Recovery
pub mod Trace
pub mod Tests
