-- ===== src/Risk.antt =====
-- src/futures_mvp/modules/risk/: the checks before an order is sent.
pub mod Engine
pub mod Tests
