-- ===== src/Pnl.antt =====
-- src/futures_mvp/modules/pnl/: profit and loss of positions and closing trades.
pub mod Calculator
pub mod Tests
