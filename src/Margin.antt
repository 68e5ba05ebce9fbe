-- ===== src/Margin.antt =====
-- src/futures_mvp/modules/margin/: the margin that a position needs.
pub mod Calculator
pub mod Tests
