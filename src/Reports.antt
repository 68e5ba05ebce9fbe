-- ===== src/Reports.antt =====
-- What the exchange reports: src/futures_mvp/modules/execution_reports/, oms_event_application/ and
-- oms_to_trade/, from a raw report to an order's event and to a trade.
pub mod Models
pub mod Normalizer
pub mod Events
pub mod Application
pub mod Proof
pub mod Trades
pub mod Bridge
pub mod Flow
pub mod Replay
pub mod Tests
