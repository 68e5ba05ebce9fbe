-- ===== src/Domain.antt =====
-- src/futures_mvp/domain: the types that the components exchange.
pub mod Enums
pub mod Orders
pub mod Positions
