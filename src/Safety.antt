-- ===== src/Safety.antt =====
-- src/futures_mvp/modules/ops_safety/: what must hold before the system sends orders to a live market.
pub mod Config
pub mod Gates
pub mod Submit
pub mod Rollout
pub mod LiveGate
pub mod Capital
pub mod Ladder
pub mod Health
pub mod KillSwitch
pub mod Tests
