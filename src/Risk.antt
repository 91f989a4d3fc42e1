-- ===== src/Risk.antt =====
-- Pre-trade risk, src/risk/.
pub mod PreTradeBus
pub mod PositionSizer
mod Examples
