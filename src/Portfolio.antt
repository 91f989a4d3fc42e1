-- ===== src/Portfolio.antt =====
-- The portfolio's rebalancing, src/portfolio/.
pub mod Rebalancing
mod Examples
