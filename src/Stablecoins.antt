-- ===== src/Stablecoins.antt =====
-- The monitors of stablecoins and bridges, src/stablecoins/.
pub mod BridgeFinality
pub mod DepegSafeguard
mod Examples
