-- ===== src/Recon.antt =====
-- Reconciliation, src/recon/.
pub mod Settlement
pub mod RealTime
mod Examples
