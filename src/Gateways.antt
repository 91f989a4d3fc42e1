-- ===== src/Gateways.antt =====
-- The gateways to the venues, src/gateways/.
pub mod Manager
pub mod FixParse
pub mod FixEngine
mod Examples
