-- ===== src/Oms.antt =====
-- The order management system, src/oms/.
pub mod Order
pub mod Machine
pub mod Stp
pub mod Idempotency
mod Examples
