-- ===== src/Execution.antt =====
-- Execution algorithms and routing, src/execution/.
pub mod Iceberg
pub mod Schedule
pub mod Router
pub mod QueuePosition
mod Examples
