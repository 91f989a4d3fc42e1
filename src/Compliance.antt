-- ===== src/Compliance.antt =====
-- Compliance, src/compliance/.
pub mod RateLimiter
pub mod Jurisdiction
mod Examples
