-- ===== src/Security.antt =====
-- Security, src/security/.
pub mod NetworkAcl
mod Examples
