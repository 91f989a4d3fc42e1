-- ===== src/Normalization.antt =====
-- The normalized books of all venues, src/normalization/.
pub mod L2
mod Examples
