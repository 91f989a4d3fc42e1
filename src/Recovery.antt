-- ===== src/Recovery.antt =====
-- Recovery of a feed, src/recovery/.
pub mod SequenceTracker
pub mod BookResync
mod Examples
