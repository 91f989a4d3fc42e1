-- ===== src/Transport.antt =====
-- The message paths between threads, src/transport/.
pub mod RingBuffer
pub mod SharedMemory
pub mod IpcChannel
mod Examples
