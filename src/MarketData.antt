-- ===== src/MarketData.antt =====
-- Market data, src/market_data/.
pub mod OrderBook
mod Examples
pub mod SbeCodec
