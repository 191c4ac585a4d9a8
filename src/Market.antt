-- ===== src/Market.antt =====
-- Canonical market data: candles, their order, and the assessment of a market, of
-- src/kiwit/marketdata/canonical.py.
pub mod Candles
pub mod Assessment
pub mod Order
pub mod Soundness
pub mod Groww
mod Tests
