-- ===== src/Ledger.antt =====
-- The paper ledger of src/kiwit/paper_trading.py.
pub mod Tables
pub mod Rows
pub mod Review
pub mod Pricing
pub mod Trade
pub mod Run
pub mod Records
pub mod Authorization
mod Amounts
pub mod Settlement
pub mod Retry
mod Tests
