-- ===== src/Risk.antt =====
-- The risk engine and the hard risk policy of src/kiwit/risk.py and src/kiwit/risk_policy.py.
pub mod Types
pub mod Engine
pub mod Approval
pub mod Policy
pub mod Permission
pub mod Rejection
mod Tests
