-- ===== src/Options.antt =====
-- The options experiment: src/kiwit/options_policy.py, src/kiwit/options_risk.py and
-- src/kiwit/options_events.py.
pub mod Reconsider
pub mod Attempts
pub mod Costs
pub mod Sizing
pub mod Capacities
pub mod Exits
pub mod Targets
pub mod TargetSearch
pub mod Gate
pub mod GateLaws
pub mod GateOrder
mod Tests
