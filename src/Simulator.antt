-- ===== src/Simulator.antt =====
-- The paper order lifecycle of src/kiwit/paper_simulator.py.
pub mod Types
pub mod Price
pub mod Step
pub mod Store
pub mod Methods
pub mod Quoted
pub mod Orders
pub mod Invariant
mod Sorted
pub mod Conservation
pub mod Sound
pub mod Retry
pub mod Seals
pub mod Equity
pub mod Rounding
pub mod Lifecycle
pub mod Guarantees
mod Tests
