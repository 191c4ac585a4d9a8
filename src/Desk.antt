-- ===== src/Desk.antt =====
-- The Bank Nifty paper desk of src/kiwit/banknifty.py.
pub mod Clock
pub mod State
pub mod Exit
pub mod Monitor
pub mod Plan
pub mod Entry
pub mod Session
pub mod Calls
pub mod Books
pub mod Run
pub mod Keeping
pub mod Bookkeeping
pub mod Permission
pub mod Safety
pub mod Buying
pub mod Phases
pub mod Transitions
pub mod Endings
pub mod Refinement
pub mod Budget
pub mod Spending
pub mod Flattening
pub mod Liquidation
pub mod Tables
pub mod Accounts
mod Tests
