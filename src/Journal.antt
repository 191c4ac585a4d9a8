-- ===== src/Journal.antt =====
-- The decision journal of src/kiwit/decision_journal.py.
pub mod Store
pub mod Events
pub mod Reading
pub mod RoundTrip
mod Tests
