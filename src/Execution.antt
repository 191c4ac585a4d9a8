-- ===== src/Execution.antt =====
-- The paper fills of src/kiwit/execution.py.
pub mod Fills
pub mod FillLaws
pub mod Broker
pub mod Permanence
mod Tests
