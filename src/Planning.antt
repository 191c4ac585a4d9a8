-- ===== src/Planning.antt =====
-- The position plan of src/kiwit/sizing.py.
pub mod Rules
pub mod Plan
pub mod Soundness
mod Tests
