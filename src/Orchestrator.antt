-- ===== src/Orchestrator.antt =====
-- The durable paper-session lifecycle of src/kiwit/session_orchestrator.py.
pub mod Types
pub mod Advance
pub mod Tick
pub mod Entries
pub mod Table
pub mod Guarantees
pub mod Completion
mod Tests
