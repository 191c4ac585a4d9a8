-- ===== src/Audit.antt =====
-- The hash-chained audit log of src/kiwit/audit.py.
pub mod Log
pub mod Chain
pub mod Tampering
mod Tests
