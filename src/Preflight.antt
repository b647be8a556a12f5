-- ===== src/Preflight.antt =====
-- The measurement rehearsal, scripts/preflight.py.
pub mod Distinct
pub mod Queries
pub mod Gates
pub mod Verify
pub mod Cleared
pub mod Counted
pub mod Followed
pub mod Passed
pub mod Sequence
pub mod Handover
