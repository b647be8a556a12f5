-- ===== src/Policy.antt =====
-- orchestrator/policy.py: which cut a node runs next.
pub mod Choice
pub mod Sweep
pub mod Clamp
pub mod Deepest
