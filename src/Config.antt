-- ===== src/Config.antt =====
-- orchestrator/config.py: the typed view of config.yaml, and its derived helpers.
pub mod Types
pub mod Cuts
