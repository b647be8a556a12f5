-- ===== src/Registry.antt =====
-- orchestrator/registry.py: the table of nodes, kept up to date by heartbeats.
pub mod Table
pub mod Lifecycle
