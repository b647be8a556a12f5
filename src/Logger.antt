-- ===== src/Logger.antt =====
-- The run database, orchestrator/logger.py.
pub mod Rows
