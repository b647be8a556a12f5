-- ===== src/Experiment.antt =====
-- The experiment driver, orchestrator/experiment.py.
pub mod Best
pub mod Driver
pub mod Session
pub mod Waiting
pub mod Endings
