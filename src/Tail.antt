-- ===== src/Tail.antt =====
-- The tail of the model on the server, orchestrator/tail.py.
pub mod Fifo
