-- ===== src/Server.antt =====
-- orchestrator/server.py: datagrams are unpacked and dispatched to their handlers.
pub mod Dispatch
pub mod Control
pub mod Heartbeats
