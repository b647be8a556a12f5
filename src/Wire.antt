-- ===== src/Wire.antt =====
-- orchestrator/protocol.py: the datagrams between the orchestrator and the nodes.
pub mod Struct
pub mod Kind
pub mod Packet
pub mod Heartbeat
pub mod Fragment
pub mod Nack
pub mod Crc
