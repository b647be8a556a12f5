-- ===== src/Reassembly.antt =====
-- orchestrator/reassembly.py: fragments of each request are collected until they are complete, and
-- missing ones are asked for by NACK.
pub mod State
pub mod Receive
pub mod Chunks
pub mod Steps
pub mod Delivery
pub mod Tensor
pub mod Timeout
pub mod Invariant
