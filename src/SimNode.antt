-- ===== src/SimNode.antt =====
-- The simulated node, scripts/sim_node.py.
pub mod Node
pub mod Coherence
pub mod Resend
pub mod Serving
pub mod Stream
pub mod Delivered
