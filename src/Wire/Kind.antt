-- ===== src/Wire/Kind.antt =====
-- The packet types of orchestrator/protocol.py.
use split_inference.Base.{ℕ}

abbrev pub heartbeat : ℕ
heartbeat = 1

abbrev pub assign : ℕ
assign = 2

abbrev pub assign_ack : ℕ
assign_ack = 3

abbrev pub data_frag : ℕ
data_frag = 4

abbrev pub nack : ℕ
nack = 5

abbrev pub abort : ℕ
abort = 6

abbrev pub result : ℕ
result = 7
