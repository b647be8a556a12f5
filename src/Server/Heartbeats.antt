-- ===== src/Server/Heartbeats.antt =====
-- Heartbeats from the node's packer to the registry: orchestrator/protocol.py and
-- orchestrator/server.py.
use split_inference.Base.{
  ℕ, ◌<◌, ◌≡◌, ◌∙◌, nat_eq, string_eq, pair_eq, struct_error, ok, err, length,
}
use split_inference.Base.Exec.{◌>>=◌, lift, modify}
use split_inference.Wire.Kind
use split_inference.Wire.Struct.{Bytes}
use split_inference.Wire.Packet.{Packet, unpack}
use split_inference.Wire.Heartbeat.{Heartbeat, parse_heartbeat, parse_heartbeat_short}
use split_inference.Reassembly.State.{Addr}
use split_inference.Server.Dispatch.{datagram_received}
use split_inference.Server.Control.{Control, take_heartbeat, on_control, arrive_control}

arrive-on_control :
    (now : ℕ) (datagram : Bytes) (addr : Addr) (c : Control) (p : Packet)
    → unpack datagram ≡ ok p
    → p.ptype ≡ Kind.heartbeat
    → arrive_control now datagram addr c
      ≡ datagram_received
          (λ _ _ _.
            lift (parse_heartbeat p.payload) >>= λ hb. modify (take_heartbeat now p addr hb))
          datagram
          addr
          c
unfolding arrive_control datagram_received on_control
arrive-on_control now datagram addr c p h kind = rw (h, kind)

-- A datagram that unpacks to a HEARTBEAT with fewer than 13 payload bytes raises `struct.error`
-- out of the handler and writes nothing.
pub short_heartbeat_raises :
    (now : ℕ) (datagram : Bytes) (addr : Addr) (c : Control) (p : Packet)
    → unpack datagram ≡ ok p
    → p.ptype ≡ Kind.heartbeat
    → length p.payload < 13
    → arrive_control now datagram addr c ≡ (err struct_error, c)
unfolding datagram_received
short_heartbeat_raises now datagram addr c p h kind short =
    arrive-on_control now datagram addr c p h kind ∙ rw (h, parse_heartbeat_short p.payload short)
