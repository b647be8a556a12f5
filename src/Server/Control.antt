-- ===== src/Server/Control.antt =====
-- `FleetServer._on_control`, orchestrator/server.py.
use split_inference.Base.{
  ℕ, Bool, true, ◌&&◌, List, [], ◌∷◌, ◌++◌, if◌then◌else◌, ◌==◌, nat_eq, string_eq, pair_eq,
}
use split_inference.Base.Exec.{Exec, ◌>>=◌, lift, pure, modify}
use split_inference.Base.Int.{ℤ}
use split_inference.Wire.Kind
use split_inference.Wire.Struct.{Bytes}
use split_inference.Wire.Packet.{Packet}
use split_inference.Wire.Heartbeat.{Heartbeat, parse_heartbeat}
use split_inference.Reassembly.State.{Addr}
use split_inference.Registry.Table.{Event, update_heartbeat}
use split_inference.Scheduler.World.{World, on_assign_ack}
use split_inference.Server.Dispatch.{datagram_received}

-- The arguments of log_heartbeat.
pub record HeartbeatRow : Type 0 where
  pub node_id : ℕ
  pub rssi : ℤ
  pub free_heap : ℕ
  pub temp : ℤ
  pub boot_count : ℕ
  pub fw_hash : ℕ

-- What the control socket writes: the world of the scheduler, the events printed, the log.
pub record Control : Type 0 where
  pub world : World
  pub printed : List Event
  pub heartbeats : List HeartbeatRow

-- The handler of a HEARTBEAT that parsed.
abbrev pub take_heartbeat : ℕ → Packet → Addr → Heartbeat → Control → Control
take_heartbeat now pkt addr hb c =
    let (events, nodes) = update_heartbeat pkt.node_id addr hb now c.world.nodes in
    record {
      world = record c.world { nodes = nodes };
      printed = c.printed ++ events;
      heartbeats =
          c.heartbeats
          ++ record {
            node_id = pkt.node_id;
            rssi = hb.rssi;
            free_heap = hb.free_heap;
            temp = hb.temp;
            boot_count = hb.boot_count;
            fw_hash = hb.fw_hash;
          }
            ∷ [];
    }

-- Before `wired`, the server has no scheduler and drops acknowledgements.
unfoldable pub on_control : Bool → ℕ → Packet → Addr → ℕ → Exec Control Unit
on_control wired now pkt addr datagram_len =
    if pkt.ptype == Kind.heartbeat
    then (lift (parse_heartbeat pkt.payload) >>= λ hb. modify (take_heartbeat now pkt addr hb))
    else if (pkt.ptype == Kind.assign_ack) && wired
    then modify (λ c. record c { world = on_assign_ack pkt.node_id pkt.req_id c.world })
    else pure tt

-- A datagram that arrives at the control port of a running server at the time `now`.
unfoldable pub arrive_control : ℕ → Bytes → Addr → Exec Control Unit
arrive_control now datagram addr = datagram_received (on_control true now) datagram addr
