-- ===== src/Examples/ServerRuns.antt =====
-- The theorems on orchestrator/server.py at concrete inputs.
use split_inference.Base.{
  ◌≡◌, refl, [], ◌∷◌, arith, nat_eq, string_eq, pair_eq, struct_error, ok, err,
}
use split_inference.Wire.Kind
use split_inference.Wire.Struct.{Bytes, pack_fields}
use split_inference.Wire.Packet.{Packet, pack}
use split_inference.Wire.Packet.Laws.{unpack-pack}
use split_inference.Server.Control.{Control, arrive_control}
use split_inference.Server.Heartbeats.{short_heartbeat_raises}
use split_inference.Examples.Setup.{address, heartbeat}
use split_inference.Examples.SchedulerRuns.{entered}

abbrev listening : Control
listening = record { world = entered; printed = []; heartbeats = [] }

-- A HEARTBEAT that ends after the signal strength.
abbrev cut_short : Bytes
cut_short = 245 ∷ 1 ∷ 11 ∷ 0 ∷ 0 ∷ 0 ∷ 0 ∷ 0 ∷ 206 ∷ []

abbrev short_packet : Packet
short_packet = record { ptype = Kind.heartbeat; node_id = 11; req_id = 0; payload = 206 ∷ [] }

short_packed : pack Kind.heartbeat 11 0 (206 ∷ []) ≡ ok cut_short
unfolding pack pack_fields
short_packed = refl

short_heartbeat_raises_example :
    arrive_control 500 cut_short address listening ≡ (err struct_error, listening)
short_heartbeat_raises_example =
    short_heartbeat_raises 500 cut_short address listening short_packet
      (unpack-pack Kind.heartbeat 11 0 (206 ∷ []) cut_short short_packed) refl (omega arith)
