-- ===== src/Wire/Heartbeat.antt =====
-- Heartbeats: `Heartbeat`, `pack_heartbeat` and `parse_heartbeat` of orchestrator/protocol.py.
use split_inference.Base.{
  ℕ, ◌<◌, ◌≡◌, [], append-nil, arith, nat_eq, string_eq, pair_eq, struct_error, Result, ok, err,
  ◌>>=◌, length, range,
}
use split_inference.Base.Int.{ℤ}
use split_inference.Wire.Kind
use split_inference.Wire.Struct.{
  Bytes, Values, InRange, pack_fields, pack_fields_total, unpack_from, unpack_from-pack_fields,
  unpack_from_short,
}
use split_inference.Wire.Packet.{heartbeat_s, pack, unpack}
use split_inference.Wire.Packet.Laws.{unpack-pack, pack_total}

pub record Heartbeat : Type 0 where
  pub rssi : ℤ
  pub free_heap : ℕ
  pub temp : ℤ
  pub fw_hash : ℕ
  pub busy : ℕ
  pub boot_count : ℕ

abbrev pub fields : Heartbeat → Values heartbeat_s
fields hb = (hb.rssi, (hb.free_heap, (hb.temp, (hb.fw_hash, (hb.busy, (hb.boot_count, tt))))))

abbrev of_fields : Values heartbeat_s → Heartbeat
of_fields (rssi, (free_heap, (temp, (fw_hash, (busy, (boot_count, _)))))) = record {
  rssi = rssi;
  free_heap = free_heap;
  temp = temp;
  fw_hash = fw_hash;
  busy = busy;
  boot_count = boot_count;
}

pub pack_heartbeat : ℕ → Heartbeat → Result Bytes
pack_heartbeat node_id hb = do
  payload ← pack_fields heartbeat_s (fields hb)
  pack Kind.heartbeat node_id 0 payload

unfoldable pub parse_heartbeat : Bytes → Result Heartbeat
parse_heartbeat payload = do values ← unpack_from heartbeat_s payload; ok (of_fields values)

-- A heartbeat whose node and fields fit the format is packed, unpacks to a HEARTBEAT of its node
-- and parses to the same heartbeat.
pub parse-pack_heartbeat :
    (node_id : ℕ) (hb : Heartbeat)
    → node_id < 65536
    → InRange heartbeat_s (fields hb)
    → (datagram payload : Bytes) × (pack_heartbeat node_id hb ≡ ok datagram)
      × (unpack datagram
          ≡ ok
              (record { ptype = Kind.heartbeat; node_id = node_id; req_id = 0; payload = payload }))
      × (parse_heartbeat payload ≡ ok hb)
unfolding pack_heartbeat parse_heartbeat
parse-pack_heartbeat node_id hb fits range =
    let (payload, packed) = pack_fields_total heartbeat_s (fields hb) range in
    let (datagram, sent) =
      pack_total Kind.heartbeat node_id 0 payload (omega arith) fits (omega arith) in
    let read = unpack_from-pack_fields heartbeat_s (fields hb) payload packed [] in
    (
      datagram,
      payload,
      rw (packed, sent),
      unpack-pack Kind.heartbeat node_id 0 payload datagram sent,
      rw (← append-nil payload, read),
    )

-- A HEARTBEAT with fewer than 13 payload bytes raises `struct.error`.
pub parse_heartbeat_short :
    (payload : Bytes) → length payload < 13 → parse_heartbeat payload ≡ err struct_error
unfolding parse_heartbeat
parse_heartbeat_short payload h = rw (unpack_from_short heartbeat_s payload h)
