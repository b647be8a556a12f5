-- ===== src/Examples/WireRuns.antt =====
-- The theorems on orchestrator/protocol.py at concrete inputs.
use split_inference.Base.{◌≡◌, refl, List, [], ◌∷◌, ◌++◌, arith, nat_eq, string_eq, pair_eq, ok}
use split_inference.Wire.Struct.{Bytes, pack_fields}
use split_inference.Wire.Packet.{Packet, pack, unpack}
use split_inference.Wire.Packet.Laws.{unpack-pack, pack-unpack}
use split_inference.Wire.Heartbeat.{pack_heartbeat, parse_heartbeat, parse-pack_heartbeat}
use split_inference.Wire.Kind
use split_inference.Wire.Fragment.{fragment_tensor, slices, pack_frags}
use split_inference.Wire.Fragment.Split.{IsSplit, fragment_tensor-IsSplit, fragment_tensor_total}
use split_inference.Wire.Nack.{pack_nack}
use split_inference.Wire.Nack.RoundTrip.{IsNack, pack_nack-IsNack}
use split_inference.Examples.Setup.{heartbeat}

abbrev datagram : Bytes
datagram = 245 ∷ 2 ∷ 11 ∷ 0 ∷ 7 ∷ 0 ∷ 0 ∷ 0 ∷ 1 ∷ []

abbrev packet : Packet
packet = record { ptype = 2; node_id = 11; req_id = 7; payload = 1 ∷ [] }

packed : pack 2 11 7 (1 ∷ []) ≡ ok datagram
unfolding pack pack_fields
packed = refl

unpacked : unpack datagram ≡ ok packet
unpacked = unpack-pack 2 11 7 (1 ∷ []) datagram packed

pack-unpack_example : pack 2 11 7 (1 ∷ []) ≡ ok datagram
pack-unpack_example =
    pack-unpack datagram packet
      (
        omega arith,
        (
          omega arith,
          (
            omega arith,
            (
              omega arith,
              (omega arith, (omega arith, (omega arith, (omega arith, (omega arith, tt))))),
            ),
          ),
        ),
      )
      unpacked

unpack-pack_example : unpack datagram ≡ ok packet
unpack-pack_example = unpack-pack 2 11 7 (1 ∷ []) datagram packed

parse-pack_heartbeat_example :
    (datagram payload : Bytes) × (pack_heartbeat 11 heartbeat ≡ ok datagram)
    × (unpack datagram
        ≡ ok (record { ptype = Kind.heartbeat; node_id = 11; req_id = 0; payload = payload }))
    × (parse_heartbeat payload ≡ ok heartbeat)
parse-pack_heartbeat_example =
    parse-pack_heartbeat 11 heartbeat (omega arith)
      (omega arith, (omega arith, (omega arith, (omega arith, (omega arith, (omega arith, tt))))))

pack_nack-IsNack_example :
    (datagram : Bytes) × (pack_nack 11 7 (1 ∷ 4 ∷ []) 9 ≡ ok datagram)
    × IsNack 11 7 (1 ∷ 4 ∷ []) 9 datagram
pack_nack-IsNack_example =
    pack_nack-IsNack 11 7 (1 ∷ 4 ∷ []) 9 (omega arith) (omega arith) (omega arith)
      (omega arith, (omega arith, tt))

abbrev pub tensor : Bytes
tensor = 1 ∷ 2 ∷ 3 ∷ []

-- The checksum, 120000 and 5 microseconds.
abbrev pub trailer : Bytes
trailer = 29 ∷ 128 ∷ 188 ∷ 85 ∷ 192 ∷ 212 ∷ 1 ∷ 0 ∷ 5 ∷ 0 ∷ 0 ∷ 0 ∷ []

fragment_tensor_total_example : (ds : List Bytes) × (fragment_tensor 11 7 tensor trailer 8 ≡ ok ds)
fragment_tensor_total_example =
    fragment_tensor_total 11 7 tensor trailer 8 (omega arith) (omega arith) (omega arith)
      (omega arith)

abbrev pub torn_datagrams : List Bytes
torn_datagrams =
    (245 ∷ 4 ∷ 11 ∷ 0 ∷ 7 ∷ 0 ∷ 0 ∷ 0 ∷ 0 ∷ 0 ∷ 2 ∷ 0 ∷ 1 ∷ 2 ∷ 3 ∷ 29 ∷ 128 ∷ 188 ∷ 85 ∷ 192 ∷ [])
    ∷ (245 ∷ 4 ∷ 11 ∷ 0 ∷ 7 ∷ 0 ∷ 0 ∷ 0 ∷ 1 ∷ 0 ∷ 2 ∷ 0 ∷ 212 ∷ 1 ∷ 0 ∷ 5 ∷ 0 ∷ 0 ∷ 0 ∷ [])
    ∷ []

pub fragmented_at_8 : fragment_tensor 11 7 tensor trailer 8 ≡ ok torn_datagrams
unfolding fragment_tensor slices pack_frags pack pack_fields
fragmented_at_8 = refl

abbrev pub whole_datagrams : List Bytes
whole_datagrams =
    (245 ∷ 4 ∷ 11 ∷ 0 ∷ 7 ∷ 0 ∷ 0 ∷ 0 ∷ 0 ∷ 0 ∷ 1 ∷ 0 ∷ 1 ∷ 2 ∷ 3 ∷ 29 ∷ 128 ∷ 188 ∷ 85 ∷ 192 ∷ 212
      ∷ 1 ∷ 0 ∷ 5 ∷ 0 ∷ 0 ∷ 0 ∷ [])
    ∷ []

pub fragmented_at_20 : fragment_tensor 11 7 tensor trailer 20 ≡ ok whole_datagrams
unfolding fragment_tensor slices pack_frags pack pack_fields
fragmented_at_20 = refl

fragment_tensor-IsSplit_example : IsSplit 11 7 (tensor ++ trailer) 8 torn_datagrams
fragment_tensor-IsSplit_example =
    fragment_tensor-IsSplit 11 7 tensor trailer 8 torn_datagrams fragmented_at_8
