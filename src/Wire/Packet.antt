-- ===== src/Wire/Packet.antt =====
-- The header of a datagram: `pack` and `unpack` of orchestrator/protocol.py, and the packed forms
-- of the other formats.
pub mod Laws
use split_inference.Base.{
  ℕ, ◌≡◌, refl, Bool, List, [], ◌∷◌, ◌++◌, arith, ltb, ◌==◌, nat_eq, if◌then◌else◌, length, take,
  drop, Result, ok, err, value_error, ◌>>=◌,
}
use split_inference.Wire.Struct.{
  Bytes, Code, u8, i8, u16, u32, Values, size, pack_fields, unpack_from,
}

abbrev pub magic : ℕ
magic = 0xF5

-- magic, type, node_id, req_id
abbrev pub hdr : List Code
hdr = u8 ∷ u8 ∷ u16 ∷ u32 ∷ []

-- rssi, free_heap, temp, fw_hash, busy, boot_count
abbrev pub heartbeat_s : List Code
heartbeat_s = i8 ∷ u32 ∷ i8 ∷ u32 ∷ u8 ∷ u16 ∷ []

-- action = cut index
abbrev pub assign_s : List Code
assign_s = u8 ∷ []

-- frag_idx, frag_total
abbrev pub frag_s : List Code
frag_s = u16 ∷ u16 ∷ []

-- crc32, t_capture_us, t_edge_us
abbrev pub trailer_s : List Code
trailer_s = u32 ∷ u32 ∷ u32 ∷ []

-- class id
abbrev pub result_s : List Code
result_s = u8 ∷ []

pub record Packet : Type 0 where
  pub ptype : ℕ
  pub node_id : ℕ
  pub req_id : ℕ
  pub payload : Bytes

unfoldable pub pack : ℕ → ℕ → ℕ → Bytes → Result Bytes
pack ptype node_id req_id payload = do
  header ← pack_fields hdr (magic, (ptype, (node_id, (req_id, tt))))
  ok (header ++ payload)

check_magic : Values hdr → Bytes → Result Packet
check_magic (m, (ptype, (node_id, (req_id, _)))) rest =
    if m == magic
    then ok (record { ptype = ptype; node_id = node_id; req_id = req_id; payload = rest })
    else err value_error

unfoldable pub unpack : Bytes → Result Packet
unfolding check_magic
unpack datagram =
    if ltb (length datagram) (size hdr)
    then err value_error
    else do fields ← unpack_from hdr datagram; check_magic fields (drop (size hdr) datagram)

golden : pack 2 11 7 (2 ∷ []) ≡ ok (0xF5 ∷ 2 ∷ 11 ∷ 0 ∷ 7 ∷ 0 ∷ 0 ∷ 0 ∷ 2 ∷ [])
unfolding pack pack_fields
golden = refl
