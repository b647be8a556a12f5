-- ===== src/Wire/Packet/Laws.antt =====
-- `pack` and `unpack` of orchestrator/protocol.py are inverse to each other.
use split_inference.Base.{
  ℕ, false, ◌+◌, ◌<◌, ◌≡◌, ap, inl, inr, ◌++◌, arith, ltb, nat_eq, length, drop, ok, bind-ok,
  err-ne-ok, ok-injective, length-append, drop-append_length, take-append-drop, le→ltb_ne,
  Bool-cases,
}
use split_inference.Wire.Struct.{
  Bytes, IsBytes, Values, size, pack_fields, pack_fields_total, unpack_from, length-pack_fields,
  unpack_from-pack_fields, pack_fields-unpack_from,
}
use split_inference.Wire.Packet.{Packet, magic, hdr, pack, unpack, check_magic}

-- A packed datagram unpacks to the packet that was packed.
pub unpack-pack :
    (ptype node_id req_id : ℕ) (payload datagram : Bytes)
    → pack ptype node_id req_id payload ≡ ok datagram
    → unpack datagram
      ≡ ok (record { ptype = ptype; node_id = node_id; req_id = req_id; payload = payload })
unfolding pack unpack check_magic
unpack-pack ptype node_id req_id payload datagram h =
    let fields : Values hdr = (magic, (ptype, (node_id, (req_id, tt)))) in
    let (header, packed, e) = bind-ok (pack_fields hdr fields) _ h in
    let l = length-pack_fields hdr fields header packed in
    let cut = drop-append_length header payload (size hdr) l in
    let long : ltb (length (header ++ payload)) (size hdr) ≡ false =
      le→ltb_ne _ _ (omega (arith, length-append header payload, l)) in
    let parsed = unpack_from-pack_fields hdr fields header packed payload in
    rw (← ok-injective e, long, parsed, cut)

check_magic-eq_ok :
    (v : Values hdr) (rest : Bytes) (p : Packet)
    → check_magic v rest ≡ ok p
    → (v ≡ (magic, (p.ptype, (p.node_id, (p.req_id, tt))))) × (rest ≡ p.payload)
unfolding check_magic
check_magic-eq_ok (m, (ptype, (node_id, (req_id, tt)))) rest p h = ground arith

-- `unpack` accepts, of a datagram of bytes, only what `pack` produces: packing what it returned
-- gives the datagram back.
pub pack-unpack :
    (datagram : Bytes) (p : Packet)
    → IsBytes datagram
    → unpack datagram ≡ ok p
    → pack p.ptype p.node_id p.req_id p.payload ≡ ok datagram
unfolding pack unpack
pack-unpack datagram p bytes h = elim (Bool-cases (ltb (length datagram) (size hdr))) [
  | inl short ↦ absurd (err-ne-ok (rw (short, unpack) at h))
  | inr long ↦
      let (fields, read, checked) = bind-ok (unpack_from hdr datagram) _ (rw (long, unpack) at h) in
      let (same, rest) = check_magic-eq_ok fields (drop (size hdr) datagram) p checked in
      let packed = pack_fields-unpack_from hdr fields datagram bytes read in
      rw (← same, packed, ← rest) (ap ok (take-append-drop (size hdr) datagram))
]

-- Packing succeeds on header fields that fit.
pub pack_total :
    (ptype node_id req_id : ℕ) (payload : Bytes)
    → ptype < 256
    → node_id < 65536
    → req_id < 4294967296
    → (datagram : Bytes) × (pack ptype node_id req_id payload ≡ ok datagram)
unfolding pack
pack_total ptype node_id req_id payload h1 h2 h3 =
    let (header, e) =
      pack_fields_total hdr (magic, (ptype, (node_id, (req_id, tt))))
        (omega arith, (h1, (h2, (h3, tt)))) in
    (header ++ payload, rw e)

-- A datagram is the header's eight bytes and the payload.
pub length-pack :
    (ptype node_id req_id : ℕ) (payload datagram : Bytes)
    → pack ptype node_id req_id payload ≡ ok datagram
    → length datagram ≡ 8 + length payload
unfolding pack
length-pack ptype node_id req_id payload datagram h =
    let fields : Values hdr = (magic, (ptype, (node_id, (req_id, tt)))) in
    let (header, packed, e) = bind-ok (pack_fields hdr fields) _ h in
    let l = length-pack_fields hdr fields header packed in
    rw (← ok-injective e) (omega (arith, length-append header payload, l))
