-- ===== src/Wire/Nack/RoundTrip.antt =====
-- A NACK of orchestrator/protocol.py asks for exactly the fragments that were named missing.
use split_inference.Base.{
  ℕ, ◌+◌, ◌/◌, ◌<◌, ◌≡◌, refl, ◌∙◌, Bool, true, false, List, [], ◌∷◌, ◌++◌, arith, if◌then◌else◌,
  nat_eq, string_eq, pair_eq, ok, length, replicate, keep_if, All, length-append, length-replicate,
  drop-append_length, range, All-imp, All-replicate, elem, All-range_from,
}
use split_inference.Wire.Kind
use split_inference.Wire.Struct.{
  Bytes, pack_fields_total, unpack_from-pack_fields, length-pack_fields,
}
use split_inference.Wire.Packet.{unpack}
use split_inference.Wire.Packet.Laws.{unpack-pack, pack_total, length-pack}
use split_inference.Wire.Nack.{total_s, pack_nack, test_bit, test_bits, parse_nack}
use split_inference.Wire.Nack.Bitmap.{set_bits-reads, test_bit-zeros}

test_bits-keep_if :
    (p : ℕ → Bool) (bitmap : Bytes) (is : List ℕ)
    → All (λ i. test_bit i bitmap ≡ ok (p i)) is
    → test_bits is bitmap ≡ ok (keep_if p is)
unfolding test_bits
test_bits-keep_if p bitmap [] h = refl
test_bits-keep_if p bitmap (i ∷ is) h = rw (h.0, test_bits-keep_if p bitmap is h.1)

ok-if : (b : Bool) → (if b then ok true else ok false) ≡ ok b
ok-if true = refl
ok-if false = refl

-- What a NACK for `missing` of `total` fragments is: it is packed, and what arrives unpacks to a
-- NACK of the request that parses to the indices named missing, in ascending order.
pub record IsNack (node_id req_id : ℕ) (missing : List ℕ) (total : ℕ) (datagram : Bytes)
    : Type 0 where
  pub payload : Bytes
  pub unpacks :
      unpack datagram
      ≡ ok (record { ptype = Kind.nack; node_id = node_id; req_id = req_id; payload = payload })
  pub parses : parse_nack payload ≡ ok (keep_if (λ i. elem i missing) (range total))
  pub sized : length datagram ≡ 10 + (total + 7) / 8

-- If the identifiers and the total fit their fields, a NACK for indices below the total is packed,
-- and it unpacks and parses to exactly the indices asked for, in ascending order.
pub pack_nack-IsNack :
    (node_id req_id : ℕ) (missing : List ℕ) (total : ℕ)
    → node_id < 65536
    → req_id < 4294967296
    → total < 65536
    → All (λ i. i < total) missing
    → (datagram : Bytes) × (pack_nack node_id req_id missing total ≡ ok datagram)
      × IsNack node_id req_id missing total datagram
unfolding pack_nack parse_nack
pack_nack-IsNack node_id req_id missing total hn hr ht h =
    let n = (total + 7) / 8 in
    let zeros = length-replicate {A = ℕ} n 0 in
    let (bitmap, marked, same, reads) =
      set_bits-reads missing (replicate n 0) (All-replicate (λ x. x < 256) n 0 (omega arith)) (
        All-imp (λ i. i < total) (λ i. i / 8 < length (replicate {A = ℕ} n 0)) missing h
          (λ i lt. omega arith)) in
    let (head, packed) = pack_fields_total total_s (total, tt) (ht, tt) in
    let l = length-pack_fields total_s (total, tt) head packed in
    let (datagram, sent) =
      pack_total Kind.nack node_id req_id (head ++ bitmap) (omega arith) hn hr in
    let read = unpack_from-pack_fields total_s (total, tt) head packed bitmap in
    let each : All (λ i. test_bit i bitmap ≡ ok (elem i missing)) (range total) =
      All-range_from (λ i. test_bit i bitmap ≡ ok (elem i missing)) 0 total
        (λ i lo hi. reads i ∙ rw (test_bit-zeros n i (omega arith)) (ok-if (elem i missing))) in
    (
      datagram,
      rw (marked, packed, sent),
      record {
        payload = head ++ bitmap;
        unpacks = unpack-pack Kind.nack node_id req_id (head ++ bitmap) datagram sent;
        parses =
            rw (read, drop-append_length head bitmap 2 l)
              (test_bits-keep_if (λ i. elem i missing) bitmap (range total) each);
        sized = omega (
          arith,
          length-pack Kind.nack node_id req_id (head ++ bitmap) datagram sent,
          length-append head bitmap,
          l,
          same,
          zeros,
        );
      },
    )
