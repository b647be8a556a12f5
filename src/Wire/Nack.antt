-- ===== src/Wire/Nack.antt =====
-- NACKs: `pack_nack` and `parse_nack` of orchestrator/protocol.py, a bitmap of fragment indices.
pub mod Bitmap
pub mod RoundTrip
use Prim.Native.Nat.{bit_and, bit_or}
use split_inference.Base.{
  ℕ, zero, suc, ◌+◌, ◌-◌, ◌*◌, ◌/◌, ◌%◌, ◌^◌, ◌≤◌, ◌<◌, min, max, String, ◌≡◌, refl, sym, ap, ◌∙◌,
  subst, ◌≢◌, ◌↔◌, ◌⊎◌, inl, inr, Bool, true, false, not, ◌&&◌, ◌||◌, Option, none, some, List, [],
  ◌∷◌, ◌++◌, map, append-nil, append_assoc, arith, ltb, leb, if◌then◌else◌, nat_eqb, nat_eqb_iff,
  ltb→lt, lt→ltb, le→ltb_ne, leb→le, Bool-cases, Option-cases, Eq, ◌==◌, nat_eq, string_eq, pair_eq,
  ==-refl, ==-false, Fault, value_error, struct_error, key_error, index_error, stop_iteration,
  assertion_error, invalid_state, type_error, not_implemented, Result, ok, err, or_raise, bind-ok,
  ok-injective, err-ne-ok, ◌>>=◌, length, get_elem?, take, drop, replicate, concat, keep_if, All,
  All-take, All-drop, All-append, length-append, take-append-drop, length-take, length-drop,
  length-replicate, take-append_length, drop-append_length, take-add, length-map, get_elem?-map,
  get_elem?_lt, lt_of_get_elem?, range_from, range, length-range_from, keep_if-range_from, pair_eqb,
  pair_eqb_iff, set, length-set, get_elem?-set, All-set, All-replicate, All-get_elem?,
  get_elem?-replicate, elem,
}
use split_inference.Wire.Kind
use split_inference.Wire.Struct.{Bytes, Code, u16, pack_fields, unpack_from}
use split_inference.Wire.Packet.{pack}

abbrev pub total_s : List Code
total_s = u16 ∷ []

-- bitmap[i // 8] |= 1 << (i % 8)
unfoldable pub set_bit : ℕ → Bytes → Result Bytes
set_bit i bitmap = do
  b ← or_raise index_error (get_elem? bitmap (i / 8))
  ok (set bitmap (i / 8) (bit_or b (2 ^ (i % 8))))

-- for i in missing: …
unfoldable pub set_bits : List ℕ → Bytes → Result Bytes
set_bits [] bitmap = ok bitmap
set_bits (i ∷ is) bitmap = set_bit i bitmap >>= λ marked. set_bits is marked

unfoldable pub pack_nack : ℕ → ℕ → List ℕ → ℕ → Result Bytes
pack_nack node_id req_id missing frag_total = do
  bitmap ← set_bits missing (replicate ((frag_total + 7) / 8) 0)
  total ← pack_fields total_s (frag_total, tt)
  pack Kind.nack node_id req_id (total ++ bitmap)

-- bitmap[i // 8] & (1 << (i % 8))
unfoldable pub test_bit : ℕ → Bytes → Result Bool
test_bit i bitmap = do
  b ← or_raise index_error (get_elem? bitmap (i / 8))
  ok (not (nat_eqb (bit_and b (2 ^ (i % 8))) 0))

-- {i for i in … if …}
unfoldable pub test_bits : List ℕ → Bytes → Result (List ℕ)
test_bits [] bitmap = ok []
test_bits (i ∷ is) bitmap =
    test_bit i bitmap >>= λ b. test_bits is bitmap >>= λ rest. ok (if b then i ∷ rest else rest)

unfoldable pub parse_nack : Bytes → Result (List ℕ)
parse_nack payload = do
  values ← unpack_from total_s payload
  test_bits (range values.0) (drop 2 payload)
