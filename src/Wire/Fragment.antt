-- ===== src/Wire/Fragment.antt =====
-- Fragments: `pack_frag`, `parse_frag` and `fragment_tensor` of orchestrator/protocol.py.
pub mod Split
pub mod Chunks
use split_inference.Base.{
  ℕ, zero, suc, ◌+◌, ◌-◌, ◌*◌, ◌/◌, ◌%◌, ◌^◌, ◌≤◌, ◌<◌, min, max, String, ◌≡◌, refl, sym, ap, ◌∙◌,
  subst, ◌≢◌, ◌↔◌, ◌⊎◌, inl, inr, Bool, true, false, not, ◌&&◌, ◌||◌, Option, none, some, List, [],
  ◌∷◌, ◌++◌, map, append-nil, append_assoc, arith, ltb, leb, if◌then◌else◌, nat_eqb, nat_eqb_iff,
  ltb→lt, lt→ltb, le→ltb_ne, leb→le, Bool-cases, Option-cases, Eq, ◌==◌, nat_eq, string_eq, pair_eq,
  ==-refl, ==-false, Fault, value_error, struct_error, key_error, index_error, stop_iteration,
  assertion_error, invalid_state, type_error, not_implemented, Result, ok, err, or_raise, bind-ok,
  ok-injective, err-ne-ok, ◌>>=◌, length, get_elem?, take, drop, replicate, concat, keep_if, All,
  All-take, All-drop, All-append, length-append, take-append-drop, length-take, length-drop,
  length-replicate, take-append_length, drop-append_length, take-add, length-map, get_elem?-map,
  get_elem?_lt, lt_of_get_elem?, range_from, range, length-range_from, keep_if-range_from, pair_eqb,
  pair_eqb_iff, set, length-set, get_elem?-set, All-set, All-replicate, All-get_elem?,
  get_elem?-replicate, elem,
}
use split_inference.Wire.Kind
use split_inference.Wire.Struct.{
  Bytes, Values, size, pack_fields, unpack_from, unpack_from-pack_fields, length-pack_fields,
}
use split_inference.Wire.Packet.{Packet, frag_s, pack, unpack}
use split_inference.Wire.Packet.Laws.{unpack-pack, length-pack}

pub record Fragment : Type 0 where
  pub idx : ℕ
  pub total : ℕ
  pub chunk : Bytes

unfoldable pub pack_frag : ℕ → ℕ → ℕ → ℕ → Bytes → Result Bytes
pack_frag node_id req_id frag_idx frag_total chunk = do
  head ← pack_fields frag_s (frag_idx, (frag_total, tt))
  pack Kind.data_frag node_id req_id (head ++ chunk)

abbrev of_fields : Values frag_s → Bytes → Fragment
of_fields (frag_idx, (frag_total, _)) chunk = record {
  idx = frag_idx;
  total = frag_total;
  chunk = chunk;
}

unfoldable pub parse_frag : Bytes → Result Fragment
parse_frag payload = do
  values ← unpack_from frag_s payload
  ok (of_fields values (drop (size frag_s) payload))

-- [blob[i: i + max_chunk] for i in range(0, len(blob), max_chunk)]; the length is fuel enough.
unfoldable pub slices : ℕ → ℕ → Bytes → List Bytes
slices zero max_chunk bs = []
slices (suc f) max_chunk [] = []
slices (suc f) max_chunk (b ∷ bs) =
    take max_chunk (b ∷ bs) ∷ slices f max_chunk (drop max_chunk (b ∷ bs))

-- … or [b""]
abbrev pub or_one_empty : List Bytes → List Bytes
or_one_empty [] = [] ∷ []
or_one_empty (c ∷ cs) = c ∷ cs

-- [pack_frag(node_id, req_id, i, total, c) for i, c in enumerate(chunks)], from index `i` on.
unfoldable pub pack_frags : ℕ → ℕ → ℕ → ℕ → List Bytes → Result (List Bytes)
pack_frags node_id req_id i total [] = ok []
pack_frags node_id req_id i total (c ∷ cs) = pack_frag node_id req_id i total c >>= λ d.
    pack_frags node_id req_id (suc i) total cs >>= λ ds. ok (d ∷ ds)

-- A step of 0 makes `range` raise `ValueError`.
unfoldable pub fragment_tensor : ℕ → ℕ → Bytes → Bytes → ℕ → Result (List Bytes)
unfolding pack_frag
fragment_tensor node_id req_id tensor trailer max_chunk =
    if nat_eqb max_chunk 0
    then err value_error
    else let blob = tensor ++ trailer in
      let chunks = or_one_empty (slices (length blob) max_chunk blob) in
      pack_frags node_id req_id 0 (length chunks) chunks

-- The datagram is a DATA_FRAG of the request that parses to this fragment.
pub record IsFrag (node_id req_id : ℕ) (f : Fragment) (datagram : Bytes) : Type 0 where
  pub payload : Bytes
  pub unpacks :
      unpack datagram
      ≡ ok
          (record { ptype = Kind.data_frag; node_id = node_id; req_id = req_id; payload = payload })
  pub parses : parse_frag payload ≡ ok f
  pub sized : length datagram ≡ 12 + length f.chunk

pub pack_frag-IsFrag :
    (node_id req_id frag_idx frag_total : ℕ) (chunk datagram : Bytes)
    → pack_frag node_id req_id frag_idx frag_total chunk ≡ ok datagram
    → IsFrag node_id req_id (record { idx = frag_idx; total = frag_total; chunk = chunk }) datagram
unfolding pack_frag parse_frag
pack_frag-IsFrag node_id req_id frag_idx frag_total chunk datagram h =
    let values : Values frag_s = (frag_idx, (frag_total, tt)) in
    let (head, packed, sent) = bind-ok (pack_fields frag_s values) _ h in
    let l = length-pack_fields frag_s values head packed in
    let read = unpack_from-pack_fields frag_s values head packed chunk in
    record {
      payload = head ++ chunk;
      unpacks = unpack-pack Kind.data_frag node_id req_id (head ++ chunk) datagram sent;
      parses = rw (read, drop-append_length head chunk (size frag_s) l);
      sized = omega (
        arith,
        length-pack Kind.data_frag node_id req_id (head ++ chunk) datagram sent,
        length-append head chunk,
        l,
      );
    }
