-- ===== src/Wire/Fragment/Split.antt =====
-- `fragment_tensor` of orchestrator/protocol.py splits tensor and trailer into consecutive chunks.
use split_inference.Base.{
  ℕ, zero, suc, ◌+◌, ◌-◌, ◌*◌, ◌%◌, ◌≤◌, ◌<◌, ◌≡◌, refl, ap, ◌∙◌, false, List, [], ◌∷◌, ◌++◌, arith,
  nat_eqb, nat_eq, string_eq, pair_eq, ok, bind-ok, ok-injective, err-ne-ok, length, concat, All,
}
use split_inference.Wire.Struct.{Bytes, pack_fields_total}
use split_inference.Wire.Kind
use split_inference.Wire.Packet.{frag_s}
use split_inference.Wire.Packet.Laws.{pack_total}
use split_inference.Wire.Fragment.{pack_frag, slices, or_one_empty, pack_frags, fragment_tensor}
use split_inference.Wire.Fragment.Chunks.{
  last_length, concat-slices, slices_small, length-slices-le, Carries, Carries-cons, slices_some,
  last_length-slices, last_length-or_one_empty,
}

pack_frags-Carries :
    (node_id req_id i total : ℕ) (cs ds : List Bytes)
    → pack_frags node_id req_id i total cs ≡ ok ds
    → (length ds ≡ length cs) × Carries node_id req_id i total cs ds
unfolding pack_frags
pack_frags-Carries node_id req_id i total [] ds h =
    let e : [] ≡ ds = ok-injective h in rw (← e) (refl, λ j c g. cc)
pack_frags-Carries node_id req_id i total (c ∷ cs) ds h =
    let (d, packed, h1) = bind-ok (pack_frag node_id req_id i total c) _ h in
    let (rest, packed_rest, h2) = bind-ok (pack_frags node_id req_id (suc i) total cs) _ h1 in
    let (same, each) = pack_frags-Carries node_id req_id (suc i) total cs rest packed_rest in
    let e : d ∷ rest ≡ ds = ok-injective h2 in
    rw (← e) (ap suc same, Carries-cons node_id req_id i total c d cs rest packed each)

or_one_empty_lem :
    (m : ℕ) (cs : List Bytes)
    → All (λ c. length c ≤ m) cs
    → (concat (or_one_empty cs) ≡ concat cs)
      × All (λ c. length c ≤ m) (or_one_empty cs)
      × (0 < length (or_one_empty cs))
or_one_empty_lem m [] h = (refl, (omega arith, tt), omega arith)
or_one_empty_lem m (c ∷ cs) h = (refl, h, omega arith)

suc-ne-zero : (m : ℕ) → nat_eqb (suc m) 0 ≡ false
suc-ne-zero m = ground arith

-- The chunks of a split: in order they are the tensor and the trailer, none is longer than
-- `max_chunk`, there is at least one, and the datagrams carry them.
pub record IsSplit (node_id req_id : ℕ) (blob : Bytes) (max_chunk : ℕ) (ds : List Bytes)
    : Type 0 where
  pub chunks : List Bytes
  pub joined : concat chunks ≡ blob
  pub small : All (λ c. length c ≤ max_chunk) chunks
  pub some_chunk : 0 < length chunks
  pub count : length ds ≡ length chunks
  pub last : 0 < length blob → last_length chunks ≡ (length blob - 1) % max_chunk + 1
  pub carries : Carries node_id req_id 0 (length chunks) chunks ds

-- What `fragment_tensor` returns are the fragments, numbered in order, of chunks that concatenate
-- to tensor and trailer and fit the chunk size.
pub fragment_tensor-IsSplit :
    (node_id req_id : ℕ) (tensor trailer : Bytes) (max_chunk : ℕ) (ds : List Bytes)
    → fragment_tensor node_id req_id tensor trailer max_chunk ≡ ok ds
    → IsSplit node_id req_id (tensor ++ trailer) max_chunk ds
unfolding fragment_tensor
fragment_tensor-IsSplit node_id req_id tensor trailer zero ds h = absurd (err-ne-ok h)
fragment_tensor-IsSplit node_id req_id tensor trailer (suc m) ds h =
    let blob = tensor ++ trailer in
    let pieces = slices (length blob) (suc m) blob in
    let (whole, small, more) =
      or_one_empty_lem (suc m) pieces (slices_small (length blob) (suc m) blob) in
    let (count, carries) =
      pack_frags-Carries node_id req_id 0 (length (or_one_empty pieces)) (or_one_empty pieces) ds
        (rw (suc-ne-zero m, fragment_tensor) at h) in
    record {
      chunks = or_one_empty pieces;
      joined = whole ∙ concat-slices (length blob) (suc m) blob (omega arith) (omega arith);
      small = small;
      some_chunk = more;
      count = count;
      last = λ h.
          last_length-or_one_empty pieces (slices_some (length blob) (suc m) blob h (omega arith))
          ∙ last_length-slices (length blob) (suc m) blob (omega arith) (omega arith) h;
      carries = carries;
    }

few_enough : (cs : List Bytes) → length cs ≤ 65535 → length (or_one_empty cs) < 65536
few_enough [] h = omega arith
few_enough (c ∷ cs) h = omega arith

pack_frags_total :
    (node_id req_id i total : ℕ) (cs : List Bytes)
    → node_id < 65536
    → req_id < 4294967296
    → total < 65536
    → i + length cs ≤ total
    → (ds : List Bytes) × (pack_frags node_id req_id i total cs ≡ ok ds)
unfolding pack_frags pack_frag
pack_frags_total node_id req_id i total [] hn hr ht h = ([], refl)
pack_frags_total node_id req_id i total (c ∷ cs) hn hr ht h =
    let (head, packed) =
      pack_fields_total frag_s (i, (total, tt)) (omega arith, (omega arith, tt)) in
    let (d, sent) = pack_total Kind.data_frag node_id req_id (head ++ c) (omega arith) hn hr in
    let (ds, rest) = pack_frags_total node_id req_id (suc i) total cs hn hr ht (omega arith) in
    (d ∷ ds, rw (packed, sent, rest))

-- `fragment_tensor` returns whenever the identifiers fit their fields, the chunk size is positive
-- and 65535 chunks are enough.
pub fragment_tensor_total :
    (node_id req_id : ℕ) (tensor trailer : Bytes) (max_chunk : ℕ)
    → node_id < 65536
    → req_id < 4294967296
    → 0 < max_chunk
    → length (tensor ++ trailer) ≤ 65535 * max_chunk
    → (ds : List Bytes) × (fragment_tensor node_id req_id tensor trailer max_chunk ≡ ok ds)
unfolding fragment_tensor
fragment_tensor_total node_id req_id tensor trailer zero hn hr hm h = absurd (omega arith)
fragment_tensor_total node_id req_id tensor trailer (suc m) hn hr hm h =
    let blob = tensor ++ trailer in
    let pieces = slices (length blob) (suc m) blob in
    let few = length-slices-le (length blob) (suc m) 65535 blob h in
    rw (suc-ne-zero m) (
      pack_frags_total node_id req_id 0 (length (or_one_empty pieces)) (or_one_empty pieces) hn hr
        (few_enough pieces few) (omega arith))
