-- ===== src/Reassembly/Chunks.antt =====
-- What `_complete` of orchestrator/reassembly.py makes of a full set of chunks.
use split_inference.Base.{
  ℕ, suc, ◌+◌, ◌-◌, ◌≤◌, ◌<◌, ◌≡◌, refl, sym, ap, ◌∙◌, true, Option, none, some, List, [], ◌∷◌,
  ◌++◌, append-nil, append_assoc, arith, nat_eqb_iff, lt→ltb, le→ltb_ne, nat_eq, string_eq, pair_eq,
  ok, length, get_elem?, take, drop, concat, length-append, take-append-drop, length-drop,
  lt_of_get_elem?, range_from, range, concat-append, get_elem?-append_left, get_elem?-snoc,
  snoc-cases, append-cancel,
}
use native.Mathlib.Nat.{add-zero, add-suc, suc-add, zero-add}
use split_inference.Base.Dict.{Dict, get, put, has, get-put, put-Distinct, Distinct}
use split_inference.Base.Dict.Pigeonhole.{Below, put-Below, covers}
use split_inference.Wire.Struct.{Bytes, Values, unpack_exact}
use split_inference.Wire.Packet.{trailer_s}
use split_inference.Wire.Fragment.Chunks.{last_length, last_length-snoc}
use split_inference.Reassembly.State.{ReqBuf, failed, crc}
use split_inference.Reassembly.Receive.{join_chunks, trailer_size, outcome, verdict}

-- Every stored chunk is the one that the sender cut at that index.
pub record IsPartial (cs : List Bytes) (chunks : Dict ℕ Bytes) : Type 0 where
  pub distinct : Distinct chunks
  pub below : Below (length cs) chunks
  pub agrees : (i : ℕ) (c : Bytes) → get i chunks ≡ some c → get_elem? cs i ≡ some c

pub IsPartial-empty : (cs : List Bytes) → IsPartial cs []
unfolding get
IsPartial-empty cs = record { distinct = tt; below = tt; agrees = λ i c h. cc }

pub IsPartial-put :
    (cs : List Bytes) (chunks : Dict ℕ Bytes) (i : ℕ) (c : Bytes)
    → IsPartial cs chunks
    → get_elem? cs i ≡ some c
    → IsPartial cs (put i c chunks)
IsPartial-put cs chunks i c p h = record {
  distinct = put-Distinct i c chunks p.distinct;
  below = put-Below (length cs) i c chunks (lt_of_get_elem? cs i c h) p.below;
  agrees = λ j d g. ground (arith, get-put i j c chunks, p.agrees j d, nat_eqb_iff i j);
}

-- A full set of chunks holds each of them.
pub full-get :
    (cs : List Bytes) (chunks : Dict ℕ Bytes)
    → IsPartial cs chunks
    → length chunks ≡ length cs
    → (i : ℕ) (c : Bytes) → get_elem? cs i ≡ some c
    → get i chunks ≡ some c
full-get cs chunks p full i c h =
    found (get i chunks) refl
      (covers (length cs) i chunks p.distinct p.below full (lt_of_get_elem? cs i c h))
  where
    found : (o : Option Bytes) → get i chunks ≡ o → has i chunks ≡ true → get i chunks ≡ some c
    found none e t = ground arith
    found (some d) e t = e ∙ sym (p.agrees i d e) ∙ h

join_chunks-eq_concat :
    (chunks : Dict ℕ Bytes) (a : ℕ) (cs : List Bytes)
    → ((j : ℕ) (c : Bytes) → get_elem? cs j ≡ some c → get (a + j) chunks ≡ some c)
    → join_chunks chunks (range_from a (length cs)) ≡ ok (concat cs)
unfolding join_chunks
join_chunks-eq_concat chunks a [] h = refl
join_chunks-eq_concat chunks a (c ∷ cs) h =
    let here : get a chunks ≡ some c = rw (add-zero a) at (h 0 c refl) in
    let rest =
      join_chunks-eq_concat chunks (suc a) cs
        (λ j d g. rw (suc-add a j, ← add-suc a j) (h (suc j) d g)) in
    rw (here, rest, join_chunks)

-- A request whose chunks are all there: what the sender cut, and the split of the last chunk.
pub record IsFull (buf : ReqBuf) (cs : List Bytes) (body trailer : Bytes) : Type 0 where
  pub part : IsPartial cs buf.chunks
  pub full : length buf.chunks ≡ length cs
  pub some_chunk : 0 < length cs
  pub joined : concat cs ≡ body ++ trailer
  pub trailer_length : length trailer ≡ trailer_size

module _ (buf : ReqBuf) (front : List Bytes) (last : Bytes) where
  abbrev cut : ℕ
  cut = length last - trailer_size

  outcome_snoc :
      get (length front) buf.chunks ≡ some last
      → join_chunks buf.chunks (range (length front)) ≡ ok (concat front)
      → trailer_size ≤ length last
      → (fields : Values trailer_s) → unpack_exact trailer_s (drop cut last) ≡ ok fields
      → outcome buf (suc (length front))
        ≡ ok (verdict buf (suc (length front)) fields (concat front ++ take cut last))
  unfolding outcome
  outcome_snoc at joins long fields parsed =
      let before : suc (length front) - 1 ≡ length front = omega arith in
      rw (at, outcome, le→ltb_ne (length last) trailer_size long, parsed, before, joins)

  -- With a last chunk shorter than a trailer there is nothing to check.
  outcome_snoc_short :
      get (length front) buf.chunks ≡ some last
      → length last < trailer_size
      → outcome buf (suc (length front)) ≡ ok (failed crc buf)
  unfolding outcome
  outcome_snoc_short at short = rw (at, outcome, lt→ltb (length last) trailer_size short)

module _ (buf : ReqBuf) (cs : List Bytes) (body trailer : Bytes)
    (f : IsFull buf cs body trailer) where
  abbrev Snoc : List Bytes → Bytes → Type 0
  Snoc front last = cs ≡ front ++ last ∷ []

  length-Snoc :
      (front : List Bytes) (last : Bytes) → Snoc front last → length cs ≡ suc (length front)
  length-Snoc front last e = ap length e ∙ omega (arith, length-append front (last ∷ []))

  at_last :
      (front : List Bytes) (last : Bytes)
      → Snoc front last
      → get (length front) buf.chunks ≡ some last
  at_last front last e =
      full-get cs buf.chunks f.part f.full (length front) last
        (ap (λ t. get_elem? t (length front)) e ∙ get_elem?-snoc front last)

  joins_front :
      (front : List Bytes) (last : Bytes)
      → Snoc front last
      → join_chunks buf.chunks (range (length front)) ≡ ok (concat front)
  joins_front front last e = join_chunks-eq_concat buf.chunks 0 front (λ j c g. rw (zero-add j) (
      full-get cs buf.chunks f.part f.full j c
        (rw e (get_elem?-append_left front (last ∷ []) j c g))))

  -- The end of the last chunk is the trailer, and what stands before it the body.
  pieces :
      (front : List Bytes) (last : Bytes)
      → Snoc front last
      → trailer_size ≤ length last
      → (concat front ++ take (length last - trailer_size) last ≡ body)
        × (drop (length last - trailer_size) last ≡ trailer)
  pieces front last e long =
      let k = length last - trailer_size in
      append-cancel (concat front ++ take k last) (drop k last) body trailer
        (append_assoc (concat front) (take k last) (drop k last)
          ∙ ap (λ t. concat front ++ t) (take-append-drop k last ∙ sym (append-nil last))
          ∙ sym (concat-append front (last ∷ []))
          ∙ sym (ap concat e)
          ∙ f.joined)
        (omega (arith, length-drop k last, f.trailer_length))

  -- With the trailer whole in the last chunk, the checksum decides over the sender's body.
  pub outcome_full :
      (fields : Values trailer_s)
      → trailer_size ≤ last_length cs
      → unpack_exact trailer_s trailer ≡ ok fields
      → outcome buf (length cs) ≡ ok (verdict buf (length cs) fields body)
  outcome_full fields long parsed =
      let (front, last, e) = snoc-cases cs f.some_chunk in
      let fits : trailer_size ≤ length last =
        omega (arith, ap last_length e, last_length-snoc front last) in
      let (whole, end) = pieces front last e fits in
      rw (length-Snoc front last e, ← whole)
        (outcome_snoc buf front last (at_last front last e) (joins_front front last e) fits fields
          (rw end parsed))

  -- With the trailer torn over two chunks, the request fails whatever was sent.
  pub outcome_full_short :
      last_length cs < trailer_size → outcome buf (length cs) ≡ ok (failed crc buf)
  outcome_full_short short =
      let (front, last, e) = snoc-cases cs f.some_chunk in
      rw (length-Snoc front last e) (
        outcome_snoc_short buf front last (at_last front last e)
          (omega (arith, ap last_length e, last_length-snoc front last)))
