-- ===== src/Reassembly/Delivery.antt =====
-- A tensor that is fragmented by orchestrator/protocol.py and arrives in any order, with any
-- repetitions, at the data port of orchestrator/server.py.
use split_inference.Base.{
  ℕ, ◌<◌, ◌≡◌, sym, ap, ◌∙◌, subst, ◌≢◌, ◌⊎◌, inl, inr, true, none, some, List, [], ◌∷◌, ◌++◌,
  arith, nat_eqb, nat_eqb_iff, Bool-cases, Option-cases, nat_eq, string_eq, pair_eq, ok, length,
  get_elem?, get_elem?_lt, lt_of_get_elem?, le_of_get_elem?, elem,
}
use mathlib.Core.Option.{some-injective}
use native.Mathlib.Nat.{zero-add}
use split_inference.Base.Dict.{get, put, has, get-put, get-put_self}
use split_inference.Base.Dict.Pigeonhole.{length_of_covers, length-le-bound}
use split_inference.Wire.Struct.{Bytes}
use split_inference.Wire.Kind
use split_inference.Wire.Packet.{Packet}
use split_inference.Wire.Fragment.{Fragment, IsFrag}
use split_inference.Wire.Fragment.Split.{IsSplit}
use split_inference.Config.Types.{ProtocolCfg}
use split_inference.Reassembly.State.{Addr, ReqBuf, Future, pending, Reassembler}
use split_inference.Reassembly.Receive.{outcome, received, on_frag}
use split_inference.Reassembly.Chunks.{IsPartial, IsPartial-put, IsFull}
use split_inference.Reassembly.Steps.{on_frag-IsArmed, on_frag-IsSettled, on_frag_dropped}
use split_inference.Server.Dispatch.{arrive, datagram_received, on_data}

some-ne-none {ℓ} : {A : Type ℓ} {a : A} → some a ≡ none → ⊥
some-ne-none h = cc

-- A datagram that carries a fragment reaches `on_frag`.
pub arrive-IsFrag :
    (cfg : ProtocolCfg) (now : ℕ) (node_id req_id : ℕ) (f : Fragment) (d : Bytes) (addr : Addr)
    (s : Reassembler) (i : IsFrag node_id req_id f d) (t : Reassembler)
    → on_frag cfg
        (record { ptype = Kind.data_frag; node_id = node_id; req_id = req_id; payload = i.payload })
        addr
        (length d)
        now
        s
      ≡ (ok tt, t)
    → arrive cfg now d addr s ≡ (ok tt, t)
unfolding arrive datagram_received on_data
arrive-IsFrag cfg now node_id req_id f d addr s i t h = rw (i.unpacks, h)

-- The index of a datagram among those sent, where it comes from, and when.
abbrev pub Arrival : Type 0
Arrival = ℕ × Addr × ℕ

abbrev pub indices : List Arrival → List ℕ
indices [] = []
indices ((i, _, _) ∷ rest) = i ∷ indices rest

-- The event loop handles the arrivals in turn, and goes on after an exception.
unfoldable pub arrivals : ProtocolCfg → List Bytes → List Arrival → Reassembler → Reassembler
arrivals cfg ds [] s = s
arrivals cfg ds ((i, addr, now) ∷ rest) s =
    arrivals cfg ds rest (elim (get_elem? ds i) [ none ↦ s | some d ↦ (arrive cfg now d addr s).1 ])

-- The request `req_id` of a node waits for fragments under the future `fut`.
pub record Waits (node_id req_id fut : ℕ) (cs : List Bytes) (s : Reassembler) : Type 0 where
  pub buf : ReqBuf
  pub known : get req_id s.reqs ≡ some buf
  pub node : node_id ≡ buf.node_id
  pub handle : buf.future ≡ fut
  pub part : IsPartial cs buf.chunks
  pub open_request : length buf.chunks < length cs
  pub pends : get fut s.futures ≡ some pending

-- It is over, with the outcome of a full buffer.
pub record Done (req_id fut : ℕ) (cs : List Bytes) (body trailer : Bytes) (o : ReqBuf → Future)
    (s : Reassembler) : Type 0 where
  pub buf : ReqBuf
  pub forgotten : get req_id s.reqs ≡ none
  pub full : IsFull buf cs body trailer
  pub settled : get fut s.futures ≡ some (o buf)

module _ (cfg : ProtocolCfg) (node_id req_id fut : ℕ) (blob : Bytes) (m : ℕ) (ds : List Bytes)
    (split : IsSplit node_id req_id blob m ds) (body trailer : Bytes)
    (whole : blob ≡ body ++ trailer) (trailer_length : length trailer ≡ 12) (o : ReqBuf → Future)
    (decides : (buf : ReqBuf)
      → IsFull buf split.chunks body trailer
      → outcome buf (length split.chunks) ≡ ok (o buf)) where
  abbrev cs : List Bytes
  cs = split.chunks

  abbrev D : Reassembler → Type 0
  D = Done req_id fut cs body trailer o

  -- A late duplicate changes nothing.
  Done-arrive :
      (i : ℕ) (c : Bytes) (addr : Addr) (now : ℕ) (s : Reassembler) (d : Bytes)
      → IsFrag node_id req_id (record { idx = i; total = length cs; chunk = c }) d
      → D s
      → D (arrive cfg now d addr s).1
  Done-arrive i c addr now s d frag done =
      let same = arrive-IsFrag cfg now node_id req_id _ d addr s frag s (
        on_frag_dropped cfg _ addr (length d) now s
          (λ buf known. absurd (some-ne-none (sym known ∙ done.forgotten)))) in
      rw same done

  -- An arrival that leaves the request open has stored its chunk and dropped none.
  abbrev Keeps :
      (i : ℕ) {s t : Reassembler}
      → Waits node_id req_id fut cs s
      → Waits node_id req_id fut cs t
      → Type 0
  Keeps i w v = (j : ℕ) → (j ≡ i) ⊎ (has j w.buf.chunks ≡ true) → has j v.buf.chunks ≡ true

  abbrev After : (i : ℕ) {s : Reassembler} → Waits node_id req_id fut cs s → Reassembler → Type 0
  After i w t = D t ⊎ ((v : Waits node_id req_id fut cs t) × Keeps i w v)

  module _ (i : ℕ) (c : Bytes) (at : get_elem? cs i ≡ some c) (addr : Addr) (now : ℕ)
      (s : Reassembler) (d : Bytes)
      (frag : IsFrag node_id req_id (record { idx = i; total = length cs; chunk = c }) d)
      (w : Waits node_id req_id fut cs s) where
    abbrev f : Fragment
    f = record { idx = i; total = length cs; chunk = c }

    abbrev pkt : Packet
    pkt = record {
      ptype = Kind.data_frag;
      node_id = node_id;
      req_id = req_id;
      payload = frag.payload;
    }

    abbrev buf' : ReqBuf
    buf' = received w.buf f addr (length d) now

    part' : IsPartial cs buf'.chunks
    part' = IsPartial-put cs w.buf.chunks i c w.part at

    has' : (j : ℕ) → (j ≡ i) ⊎ (has j w.buf.chunks ≡ true) → has j buf'.chunks ≡ true
    has' j h = ground (arith, get-put i j c w.buf.chunks)

    Waits-settled : length buf'.chunks ≡ length cs → D (arrive cfg now d addr s).1
    Waits-settled full =
        let complete : IsFull buf' cs body trailer = record {
          part = part';
          full = full;
          some_chunk = split.some_chunk;
          joined = split.joined ∙ whole;
          trailer_length = trailer_length;
        } in
        let r =
          on_frag-IsSettled cfg pkt addr (length d) now s w.buf f w.known w.node frag.parses
            (o buf') full (decides buf' complete) (rw w.handle w.pends) in
        let t = (on_frag cfg pkt addr (length d) now s).1 in
        let runs = arrive-IsFrag cfg now node_id req_id f d addr s frag t (λ k. (r.returns k, t)) in
        rw runs (record {
          buf = buf';
          forgotten = r.forgotten;
          full = complete;
          settled =
              ap (get fut) r.settled
              ∙ ap (λ t. get t (put w.buf.future (o buf') s.futures)) (sym w.handle)
              ∙ get-put_self w.buf.future (o buf') s.futures;
        })

    Waits-open : length buf'.chunks ≢ length cs → After i w (arrive cfg now d addr s).1
    Waits-open more =
        let r =
          on_frag-IsArmed cfg pkt addr (length d) now s w.buf f w.known w.node frag.parses more in
        let t = (on_frag cfg pkt addr (length d) now s).1 in
        let runs = arrive-IsFrag cfg now node_id req_id f d addr s frag t (λ k. (r.returns k, t)) in
        let bound = length-le-bound (length cs) buf'.chunks part'.distinct part'.below in
        subst (After i w) (sym (ap (λ z. z.1) runs)) (
          inr (
            record {
              buf = record buf' { timer = some r.handle };
              known = r.stored;
              node = w.node;
              handle = w.handle;
              part = part';
              open_request = omega arith;
              pends = ap (get fut) r.futures ∙ w.pends;
            },
            has',
          ))

    Waits-arrive : After i w (arrive cfg now d addr s).1
    Waits-arrive = elim (Bool-cases (nat_eqb (length buf'.chunks) (length cs))) [
      | inl full ↦ inl (Waits-settled ((nat_eqb_iff (length buf'.chunks) (length cs)).0 full))
      | inr more ↦ Waits-open (ground arith)
    ]

  -- Each datagram sent carries the chunk of its index.
  IsFrag-of :
      (i : ℕ) (d : Bytes)
      → get_elem? ds i ≡ some d
      → (c : Bytes) × (get_elem? cs i ≡ some c)
        × IsFrag node_id req_id (record { idx = i; total = length cs; chunk = c }) d
  IsFrag-of i d h =
      let (c, at) = get_elem?_lt cs i (omega (arith, split.count, lt_of_get_elem? ds i d h)) in
      let (d', at', frag) = split.carries i c at in
      let e : d' ≡ d = some-injective d' d (sym at' ∙ h) in (c, at, rw (← e, ← zero-add i) frag)

  arrivals-Done : (l : List Arrival) (s : Reassembler) → D s → D (arrivals cfg ds l s)
  unfolding arrivals
  arrivals-Done [] s done = done
  arrivals-Done ((i, addr, now) ∷ rest) s done = elim (Option-cases (get_elem? ds i)) [
    | inl e ↦ rw (e, arrivals) (arrivals-Done rest s done)
    | inr (d, e) ↦
        let (c, at, frag) = IsFrag-of i d e in
        rw (e, arrivals) (arrivals-Done rest _ (Done-arrive i c addr now s d frag done))
  ]

  -- Every index is stored, or still to come.
  abbrev Covers : {s : Reassembler} → Waits node_id req_id fut cs s → List Arrival → Type 0
  Covers w l = (i : ℕ) → i < length cs → (has i w.buf.chunks ≡ true) ⊎ (elem i (indices l) ≡ true)

  Covers-next :
      (i : ℕ) (addr : Addr) (now : ℕ) (rest : List Arrival) {s t : Reassembler}
      (w : Waits node_id req_id fut cs s) (v : Waits node_id req_id fut cs t)
      → Keeps i w v
      → Covers w ((i, addr, now) ∷ rest)
      → Covers v rest
  Covers-next i addr now rest w v keeps all j lt = ground (arith, all j lt, keeps j)

  Covers-skip :
      (i : ℕ) (addr : Addr) (now : ℕ) (rest : List Arrival) {s : Reassembler}
      (w : Waits node_id req_id fut cs s)
      → get_elem? ds i ≡ none
      → Covers w ((i, addr, now) ∷ rest)
      → Covers w rest
  Covers-skip i addr now rest w e all j lt =
      ground (arith, all j lt, le_of_get_elem? ds i e, split.count)

  pub arrivals_settle :
      (l : List Arrival) (s : Reassembler) (w : Waits node_id req_id fut cs s)
      → Covers w l
      → D (arrivals cfg ds l s)
  unfolding arrivals
  arrivals_settle [] s w all = absurd (
      omega (
        arith,
        w.open_request,
        length_of_covers (length cs) w.buf.chunks w.part.distinct w.part.below
            (λ i lt. ground (arith, all i lt)),
      ))
  arrivals_settle ((i, addr, now) ∷ rest) s w all = elim (Option-cases (get_elem? ds i)) [
    | inl e ↦ rw (e, arrivals) (arrivals_settle rest s w (Covers-skip i addr now rest w e all))
    | inr (d, e) ↦
        let (c, at, frag) = IsFrag-of i d e in
        rw (e, arrivals)
          (elim (Waits-arrive i c at addr now s d frag w) [
            | inl done ↦ arrivals-Done rest _ done
            | inr (v, keeps) ↦ arrivals_settle rest _ v (Covers-next i addr now rest w v keeps all)
          ])
  ]
