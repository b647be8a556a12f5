-- ===== src/SimNode/Delivered.antt =====
-- From the `_serve` of scripts/sim_node.py to the future of orchestrator/reassembly.py: fragments are
-- lost on the air, asked for again and sent again.
use split_inference.Base.{
  elem, ℕ, zero, suc, ◌+◌, ◌%◌, ◌≤◌, ◌<◌, ◌≡◌, refl, ap, ◌∙◌, ◌⊎◌, inl, inr, Bool, true, false, not,
  ◌||◌, Option, none, some, List, [], ◌∷◌, ◌++◌, arith, nat_eqb, nat_eqb_iff, Bool-cases, nat_eq,
  string_eq, pair_eq, Result, ok, err, length, get_elem?, keep_if, range_from, range,
}
use split_inference.Base.Dict.{get}
use split_inference.Wire.Struct.{Bytes, pack_fields}
use split_inference.Wire.Packet.{trailer_s}
use split_inference.Wire.Crc.{crc32}
use split_inference.Wire.Fragment.{fragment_tensor}
use split_inference.Config.Types.{Config, ProtocolCfg}
use split_inference.Reassembly.State.{Addr, Reassembled, result, Reassembler}
use split_inference.Reassembly.Receive.{start}
use split_inference.Reassembly.Delivery.{Arrival, indices, arrivals}
use split_inference.Reassembly.Tensor.{tensor_delivered}
use split_inference.Server.Dispatch.{arrive}
use split_inference.SimNode.Node.{Sim, datagrams_of, retransmit}
use split_inference.SimNode.Resend.{pick}
use split_inference.SimNode.Stream.{serve_all, retransmit-serve_all}

-- Datagrams of one node reach the data port one after the other, at the times of a clock.
unfoldable pub deliver : ProtocolCfg → Addr → (ℕ → ℕ) → ℕ → List Bytes → Reassembler → Reassembler
deliver cfg addr clock k [] s = s
deliver cfg addr clock k (d ∷ ds) s =
    deliver cfg addr clock (suc k) ds (arrive cfg (clock k) d addr s).1

-- The arrivals of the datagrams at some indices; an index that there is not takes no time.
abbrev at_times : List Bytes → Addr → (ℕ → ℕ) → ℕ → List ℕ → List Arrival
at_times ds addr clock k [] = []
at_times ds addr clock k (i ∷ is) = (i, addr, clock k) ∷ elim (get_elem? ds i) [
  | none ↦ at_times ds addr clock k is
  | some d ↦ at_times ds addr clock (suc k) is
]

indices-at_times :
    (ds : List Bytes) (addr : Addr) (clock : ℕ → ℕ) (k : ℕ) (is : List ℕ)
    → indices (at_times ds addr clock k is) ≡ is
indices-at_times ds addr clock k [] = refl
indices-at_times ds addr clock k (i ∷ is) =
    ap (λ js. i ∷ js)
      (split (get_elem? ds i) (indices-at_times ds addr clock k is)
        (indices-at_times ds addr clock (suc k) is))
  where
    split :
        (o : Option Bytes)
        → indices (at_times ds addr clock k is) ≡ is
        → indices (at_times ds addr clock (suc k) is) ≡ is
        → indices (elim o [
          | none ↦ at_times ds addr clock k is
          | some d ↦ at_times ds addr clock (suc k) is
        ])
          ≡ is
    split none p q = p
    split (some d) p q = q

deliver-pick :
    (cfg : ProtocolCfg) (ds : List Bytes) (addr : Addr) (clock : ℕ → ℕ) (k : ℕ) (is : List ℕ)
    (s : Reassembler)
    → deliver cfg addr clock k (pick ds is) s ≡ arrivals cfg ds (at_times ds addr clock k is) s
unfolding deliver arrivals
deliver-pick cfg ds addr clock k [] s = refl
deliver-pick cfg ds addr clock k (i ∷ is) s =
    split (get_elem? ds i) (deliver-pick cfg ds addr clock k is s)
      (λ d. deliver-pick cfg ds addr clock (suc k) is (arrive cfg (clock k) d addr s).1)
  where
    split :
        (o : Option Bytes)
        → deliver cfg addr clock k (pick ds is) s ≡ arrivals cfg ds (at_times ds addr clock k is) s
        → ((d : Bytes)
            → deliver cfg addr clock (suc k) (pick ds is) (arrive cfg (clock k) d addr s).1
              ≡ arrivals cfg ds
                  (at_times ds addr clock (suc k) is)
                  (arrive cfg (clock k) d addr s).1)
        → deliver cfg addr clock k (elim o [ none ↦ pick ds is | some d ↦ d ∷ pick ds is ]) s
          ≡ arrivals cfg ds
              (elim o [
                | none ↦ at_times ds addr clock k is
                | some d ↦ at_times ds addr clock (suc k) is
              ])
              (elim o [ none ↦ s | some d ↦ (arrive cfg (clock k) d addr s).1 ])
    split none p q = p
    split (some d) p q = q d

elem-append : (i : ℕ) (xs ys : List ℕ) → elem i (xs ++ ys) ≡ (elem i xs || elem i ys)
elem-append i [] ys = refl
elem-append i (x ∷ xs) ys = ground (arith, elem-append i xs ys)

elem-keep_if :
    (p : ℕ → Bool) (i : ℕ) (xs : List ℕ)
    → elem i xs ≡ true
    → p i ≡ true
    → elem i (keep_if p xs) ≡ true
elem-keep_if p i [] h k = cc
elem-keep_if p i (x ∷ xs) h k = elim (Bool-cases (nat_eqb x i)) [
  | inl q ↦ let same = (nat_eqb_iff x i).0 q in rw (same, k) (ground (arith, nat_eqb_iff i i))
  | inr q ↦ ground (arith, elem-keep_if p i xs)
]

elem-range_from : (a n i : ℕ) → a ≤ i → i < a + n → elem i (range_from a n) ≡ true
elem-range_from a zero i h k = absurd (omega arith)
elem-range_from a (suc n) i h k = ground (arith, elem-range_from (suc a) n i, nat_eqb_iff a i)

-- `datagrams_of` seals the payload and fragments both.
sealed_of :
    (cfg : Config) (nid req_id : ℕ) (payload : Bytes) (cap_us edge_us : ℕ) (ds : List Bytes)
    → datagrams_of cfg nid req_id payload cap_us edge_us ≡ ok ds
    → (trailer : Bytes) × (pack_fields trailer_s (crc32 payload, (cap_us, (edge_us, tt)))
        ≡ ok trailer)
      × (fragment_tensor nid req_id payload trailer cfg.network.fragment_payload_bytes ≡ ok ds)
unfolding datagrams_of
sealed_of cfg nid req_id payload cap_us edge_us ds h =
    split (pack_fields trailer_s (crc32 payload, (cap_us, (edge_us, tt)))) refl h
  where
    split :
        (r : Result Bytes)
        → pack_fields trailer_s (crc32 payload, (cap_us, (edge_us, tt))) ≡ r
        → elim r [
          | err e ↦ err e
          | ok trailer ↦
              fragment_tensor nid req_id payload trailer cfg.network.fragment_payload_bytes
        ]
          ≡ ok ds
        → (trailer : Bytes) × (pack_fields trailer_s (crc32 payload, (cap_us, (edge_us, tt)))
            ≡ ok trailer)
          × (fragment_tensor nid req_id payload trailer cfg.network.fragment_payload_bytes ≡ ok ds)
    split (err e) p g = cc
    split (ok trailer) p g = (trailer, p, g)

-- A node whose current request is this one and that has sent nothing yet serves it to the last
-- fragment, some fragments being lost on the air, and then answers a NACK, some being lost again;
-- if each fragment got through one of the two times and the last has room for the whole trailer,
-- then, once the datagrams sent have reached the data port in their order, the future of the
-- request started there holds the payload and both times of the node.
pub serve_delivers :
    (cfg : Config) (nid req_id action_idx : ℕ) (payload : Bytes) (cap_us edge_us : ℕ)
    (ds : List Bytes) (node : Sim) (server : Reassembler) (addr : Addr) (clock : ℕ → ℕ)
    (lost lost_again : ℕ → Bool) (asked : List ℕ)
    → node.current_req ≡ some req_id
    → node.data_sent ≡ []
    → datagrams_of cfg nid req_id payload cap_us edge_us ≡ ok ds
    → ((i : ℕ)
        → i < length ds
        → (lost i ≡ false) ⊎ ((elem i asked ≡ true) × (lost_again i ≡ false)))
    → 12 ≤ (length payload + 11) % cfg.network.fragment_payload_bytes + 1
    → (r : Reassembled) × (get server.next_future
          (deliver cfg.protocol addr clock 0
            (retransmit lost_again asked
              (serve_all cfg nid req_id action_idx payload cap_us edge_us lost ds node)).data_sent
            (start nid req_id server).1).futures
        ≡ some (result r))
      × (r.body ≡ payload)
      × (r.t_capture_us ≡ cap_us)
      × (r.t_edge_us ≡ edge_us)
serve_delivers cfg nid req_id action_idx payload cap_us edge_us ds node server addr clock lost
      lost_again asked current nothing made each room =
    let p : List ℕ = keep_if (λ j. not (lost j)) (range (length ds)) in
    let q : List ℕ = keep_if (λ j. not (lost_again j)) asked in
    let (trailer, sealed, sent) = sealed_of cfg nid req_id payload cap_us edge_us ds made in
    let stream =
      retransmit-serve_all cfg nid req_id action_idx payload cap_us edge_us lost lost_again asked ds
        node current made
      ∙ ap (λ xs. xs ++ pick ds (p ++ q)) nothing in
    let l = at_times ds addr clock 0 (p ++ q) in
    let reached =
      tensor_delivered cfg.protocol nid req_id payload trailer cfg.network.fragment_payload_bytes ds
        cap_us edge_us server l sent sealed
        (λ i lt.
          ap (elem i) (indices-at_times ds addr clock 0 (p ++ q))
          ∙ elem-append i p q
          ∙ there i lt (each i lt))
        room in
    (
      reached.0,
      ap
            (λ xs.
              get server.next_future
                (deliver cfg.protocol addr clock 0 xs (start nid req_id server).1).futures)
            stream
          ∙ ap (λ (s : Reassembler). get server.next_future s.futures)
              (deliver-pick cfg.protocol ds addr clock 0 (p ++ q) (start nid req_id server).1)
          ∙ reached.1,
      reached.2,
      reached.3,
      reached.4,
    )
  where
    there :
        (i : ℕ)
        → i < length ds
        → (lost i ≡ false) ⊎ ((elem i asked ≡ true) × (lost_again i ≡ false))
        → (elem i (keep_if (λ j. not (lost j)) (range (length ds)))
            || elem i (keep_if (λ j. not (lost_again j)) asked))
          ≡ true
    there i lt (inl kept) =
        let first =
          elem-keep_if (λ j. not (lost j)) i (range (length ds))
            (elem-range_from 0 (length ds) i (omega arith) (omega arith)) (ap not kept) in
        ground arith
    there i lt (inr (asked_i, kept)) =
        let second = elem-keep_if (λ j. not (lost_again j)) i asked asked_i (ap not kept) in
        ground arith
