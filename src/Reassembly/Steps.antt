-- ===== src/Reassembly/Steps.antt =====
-- One fragment at a request that waits for it, orchestrator/reassembly.py.
use split_inference.Base.{
  ℕ, ◌≡◌, refl, ap, ◌∙◌, ◌≢◌, inl, inr, true, false, Option, none, some, arith, nat_eqb,
  nat_eqb_iff, Option-cases, nat_eq, string_eq, pair_eq, ==-false, Result, ok, length,
}
use split_inference.Base.Dict.{
  get, put, remove, get-put_self, get-put_ne, get-remove_self, get-remove_ne,
}
use split_inference.Wire.Packet.{Packet}
use split_inference.Wire.Fragment.{Fragment, parse_frag}
use split_inference.Config.Types.{ProtocolCfg}
use split_inference.Reassembly.State.{
  Addr, ReqBuf, Future, pending, Reassembler, cancel_timer, settle,
}
use split_inference.Reassembly.Receive.{arm_timer, outcome, complete, received, accept, on_frag}

module _ (t : Option ℕ) (s : Reassembler) where
  pub reqs-cancel_timer : (cancel_timer t s).reqs ≡ s.reqs
  unfolding cancel_timer
  reqs-cancel_timer = ground arith

  pub futures-cancel_timer : (cancel_timer t s).futures ≡ s.futures
  unfolding cancel_timer
  futures-cancel_timer = ground arith

  pub sent-cancel_timer : (cancel_timer t s).sent ≡ s.sent
  unfolding cancel_timer
  sent-cancel_timer = ground arith

-- The request goes on: its buffer is stored with a new timer.
pub record IsArmed (req_id : ℕ) (buf : ReqBuf) (s : Reassembler)
    (r : Result (Unit {0}) × Reassembler) : Type 0 where
  pub returns : r.0 ≡ ok tt
  pub handle : ℕ
  pub stored : get req_id r.1.reqs ≡ some (record buf { timer = some handle })
  pub others : (j : ℕ) → j ≢ req_id → get j r.1.reqs ≡ get j s.reqs
  pub futures : r.1.futures ≡ s.futures
  pub sent : r.1.sent ≡ s.sent

pub arm_timer-IsArmed :
    (cfg : ProtocolCfg) (req_id : ℕ) (buf : ReqBuf) (s : Reassembler)
    → IsArmed req_id buf s (arm_timer cfg req_id buf s)
unfolding arm_timer
arm_timer-IsArmed cfg req_id buf s =
    let s' = cancel_timer buf.timer s in
    let buf' : ReqBuf = record buf { timer = some s'.next_timer } in
    record {
      returns = refl;
      handle = s'.next_timer;
      stored = get-put_self req_id buf' s'.reqs;
      others =
          λ j h. get-put_ne req_id j buf' s'.reqs h ∙ ap (get j) (reqs-cancel_timer buf.timer s);
      futures = futures-cancel_timer buf.timer s;
      sent = sent-cancel_timer buf.timer s;
    }

-- The request is over: it is forgotten, and its future holds the outcome.
pub record IsSettled (req_id : ℕ) (buf : ReqBuf) (o : Future) (s : Reassembler)
    (r : Result (Unit {0}) × Reassembler) : Type 0 where
  pub returns : r.0 ≡ ok tt
  pub forgotten : get req_id r.1.reqs ≡ none
  pub others : (j : ℕ) → j ≢ req_id → get j r.1.reqs ≡ get j s.reqs
  pub settled : r.1.futures ≡ put buf.future o s.futures
  pub sent : r.1.sent ≡ s.sent

pub complete-IsSettled :
    (req_id : ℕ) (buf : ReqBuf) (n : ℕ) (o : Future) (s : Reassembler)
    → outcome buf n ≡ ok o
    → get buf.future s.futures ≡ some pending
    → IsSettled req_id buf o s (complete req_id buf n s)
unfolding complete settle
complete-IsSettled req_id buf n o s h p =
    let s' = cancel_timer buf.timer s in
    let waits : get buf.future s'.futures ≡ some pending =
      ap (get buf.future) (futures-cancel_timer buf.timer s) ∙ p in
    let final : Reassembler = record s' {
      reqs = remove req_id s'.reqs;
      futures = put buf.future o s'.futures;
    } in
    let run : complete req_id buf n s ≡ (ok tt, final) = rw (h, waits) in
    rw run (record {
      returns = refl;
      forgotten = get-remove_self req_id s'.reqs;
      others = λ j k. get-remove_ne req_id j s'.reqs k ∙ ap (get j) (reqs-cancel_timer buf.timer s);
      settled = ap (put buf.future o) (futures-cancel_timer buf.timer s);
      sent = sent-cancel_timer buf.timer s;
    })

module _ (cfg : ProtocolCfg) (pkt : Packet) (addr : Addr) (datagram_len now : ℕ) (s : Reassembler)
    (buf : ReqBuf) (f : Fragment) (waits : get pkt.req_id s.reqs ≡ some buf)
    (same_node : pkt.node_id ≡ buf.node_id) (parsed : parse_frag pkt.payload ≡ ok f) where
  abbrev buf' : ReqBuf
  buf' = received buf f addr datagram_len now

  abbrev stored : Reassembler
  stored = record s { reqs = put pkt.req_id buf' s.reqs }

  stored_others : (j : ℕ) → j ≢ pkt.req_id → get j stored.reqs ≡ get j s.reqs
  stored_others j h = get-put_ne pkt.req_id j buf' s.reqs h

  on_frag-accept :
      on_frag cfg pkt addr datagram_len now s ≡ accept cfg pkt buf addr datagram_len now s
  unfolding on_frag
  on_frag-accept = rw (waits, on_frag, (nat_eqb_iff pkt.node_id buf.node_id).1 same_node)

  -- An incomplete request is stored with what arrived, and its timer is armed.
  pub on_frag-IsArmed :
      length buf'.chunks ≢ f.total
      → IsArmed pkt.req_id buf' s (on_frag cfg pkt addr datagram_len now s)
  unfolding accept
  on_frag-IsArmed more =
      let more' : nat_eqb (length buf'.chunks) f.total ≡ false =
        ==-false (length buf'.chunks) f.total more in
      let a = arm_timer-IsArmed cfg pkt.req_id buf' stored in
      rw (on_frag-accept, parsed, accept, more')
        (record {
          returns = a.returns;
          handle = a.handle;
          stored = a.stored;
          others = λ j h. a.others j h ∙ stored_others j h;
          futures = a.futures;
          sent = a.sent;
        })

  -- A complete one is settled with its outcome.
  pub on_frag-IsSettled :
      (o : Future)
      → length buf'.chunks ≡ f.total
      → outcome buf' f.total ≡ ok o
      → get buf.future s.futures ≡ some pending
      → IsSettled pkt.req_id buf' o s (on_frag cfg pkt addr datagram_len now s)
  unfolding accept
  on_frag-IsSettled o full h p =
      let full' : nat_eqb (length buf'.chunks) f.total ≡ true =
        (nat_eqb_iff (length buf'.chunks) f.total).1 full in
      let a = complete-IsSettled pkt.req_id buf' f.total o stored h p in
      rw (on_frag-accept, parsed, accept, full')
        (record {
          returns = a.returns;
          forgotten = a.forgotten;
          others = λ j k. a.others j k ∙ stored_others j k;
          settled = a.settled;
          sent = a.sent;
        })

-- A fragment of an unknown request, or of another node, changes nothing.
pub on_frag_dropped :
    (cfg : ProtocolCfg) (pkt : Packet) (addr : Addr) (datagram_len now : ℕ) (s : Reassembler)
    → ((buf : ReqBuf) → get pkt.req_id s.reqs ≡ some buf → pkt.node_id ≢ buf.node_id)
    → on_frag cfg pkt addr datagram_len now s ≡ (ok tt, s)
unfolding on_frag
on_frag_dropped cfg pkt addr datagram_len now s h = elim (Option-cases (get pkt.req_id s.reqs)) [
  | inl unknown ↦ rw (unknown, on_frag)
  | inr (buf, known) ↦ rw (known, on_frag, ==-false pkt.node_id buf.node_id (h buf known))
]
