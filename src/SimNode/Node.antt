-- ===== src/SimNode/Node.antt =====
-- `SimNode` of scripts/sim_node.py. What `_serve` awaits is cut into steps; the capture, the head of
-- the model, the jitter and the loss are given to them. A task that `_on_ctrl` creates runs its
-- first part before the next datagram is read, so the two are one step.
use split_inference.Base.{
  ℕ, suc, Bool, true, false, not, ◌&&◌, Option, none, some, List, [], ◌∷◌, ◌++◌, ltb, if◌then◌else◌,
  nat_eqb, ◌==◌, nat_eq, string_eq, pair_eq, value_error, key_error, Result, ok, err, or_raise,
  get_elem?,
}
use split_inference.Base.Exec.{Exec, ◌>>=◌, ◌>>◌, lift, modify}
use split_inference.Base.Dict.{Dict, get}
use split_inference.Wire.Kind
use split_inference.Wire.Heartbeat.{Heartbeat, pack_heartbeat}
use split_inference.Base.Int.{ℤ, pos, negsuc}
use split_inference.Wire.Struct.{Bytes, Values, pack_fields, unpack_from}
use split_inference.Wire.Packet.{Packet, pack, unpack, assign_s, trailer_s}
use split_inference.Wire.Fragment.{fragment_tensor}
use split_inference.Wire.Nack.{parse_nack}
use split_inference.Wire.Crc.{crc32}
use split_inference.Config.Types.{Config}

-- What a `_serve` awaits: the capture or the head, the fragments it still sends, or the RESULT.
pub data Phase : Type 0 where
  capturing : Phase
  sending : List Bytes → Phase
  awaiting : Phase

pub record Serve : Type 0 where
  pub req_id : ℕ
  pub action_idx : ℕ
  pub phase : Phase
  pub cancelling : Bool

-- `serve_task` is the task while it runs; `retransmits` are the running `_retransmit` tasks.
pub record Sim : Type 0 where
  pub busy : Bool
  pub current_req : Option ℕ
  pub serve_task : Option Serve
  pub result_evt : Bool
  pub frags : Dict ℕ Bytes
  pub retransmits : List (List ℕ)
  pub ctrl : List Bytes
  pub data_sent : List Bytes

abbrev pub idle : Sim
idle = record {
  busy = false;
  current_req = none;
  serve_task = none;
  result_evt = false;
  frags = [];
  retransmits = [];
  ctrl = [];
  data_sent = [];
}

-- pkt.req_id == self.current_req
abbrev pub is_current : ℕ → Sim → Bool
is_current req_id s = elim s.current_req [ none ↦ false | some r ↦ nat_eqb req_id r ]

-- self.ctrl.sendto(P.pack(P.ASSIGN_ACK, nid, pkt.req_id))
unfoldable pub ack : ℕ → ℕ → Exec Sim Unit
ack nid req_id = lift (pack Kind.assign_ack nid req_id []) >>= λ d.
    modify (λ s. record s { ctrl = s.ctrl ++ d ∷ [] })

-- The `finally` of `_serve`.
unfoldable pub end_serve : Sim → Sim
end_serve s = record s { busy = false; current_req = none; serve_task = none }

-- `_serve` up to its first await: cfg.cuts[action_idx] may raise.
unfoldable pub begin_serve : Config → ℕ → ℕ → Sim → Sim
begin_serve cfg req_id action_idx s = elim (get_elem? cfg.cuts action_idx) [
  | none ↦ end_serve (record s { result_evt = false; frags = [] })
  | some cut ↦ record s {
    busy = true;
    current_req = some req_id;
    result_evt = false;
    frags = [];
    serve_task = some (record {
      req_id = req_id;
      action_idx = action_idx;
      phase = capturing;
      cancelling = false;
    });
  }
]

-- if self.serve_task: self.serve_task.cancel()
unfoldable pub cancel_serve : Sim → Sim
cancel_serve s = elim s.serve_task [
  | none ↦ s
  | some t ↦ record s { serve_task = some (record t { cancelling = true }) }
]

abbrev pub first_field : Values assign_s → ℕ
first_field (action_idx, _) = action_idx

unfoldable pub on_assign : Config → ℕ → Packet → Exec Sim Unit
on_assign cfg nid pkt s =
    if s.busy
    then (if is_current pkt.req_id s then ack nid pkt.req_id s else (ok tt, s))
    else (ack nid pkt.req_id >> lift (unpack_from assign_s pkt.payload) >>= λ values.
          modify (begin_serve cfg pkt.req_id (first_field values)))
        s

unfoldable pub on_ctrl : Config → ℕ → Packet → Exec Sim Unit
on_ctrl cfg nid pkt s =
    if pkt.ptype == Kind.assign
    then on_assign cfg nid pkt s
    else if (pkt.ptype == Kind.result) && is_current pkt.req_id s
    then (ok tt, record s { result_evt = true })
    else if (pkt.ptype == Kind.abort) && is_current pkt.req_id s
    then (ok tt, cancel_serve s)
    else (ok tt, s)

-- asyncio.ensure_future(self._retransmit(…)) over the sorted indices.
unfoldable pub spawn_retransmit : List ℕ → Sim → Sim
spawn_retransmit missing s = record s { retransmits = s.retransmits ++ missing ∷ [] }

unfoldable pub on_data : Packet → Exec Sim Unit
on_data pkt s =
    if not (is_current pkt.req_id s)
    then (ok tt, s)
    else if pkt.ptype == Kind.nack
    then (lift (parse_nack pkt.payload) >>= λ missing. modify (spawn_retransmit missing)) s
    else if pkt.ptype == Kind.abort
    then (ok tt, cancel_serve s)
    else (ok tt, s)

-- except ValueError: pass
abbrev pub pass_value_error : Result (Unit {0}) × Sim → Result (Unit {0}) × Sim
pass_value_error (err value_error, s) = (ok tt, s)
pass_value_error (r, s) = (r, s)

unfoldable pub datagram_received : (Packet → Exec Sim Unit) → Bytes → Exec Sim Unit
datagram_received handler datagram s =
    pass_value_error ((lift (unpack datagram) >>= λ pkt. handler pkt) s)

-- The end of `_send_frag`: the airtime is spent, and the datagram is sent unless it is lost.
unfoldable pub send_frag : Bool → Bytes → Sim → Sim
send_frag lost datagram s =
    if lost then s else record s { data_sent = s.data_sent ++ datagram ∷ [] }

-- dict(enumerate(datagrams)) from the index `i` on
unfoldable pub enumerate : ℕ → List Bytes → Dict ℕ Bytes
enumerate i [] = []
enumerate i (d ∷ ds) = (i, d) ∷ enumerate (suc i) ds

-- The loop over the fragments, and what follows it.
abbrev pub rest_phase : List Bytes → Phase
rest_phase [] = awaiting
rest_phase (d ∷ ds) = sending (d ∷ ds)

abbrev pub with_phase : Serve → Phase → Sim → Sim
with_phase t p s = record s { serve_task = some (record t { phase = p }) }

-- From the payload on: the trailer, the fragments. An exception ends the task through `finally`.
unfoldable pub datagrams_of : Config → ℕ → ℕ → Bytes → ℕ → ℕ → Result (List Bytes)
datagrams_of cfg nid req_id payload cap_us edge_us =
    elim (pack_fields trailer_s (crc32 payload, (cap_us, (edge_us, tt)))) [
      | err e ↦ err e
      | ok trailer ↦ fragment_tensor nid req_id payload trailer cfg.network.fragment_payload_bytes
    ]

abbrev pub fragmented : Serve → Result (List Bytes) → Sim → Sim
fragmented t (err e) s = end_serve s
fragmented t (ok ds) s = with_phase t (rest_phase ds) (record s { frags = enumerate 0 ds })

-- One await of `_serve` ends, and it runs to the next.
unfoldable pub resume : Config → ℕ → Bytes → ℕ → ℕ → Bool → Serve → Sim → Sim
resume cfg nid payload cap_us edge_us lost t s =
    if t.cancelling then end_serve s else elim t.phase [
      | capturing ↦ fragmented t (datagrams_of cfg nid t.req_id payload cap_us edge_us) s
      | sending [] ↦ with_phase t awaiting s
      | sending (d ∷ ds) ↦ send_frag lost d (with_phase t (rest_phase ds) s)
      | awaiting ↦ end_serve s
    ]

-- if i in self.frags and self.current_req is not None: await self._send_frag(self.frags[i])
unfoldable pub retransmit_one : Bool → ℕ → Sim → Sim
retransmit_one lost i s = elim (get i s.frags) [
  | none ↦ s
  | some d ↦ elim s.current_req [ none ↦ s | some r ↦ send_frag lost d s ]
]

-- The loop of `_retransmit`, with what is lost on the air.
unfoldable pub retransmit : (ℕ → Bool) → List ℕ → Sim → Sim
retransmit lost [] s = s
retransmit lost (i ∷ is) s = retransmit lost is (retransmit_one (lost i) i s)

-- self.rssi >= -k
abbrev pub at_least_minus : ℕ → ℤ → Bool
at_least_minus k (pos n) = true
at_least_minus k (negsuc n) = ltb n k

-- The link profile that the signal strength picks.
unfoldable pub goodput : Config → ℤ → Result ℕ
goodput cfg rssi = or_raise key_error (
    get (if at_least_minus 55 rssi then "good" else if at_least_minus 70 rssi then "mid" else "bad")
      cfg.sim.goodput_bytes_per_s)

abbrev pub heartbeat_of : ℤ → Sim → Heartbeat
heartbeat_of rssi s = record {
  rssi = rssi;
  free_heap = 150000;
  temp = pos 30;
  fw_hash = 0x51D0DE;
  busy = if s.busy then 1 else 0;
  boot_count = 0;
}

-- The body of `_heartbeat_loop`.
unfoldable pub send_heartbeat : ℕ → ℤ → Exec Sim Unit
send_heartbeat nid rssi s =
    (lift (pack_heartbeat nid (heartbeat_of rssi s)) >>= λ d.
    modify (λ s. record s { ctrl = s.ctrl ++ d ∷ [] }))
      s
