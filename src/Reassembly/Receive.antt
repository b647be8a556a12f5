-- ===== src/Reassembly/Receive.antt =====
-- The methods of `Reassembler`, orchestrator/reassembly.py.
use split_inference.Base.{
  ℕ, zero, suc, ◌+◌, ◌-◌, Bool, true, not, Option, none, some, List, [], ◌∷◌, ◌++◌, ltb, leb,
  if◌then◌else◌, nat_eqb, ◌==◌, nat_eq, string_eq, pair_eq, key_error, type_error, Result, ok, err,
  or_raise, length, take, drop, keep_if, range,
}
use split_inference.Base.Exec.{Exec, ◌>>=◌, ◌>>◌, modify, lift, pure}
use split_inference.Base.Dict.{Dict, get, put, remove, has}
use split_inference.Wire.Kind
use split_inference.Wire.Struct.{Bytes, Values, size, unpack_exact}
use split_inference.Wire.Packet.{Packet, pack, trailer_s}
use split_inference.Wire.Fragment.{Fragment, parse_frag}
use split_inference.Wire.Nack.{pack_nack}
use split_inference.Wire.Crc.{crc32}
use split_inference.Config.Types.{ProtocolCfg}
use split_inference.Reassembly.State.{
  Addr, timeout, crc, ReqBuf, Future, pending, result, failed, Reassembler, cancel_timer, is_done,
  settle, send,
}

abbrev pub new_buf : ℕ → ℕ → ReqBuf
new_buf node_id future = record {
  node_id = node_id;
  addr = none;
  chunks = [];
  total = none;
  t_first = none;
  t_last = none;
  n_rx = 0;
  n_retx = 0;
  bytes_on_air = 0;
  nack_rounds = 0;
  timer = none;
  future = future;
}

-- Returns the handle of the request's future.
unfoldable pub start : ℕ → ℕ → Exec Reassembler ℕ
start node_id req_id s = (
  ok s.next_future,
  record s {
    reqs = put req_id (new_buf node_id s.next_future) s.reqs;
    futures = put s.next_future pending s.futures;
    next_future = suc s.next_future;
  },
)

-- if notify_device and buf.addr: self.send(buf.addr, …)
unfoldable pub notify : Bool → Option Addr → Result Bytes → Exec Reassembler Unit
notify true (some addr) datagram = lift datagram >>= λ d. send addr d
notify _ _ datagram = pure tt

-- if not buf.future.done(): buf.future.set_exception(…)
unfoldable pub fail_unless_done : ReqBuf → Exec Reassembler Unit
fail_unless_done buf s =
    if is_done (get buf.future s.futures)
    then (ok tt, s)
    else settle buf.future (failed timeout buf) s

unfoldable pub abort_buf : ℕ → Bool → ReqBuf → Exec Reassembler Unit
abort_buf req_id notify_device buf = do
  modify (λ s. cancel_timer buf.timer (record s { reqs = remove req_id s.reqs }))
  notify notify_device buf.addr (pack Kind.abort buf.node_id req_id [])
  fail_unless_done buf

unfoldable pub abort : ℕ → Bool → Exec Reassembler Unit
abort req_id notify_device s = elim (get req_id s.reqs) [
  | none ↦ (ok tt, s)
  | some buf ↦ abort_buf req_id notify_device buf s
]

-- _arm_timer; the buffer keeps the new handle.
unfoldable pub arm_timer : ProtocolCfg → ℕ → ReqBuf → Exec Reassembler Unit
arm_timer cfg req_id buf s =
    let s' = cancel_timer buf.timer s in
    (
      ok tt,
      record s' {
        reqs = put req_id (record buf { timer = some s'.next_timer }) s'.reqs;
        timers =
            put s'.next_timer (record { delay_ms = cfg.nack_delay_ms; req_id = req_id }) s'.timers;
        next_timer = suc s'.next_timer;
      },
    )

-- set(range(buf.total)) - set(buf.chunks)
abbrev pub missing : ℕ → Dict ℕ Bytes → List ℕ
missing total chunks = keep_if (λ i. not (has i chunks)) (range total)

-- The part of _on_timer from the NACK on.
unfoldable pub send_nack : ProtocolCfg → ℕ → ReqBuf → ℕ → Exec Reassembler Unit
send_nack cfg req_id buf total = do
  nack ← lift (pack_nack buf.node_id req_id (missing total buf.chunks) total)
  let buf' : ReqBuf = record buf {
    bytes_on_air = buf.bytes_on_air + length nack;
    nack_rounds = suc buf.nack_rounds;
  }
  modify (λ s. record s { reqs = put req_id buf' s.reqs })
  notify true buf.addr (ok nack)
  arm_timer cfg req_id buf'

-- _on_timer: `range(None)` raises TypeError.
unfoldable pub on_timer : ProtocolCfg → ℕ → Exec Reassembler Unit
on_timer cfg req_id s = elim (get req_id s.reqs) [
  | none ↦ (ok tt, s)
  | some buf ↦
      if is_done (get buf.future s.futures)
      then (ok tt, s)
      else if leb cfg.max_nack_rounds buf.nack_rounds
      then abort req_id true s
      else elim buf.total [ none ↦ (err type_error, s) | some n ↦ send_nack cfg req_id buf n s ]
]

-- buf.chunks[buf.total - 1]: at a total of 0 the key is -1, which no fragment has.
abbrev pub last_chunk : ℕ → Dict ℕ Bytes → Option Bytes
last_chunk zero chunks = none
last_chunk (suc n) chunks = get n chunks

-- b"".join(buf.chunks[i] for i in range(n))
unfoldable pub join_chunks : Dict ℕ Bytes → List ℕ → Result Bytes
join_chunks chunks [] = ok []
join_chunks chunks (i ∷ is) = elim (or_raise key_error (get i chunks)) [
  | err e ↦ err e
  | ok c ↦ elim (join_chunks chunks is) [ err e ↦ err e | ok rest ↦ ok (c ++ rest) ]
]

abbrev pub trailer_size : ℕ
trailer_size = size trailer_s

-- What _complete makes of the trailer and the body.
abbrev pub verdict : ReqBuf → ℕ → Values trailer_s → Bytes → Future
verdict buf total (sum, (t_capture_us, (t_edge_us, _))) body =
    if crc32 body == sum
    then result (record {
      body = body;
      t_capture_us = t_capture_us;
      t_edge_us = t_edge_us;
      t_first = buf.t_first;
      t_last = buf.t_last;
      n_frags = total;
      n_retx = buf.n_retx;
      bytes_on_air = buf.bytes_on_air;
    })
    else failed crc buf

-- The outcome that _complete settles the future with, or what it raises before that.
unfoldable pub outcome : ReqBuf → ℕ → Result Future
outcome buf total = elim (or_raise key_error (last_chunk total buf.chunks)) [
  | err e ↦ err e
  | ok last ↦
      if ltb (length last) trailer_size
      then ok (failed crc buf)
      else let cut = length last - trailer_size in
        elim (unpack_exact trailer_s (drop cut last)) [
          | err e ↦ err e
          | ok trailer ↦ elim (join_chunks buf.chunks (range (total - 1))) [
            | err e ↦ err e
            | ok front ↦ ok (verdict buf total trailer (front ++ take cut last))
          ]
        ]
]

unfoldable pub complete : ℕ → ReqBuf → ℕ → Exec Reassembler Unit
complete req_id buf total = do
  modify (λ s. let s' = cancel_timer buf.timer s in record s' { reqs = remove req_id s'.reqs })
  settled ← lift (outcome buf total)
  settle buf.future settled

-- Lines 77 to 85: what a fragment does to its buffer.
abbrev pub received : ReqBuf → Fragment → Addr → ℕ → ℕ → ReqBuf
received buf f addr datagram_len now = record buf {
  addr = some addr;
  total = some f.total;
  t_first = elim buf.t_first [ none ↦ some now | some t ↦ some t ];
  t_last = some now;
  n_rx = suc buf.n_rx;
  bytes_on_air = buf.bytes_on_air + datagram_len;
  n_retx = if has f.idx buf.chunks then suc buf.n_retx else buf.n_retx;
  chunks = put f.idx f.chunk buf.chunks;
}

unfoldable pub accept : ProtocolCfg → Packet → ReqBuf → Addr → ℕ → ℕ → Exec Reassembler Unit
accept cfg pkt buf addr datagram_len now = do
  f ← lift (parse_frag pkt.payload)
  let buf' : ReqBuf = received buf f addr datagram_len now
  modify (λ s. record s { reqs = put pkt.req_id buf' s.reqs })
  if nat_eqb (length buf'.chunks) f.total
      then complete pkt.req_id buf' f.total
      else arm_timer cfg pkt.req_id buf'

unfoldable pub on_frag : ProtocolCfg → Packet → Addr → ℕ → ℕ → Exec Reassembler Unit
on_frag cfg pkt addr datagram_len now s = elim (get pkt.req_id s.reqs) [
  | none ↦ (ok tt, s)
  | some buf ↦
      if pkt.node_id == buf.node_id then accept cfg pkt buf addr datagram_len now s else (ok tt, s)
]
