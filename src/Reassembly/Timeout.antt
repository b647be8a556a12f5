-- ===== src/Reassembly/Timeout.antt =====
-- The timer of a request, `_on_timer` and `abort` of orchestrator/reassembly.py.
use split_inference.Base.{
  ℕ, suc, ◌+◌, ◌≤◌, ◌<◌, ◌≡◌, refl, sym, ap, ◌∙◌, subst, true, Option, none, some, [], ◌∷◌, ◌++◌,
  arith, leb, nat_eq, string_eq, pair_eq, Result, ok, length,
}
use split_inference.Base.Dict.{get, put, remove, get-put_self, get-remove_self}
use split_inference.Wire.Kind
use split_inference.Wire.Struct.{Bytes}
use split_inference.Wire.Packet.{pack, unpack}
use split_inference.Wire.Packet.Laws.{unpack-pack, pack_total}
use split_inference.Wire.Nack.RoundTrip.{IsNack}
use split_inference.Config.Types.{ProtocolCfg}
use split_inference.Reassembly.State.{
  Addr, ReqBuf, pending, failed, timeout, Reassembler, cancel_timer, settle, send,
}
use split_inference.Reassembly.Receive.{
  notify, fail_unless_done, abort_buf, abort, missing, on_timer,
}
use split_inference.Reassembly.Steps.{reqs-cancel_timer, futures-cancel_timer, sent-cancel_timer}

-- A round of the selective repeat: one NACK to the device, which names the missing fragments.
pub record IsNackRound (req_id : ℕ) (buf : ReqBuf) (a : Addr) (n : ℕ) (s : Reassembler)
    (r : Result (Unit {0}) × Reassembler) : Type 0 where
  pub nack : Bytes
  pub asks : IsNack buf.node_id req_id (missing n buf.chunks) n nack
  pub returns : r.0 ≡ ok tt
  pub sent : r.1.sent ≡ s.sent ++ (a, nack) ∷ []
  pub handle : ℕ
  pub stored :
      get req_id r.1.reqs
      ≡ some (record buf {
        bytes_on_air = buf.bytes_on_air + length nack;
        nack_rounds = suc buf.nack_rounds;
        timer = some handle;
      })
  pub futures : r.1.futures ≡ s.futures

-- The end of a request that was given up: one ABORT, and a future that failed by TIMEOUT.
pub record IsAborted (req_id : ℕ) (buf : ReqBuf) (a : Addr) (s : Reassembler)
    (r : Result (Unit {0}) × Reassembler) : Type 0 where
  pub datagram : Bytes
  pub unpacks :
      unpack datagram
      ≡ ok (record { ptype = Kind.abort; node_id = buf.node_id; req_id = req_id; payload = [] })
  pub returns : r.0 ≡ ok tt
  pub sent : r.1.sent ≡ s.sent ++ (a, datagram) ∷ []
  pub forgotten : get req_id r.1.reqs ≡ none
  pub future : get buf.future r.1.futures ≡ some (failed timeout buf)

notify-some :
    (o : Option Addr) (a : Addr) (d : Bytes) → o ≡ some a → notify true o (ok d) ≡ send a d
unfolding notify
notify-some o a d h = rw (h, notify)

module _ (cfg : ProtocolCfg) (req_id : ℕ) (s : Reassembler) (buf : ReqBuf) (a : Addr)
    (addr : buf.addr ≡ some a) where
  abbrev counted : Bytes → ReqBuf
  counted nack = record buf {
    bytes_on_air = buf.bytes_on_air + length nack;
    nack_rounds = suc buf.nack_rounds;
  }

  abbrev forgotten : Reassembler
  forgotten = cancel_timer buf.timer (record s { reqs = remove req_id s.reqs })

  abort_lem :
      (d : Bytes)
      → get req_id s.reqs ≡ some buf
      → pack Kind.abort buf.node_id req_id [] ≡ ok d
      → get buf.future s.futures ≡ some pending
      → abort req_id true s ≡ (
        ok tt,
        record forgotten {
          sent = forgotten.sent ++ (a, d) ∷ [];
          futures = put buf.future (failed timeout buf) forgotten.futures;
        },
      )
  unfolding abort abort_buf send fail_unless_done settle
  abort_lem d known packed pends =
      let waits : get buf.future forgotten.futures ≡ some pending =
        ap (get buf.future)
          (futures-cancel_timer buf.timer (record s { reqs = remove req_id s.reqs }))
        ∙ pends in
      rw (known, abort, packed, notify-some buf.addr a d addr, waits)

module _ (cfg : ProtocolCfg) (req_id : ℕ) (s : Reassembler) (buf : ReqBuf)
    (known : get req_id s.reqs ≡ some buf)
    (open_request : get buf.future s.futures ≡ some pending) where
  on_timer-abort :
      leb cfg.max_nack_rounds buf.nack_rounds ≡ true → on_timer cfg req_id s ≡ abort req_id true s
  unfolding on_timer
  on_timer-abort none_left = rw (known, on_timer, open_request, none_left)

  -- The timer of an open request without rounds left and with a known address sends, if the
  -- identifiers fit their fields, one ABORT, forgets the request and fails its future with
  -- TIMEOUT.
  pub on_timer_aborts :
      (a : Addr)
      → cfg.max_nack_rounds ≤ buf.nack_rounds
      → buf.addr ≡ some a
      → buf.node_id < 65536
      → req_id < 4294967296
      → IsAborted req_id buf a s (on_timer cfg req_id s)
  on_timer_aborts a over addr hn hr =
      let (d, packed) = pack_total Kind.abort buf.node_id req_id [] (omega arith) hn hr in
      let popped : Reassembler = record s { reqs = remove req_id s.reqs } in
      subst (IsAborted req_id buf a s)
        (sym (
          on_timer-abort (ground arith)
          ∙ abort_lem cfg req_id s buf a addr d known packed open_request))
        (record {
          datagram = d;
          unpacks = unpack-pack Kind.abort buf.node_id req_id [] d packed;
          returns = refl;
          sent = ap (λ t. t ++ (a, d) ∷ []) (sent-cancel_timer buf.timer popped);
          forgotten =
              ap (get req_id) (reqs-cancel_timer buf.timer popped) ∙ get-remove_self req_id s.reqs;
          future =
              get-put_self buf.future (failed timeout buf) (cancel_timer buf.timer popped).futures;
        })
