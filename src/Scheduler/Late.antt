-- ===== src/Scheduler/Late.antt =====
-- The end of a request whose tensor did not come within t_max_ms, orchestrator/scheduler.py.
use split_inference.Base.{
  ℕ, ◌-◌, ◌≡◌, refl, ap, ◌∙◌, Bool, true, false, Option, none, some, [], ◌∷◌, ◌++◌, if◌then◌else◌,
  nat_eq, string_eq, pair_eq, ok,
}
use split_inference.Base.Dict.{get, put, remove, get-put_self, get-remove_self}
use split_inference.Wire.Kind
use split_inference.Wire.Struct.{Bytes}
use split_inference.Wire.Packet.{pack}
use split_inference.Config.Types.{Config}
use split_inference.Reassembly.State.{
  timeout, Addr, Reassembler, ReqBuf, cancelled, cancel_timer, is_done, send,
}
use split_inference.Reassembly.Receive.{abort, abort_buf, notify, fail_unless_done}
use split_inference.Registry.Table.{NodeState}
use split_inference.Scheduler.World.{Task, World, unserved, set_in_flight, send_ctrl}
use split_inference.Scheduler.Handle.{
  on_reassembler, release, log_request, finish, cancel, row_of, send_packet, tensor_timeout,
}
use split_inference.Scheduler.Lost.{cancelled_done, reqs-cancel, reqs-cancel_timer}

sent-cancel : (f : ℕ) (s : Reassembler) → (cancel f s).1.sent ≡ s.sent
unfolding cancel
sent-cancel f s = split (is_done (get f s.futures))
  where
    split :
        (b : Bool)
        → (if b then s else record s { futures = put f cancelled s.futures }).sent ≡ s.sent
    split true = refl
    split false = refl

sent-cancel_timer : (o : Option ℕ) (s : Reassembler) → (cancel_timer o s).sent ≡ s.sent
unfolding cancel_timer
sent-cancel_timer none s = refl
sent-cancel_timer (some t) s = refl

abbrev forgotten : ℕ → ReqBuf → Addr → Bytes → Reassembler → Reassembler
forgotten req_id buf a d s =
    let u = cancel_timer buf.timer (record s { reqs = remove req_id s.reqs }) in
    record u { sent = u.sent ++ (a, d) ∷ [] }

notify-some :
    (o : Option Addr) (a : Addr) (d : Bytes) → o ≡ some a → notify true o (ok d) ≡ send a d
unfolding notify send
notify-some o a d e = rw (e) refl

send_packet-known :
    (n : ℕ) (st : NodeState) (c : Addr) (d : Bytes) (w : World)
    → get n w.nodes ≡ some st
    → st.ctrl_addr ≡ some c
    → send_packet n (ok d) w ≡ (ok tt, record w { sent_ctrl = w.sent_ctrl ++ (c, d) ∷ [] })
unfolding send_packet
send_packet-known n st c d w known reachable =
    ap (λ o. (ok tt, send_ctrl o d w))
      (ap (λ o. elim o [ none ↦ none | some st ↦ st.ctrl_addr ]) known ∙ reachable)

loud_abort :
    (req_id : ℕ) (s : Reassembler) (buf : ReqBuf) (a : Addr) (d : Bytes)
    → get req_id s.reqs ≡ some buf
    → buf.addr ≡ some a
    → pack Kind.abort buf.node_id req_id [] ≡ ok d
    → is_done (get buf.future s.futures) ≡ true
    → abort req_id true s ≡ (ok tt, forgotten req_id buf a d s)
unfolding abort abort_buf notify fail_unless_done cancel_timer send
loud_abort req_id s buf a d known addr packed done =
    rw (known, abort, packed, notify-some buf.addr a d addr) (split buf.timer)
  where
    split :
        (o : Option ℕ)
        → (let u = cancel_timer o (record s { reqs = remove req_id s.reqs }) in
            let v : Reassembler = record u { sent = u.sent ++ (a, d) ∷ [] } in
            fail_unless_done buf v ≡ (ok tt, v))
    split none = rw (done, fail_unless_done) refl
    split (some t) = rw (done, fail_unless_done) refl

abbrev timed_out : Config → ℕ → Task → ReqBuf → Addr → Addr → Bytes → World → World
timed_out cfg now t buf a c d w = log_request (row_of t (unserved timeout)) (
    release cfg now t.node_id (record w {
      reassembler = forgotten t.req_id buf a d (cancel t.tensor_fut w.reassembler).1;
      sent_ctrl = w.sent_ctrl ++ (c, d) ∷ [];
    }))

module _ (cfg : Config) (now : ℕ) (t : Task) (w : World) (st : NodeState) (buf : ReqBuf)
    (a c : Addr) (d : Bytes) (known : get t.node_id w.nodes ≡ some st)
    (reachable : st.ctrl_addr ≡ some c) (held : get t.req_id w.reassembler.reqs ≡ some buf)
    (own : buf.future ≡ t.tensor_fut) (same : buf.node_id ≡ t.node_id) (addr : buf.addr ≡ some a)
    (packed : pack Kind.abort t.node_id t.req_id [] ≡ ok d) where
  tensor_timeout_ends : tensor_timeout cfg now t w ≡ timed_out cfg now t buf a c d w
  unfolding tensor_timeout on_reassembler finish cancel log_request
  tensor_timeout_ends =
      rw
        (
          loud_abort t.req_id (cancel t.tensor_fut w.reassembler).1 buf a d
              (ap (get t.req_id) (reqs-cancel t.tensor_fut w.reassembler) ∙ held) addr
              (ap (λ n. pack Kind.abort n t.req_id []) same ∙ packed)
              (ap (λ f. is_done (get f (cancel t.tensor_fut w.reassembler).1.futures)) own
                ∙ cancelled_done t.tensor_fut w.reassembler),
          packed,
          send_packet-known t.node_id st c d
              (record w {
                reassembler = forgotten t.req_id buf a d (cancel t.tensor_fut w.reassembler).1;
              })
              known reachable,
        )
        refl

  -- When the tensor of a request did not come in time, its node having a control address, its
  -- buffer being open with the node and the future of the task and the address of the device, and
  -- the ABORT being packed, exactly one row, TIMEOUT, is logged, that ABORT is sent to the device
  -- from the control port and from the data port, the node has one request less in flight, and the
  -- reassembler forgets the request.
  pub tensor_timeout_lem :
      (tensor_timeout cfg now t w).rows ≡ w.rows ++ row_of t (unserved timeout) ∷ []
      × (tensor_timeout cfg now t w).sent_ctrl ≡ w.sent_ctrl ++ (c, d) ∷ []
      × (tensor_timeout cfg now t w).reassembler.sent ≡ w.reassembler.sent ++ (a, d) ∷ []
      × get t.node_id (tensor_timeout cfg now t w).nodes
        ≡ some (record st { in_flight = st.in_flight - 1 })
      × get t.req_id (tensor_timeout cfg now t w).reassembler.reqs ≡ none
  unfolding log_request release set_in_flight
  tensor_timeout_lem = rw (tensor_timeout_ends) (refl, refl, told, node, gone)
    where
      told : (timed_out cfg now t buf a c d w).reassembler.sent ≡ w.reassembler.sent ++ (a, d) ∷ []
      told = rw (sent-cancel_timer, sent-cancel) refl

      node :
          get t.node_id (timed_out cfg now t buf a c d w).nodes
          ≡ some (record st { in_flight = st.in_flight - 1 })
      node =
          rw (known, set_in_flight)
            (get-put_self t.node_id (record st { in_flight = st.in_flight - 1 }) w.nodes)

      gone : get t.req_id (timed_out cfg now t buf a c d w).reassembler.reqs ≡ none
      gone =
          rw (reqs-cancel_timer)
            (get-remove_self t.req_id (cancel t.tensor_fut w.reassembler).1.reqs)
