-- ===== src/Scheduler/Lost.antt =====
-- The end of a request whose ASSIGNs all went unacknowledged, orchestrator/scheduler.py.
use split_inference.Base.{
  ℕ, ◌-◌, ◌≡◌, refl, ap, ◌∙◌, Bool, true, false, Option, none, some, [], ◌∷◌, ◌++◌, if◌then◌else◌,
  nat_eq, string_eq, pair_eq, ok,
}
use split_inference.Base.Dict.{get, put, remove, get-put_self, get-remove_self}
use split_inference.Config.Types.{Config}
use split_inference.Reassembly.State.{Reassembler, ReqBuf, cancelled, cancel_timer, is_done}
use split_inference.Reassembly.Receive.{abort, abort_buf, notify, fail_unless_done}
use split_inference.Registry.Table.{NodeState, never, mark_lost}
use split_inference.Scheduler.World.{Task, World, lost, set_in_flight}
use split_inference.Scheduler.Handle.{
  on_reassembler, lose_node, release, log_request, finish, cancel, row_of, give_up,
}

quiet_abort :
    (req_id : ℕ) (s : Reassembler) (buf : ReqBuf)
    → get req_id s.reqs ≡ some buf
    → is_done (get buf.future s.futures) ≡ true
    → abort req_id false s
      ≡ (ok tt, cancel_timer buf.timer (record s { reqs = remove req_id s.reqs }))
unfolding abort abort_buf notify fail_unless_done cancel_timer
quiet_abort req_id s buf known done = rw (known, abort) (split buf.timer)
  where
    split :
        (o : Option ℕ)
        → (let u = cancel_timer o (record s { reqs = remove req_id s.reqs }) in
            fail_unless_done buf u ≡ (ok tt, u))
    split none = rw (done, fail_unless_done) refl
    split (some t) = rw (done, fail_unless_done) refl

pub cancelled_done : (f : ℕ) (s : Reassembler) → is_done (get f (cancel f s).1.futures) ≡ true
unfolding cancel
cancelled_done f s = split (is_done (get f s.futures)) refl
  where
    split :
        (b : Bool)
        → is_done (get f s.futures) ≡ b
        → is_done
            (get f (if b then s else record s { futures = put f cancelled s.futures }).futures)
          ≡ true
    split true e = e
    split false e = rw (get-put_self f cancelled s.futures) refl

pub reqs-cancel : (f : ℕ) (s : Reassembler) → (cancel f s).1.reqs ≡ s.reqs
unfolding cancel
reqs-cancel f s = split (is_done (get f s.futures))
  where
    split :
        (b : Bool)
        → (if b then s else record s { futures = put f cancelled s.futures }).reqs ≡ s.reqs
    split true = refl
    split false = refl

pub reqs-cancel_timer : (o : Option ℕ) (s : Reassembler) → (cancel_timer o s).reqs ≡ s.reqs
unfolding cancel_timer
reqs-cancel_timer none s = refl
reqs-cancel_timer (some t) s = refl

abbrev pub gave_up : NodeState → NodeState
gave_up st = record st { last_hb = never; was_lost = true; in_flight = st.in_flight - 1 }

abbrev abandoned : Config → ℕ → Task → NodeState → ReqBuf → World → World
abandoned cfg now t st buf w =
    let s = (cancel t.tensor_fut w.reassembler).1 in
    log_request (row_of t lost) (
      release cfg now t.node_id (record w {
        nodes = put t.node_id (record st { last_hb = never; was_lost = true }) w.nodes;
        reassembler = cancel_timer buf.timer (record s { reqs = remove t.req_id s.reqs });
      }))

module _ (cfg : Config) (now : ℕ) (t : Task) (w : World) (st : NodeState) (buf : ReqBuf)
    (known : get t.node_id w.nodes ≡ some st) (held : get t.req_id w.reassembler.reqs ≡ some buf)
    (own : buf.future ≡ t.tensor_fut) where
  give_up_abandons : give_up cfg now t w ≡ abandoned cfg now t st buf w
  unfolding give_up on_reassembler lose_node finish mark_lost cancel log_request
  give_up_abandons =
      rw
        (
          known,
          quiet_abort t.req_id (cancel t.tensor_fut w.reassembler).1 buf
              (ap (get t.req_id) (reqs-cancel t.tensor_fut w.reassembler) ∙ held)
              (ap (λ f. is_done (get f (cancel t.tensor_fut w.reassembler).1.futures)) own
                ∙ cancelled_done t.tensor_fut w.reassembler),
        )
        refl

  -- When the ASSIGNs of a request all went unacknowledged, its node being known and its buffer
  -- open with the future of the task, exactly one row, LOST, is logged, nothing is sent to a
  -- control address, the node is marked lost with one request less in flight, and the reassembler
  -- forgets the request.
  pub give_up_lem :
      (give_up cfg now t w).rows ≡ w.rows ++ row_of t lost ∷ []
      × (give_up cfg now t w).sent_ctrl ≡ w.sent_ctrl
      × get t.node_id (give_up cfg now t w).nodes ≡ some (gave_up st)
      × get t.req_id (give_up cfg now t w).reassembler.reqs ≡ none
  unfolding log_request release set_in_flight
  give_up_lem = rw (give_up_abandons) (refl, refl, node, gone)
    where
      node : get t.node_id (abandoned cfg now t st buf w).nodes ≡ some (gave_up st)
      node =
          rw
            (
              get-put_self t.node_id (record st { last_hb = never; was_lost = true }) w.nodes,
              set_in_flight,
            )
            (get-put_self t.node_id (gave_up st)
              (put t.node_id (record st { last_hb = never; was_lost = true }) w.nodes))

      gone : get t.req_id (abandoned cfg now t st buf w).reassembler.reqs ≡ none
      gone =
          rw (reqs-cancel_timer)
            (get-remove_self t.req_id (cancel t.tensor_fut w.reassembler).1.reqs)
