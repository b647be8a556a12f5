-- ===== src/Scheduler/Lighter.antt =====
-- What the resumptions of `_handle` of orchestrator/scheduler.py do to the requests in flight.
use split_inference.Base.{
  ℕ, zero, suc, ◌≡◌, refl, subst, Bool, true, false, Option, none, some, [], arith, nat_eq,
  string_eq, pair_eq, key_error, Result, ok, err, or_raise, bind-ok, ok-injective, or_raise-ok,
}
use split_inference.Base.Exec.{Exec, ◌>>◌, continue_post}
use split_inference.Base.Dict.{get, put}
use split_inference.Wire.Kind
use split_inference.Wire.Struct.{Bytes}
use split_inference.Wire.Packet.{pack}
use split_inference.Config.Types.{Config}
use split_inference.Reassembly.State.{
  Addr, Reassembled, Reassembler, Future, pending, result, failed, cancelled, timeout,
}
use split_inference.Reassembly.Receive.{abort}
use split_inference.Registry.Table.{Nodes, never, mark_lost}
use split_inference.Scheduler.World.{
  TailResult, lost, unserved, assigning, Task, Row, World, send_ctrl, ctrl_addr,
}
use split_inference.Scheduler.Handle.{
  on_reassembler, keep_nodes, lose_node, send_packet, release, log_request, finish, cancel, row_of,
  give_up, assign_packet, drop_ack, offered, try_assign, ack_awaited, tensor_awaited,
  tensor_timeout, tail_failed, tail_awaited,
}
use split_inference.Scheduler.Flights.{Shrinks, Shrinks-trans, put-Shrinks, set_in_flight-Shrinks}

abbrev pub Lighter : World → World → Type 0
Lighter v w = Shrinks v.nodes w.nodes

release-Lighter :
    (cfg : Config) (now m : ℕ) (v w : World) → Lighter v w → Lighter v (release cfg now m w)
unfolding release
release-Lighter cfg now m v w s = Shrinks-trans s (set_in_flight-Shrinks m w.nodes)

send_packet-Lighter :
    (m : ℕ) (r : Result Bytes) (v w : World) → Lighter v w → Lighter v (send_packet m r w).1
unfolding send_packet
send_packet-Lighter m (err e) v w s = s
send_packet-Lighter m (ok d) v w s = to (ctrl_addr m w)
  where
    to : (a : Option Addr) → Lighter v (send_ctrl a d w)
    to none = s
    to (some a) = s

mark_lost-Shrinks :
    (m : ℕ) (nodes nodes' : Nodes) → mark_lost m nodes ≡ ok nodes' → Shrinks nodes nodes'
unfolding mark_lost
mark_lost-Shrinks m nodes nodes' h =
    let (old, known, last) = bind-ok (or_raise key_error (get m nodes)) _ h in
    subst (Shrinks nodes) (ok-injective last) (
      put-Shrinks m old (record old { last_hb = never; was_lost = true }) nodes
        (or_raise-ok key_error (get m nodes) known) (omega arith) refl)

lose_node-Lighter : (m : ℕ) (v w : World) → Lighter v w → Lighter v (lose_node m w).1
unfolding lose_node
lose_node-Lighter m v w s = split (mark_lost m w.nodes) refl
  where
    split : (r : Result Nodes) → mark_lost m w.nodes ≡ r → Lighter v (keep_nodes r w).1
    split (err e) h = s
    split (ok nodes) h = Shrinks-trans s (mark_lost-Shrinks m w.nodes nodes h)

on_reassembler-Lighter :
    {A : Type 0} (m : Exec Reassembler A) (v w : World)
    → Lighter v w
    → Lighter v (on_reassembler m w).1
unfolding on_reassembler
on_reassembler-Lighter m v w s = s

finish-Lighter :
    (cfg : Config) (now : ℕ) (row : Row) (v : World) (m : Result (Unit {0}) × World)
    → Lighter v m.1
    → Lighter v (finish cfg now row m)
unfolding finish log_request
finish-Lighter cfg now row v (ok _, w) s = release-Lighter cfg now row.task.node_id v w s
finish-Lighter cfg now row v (err e, w) s = release-Lighter cfg now row.task.node_id v w s

give_up-Lighter :
    (cfg : Config) (now : ℕ) (t : Task) (v w : World)
    → Lighter v w
    → Lighter v (give_up cfg now t w)
unfolding give_up
give_up-Lighter cfg now t v w s =
    let cancelled_w = on_reassembler (cancel t.tensor_fut) w in
    let lost_w = (on_reassembler (cancel t.tensor_fut) >> lose_node t.node_id) w in
    let first = on_reassembler-Lighter (cancel t.tensor_fut) v w s in
    let second =
      continue_post (Lighter v) cancelled_w.0 (λ _. lose_node t.node_id) cancelled_w.1 first
        (λ _ _. lose_node-Lighter t.node_id v cancelled_w.1 first) in
    finish-Lighter cfg now (row_of t lost) v _ (
      continue_post (Lighter v) lost_w.0 (λ _. on_reassembler (abort t.req_id false)) lost_w.1
        second (λ _ _. on_reassembler-Lighter (abort t.req_id false) v lost_w.1 second))

offered-Lighter :
    (cfg : Config) (now : ℕ) (t : Task) (v : World) (m : Result (Unit {0}) × World)
    → Lighter v m.1
    → Lighter v (offered cfg now t m)
offered-Lighter cfg now t v (ok _, w) s = s
offered-Lighter cfg now t v (err e, w) s = release-Lighter cfg now t.node_id v (drop_ack t w) s

pub try_assign-Lighter :
    (cfg : Config) (now n : ℕ) (t : Task) (v w : World)
    → Lighter v w
    → Lighter v (try_assign cfg now n t w)
unfolding try_assign
try_assign-Lighter cfg now zero t v w s = give_up-Lighter cfg now t v w s
try_assign-Lighter cfg now (suc n) t v w s =
    offered-Lighter cfg now (record t { phase = assigning n }) v _
      (send_packet-Lighter t.node_id (assign_packet t) v
        (record w { acks = put (t.node_id, t.req_id) false w.acks }) s)

pub ack_awaited-Lighter :
    (cfg : Config) (now : ℕ) (acked : Bool) (n : ℕ) (t : Task) (v w : World)
    → Lighter v w
    → Lighter v (ack_awaited cfg now acked n t w)
unfolding ack_awaited
ack_awaited-Lighter cfg now true n t v w s = s
ack_awaited-Lighter cfg now false n t v w s = try_assign-Lighter cfg now n t v (drop_ack t w) s

pub tensor_awaited-Lighter :
    (cfg : Config) (now : ℕ) (f : Future) (t : Task) (v w : World)
    → Lighter v w
    → Lighter v (tensor_awaited cfg now f t w)
unfolding tensor_awaited
tensor_awaited-Lighter cfg now (result res) t v w s = s
tensor_awaited-Lighter cfg now (failed status buf) t v w s =
    finish-Lighter cfg now (row_of t (unserved status)) v (ok tt, w) s
tensor_awaited-Lighter cfg now cancelled t v w s = release-Lighter cfg now t.node_id v w s
tensor_awaited-Lighter cfg now pending t v w s = s

pub tensor_timeout-Lighter :
    (cfg : Config) (now : ℕ) (t : Task) (v w : World)
    → Lighter v w
    → Lighter v (tensor_timeout cfg now t w)
unfolding tensor_timeout
tensor_timeout-Lighter cfg now t v w s =
    let cancelled_w = on_reassembler (cancel t.tensor_fut) w in
    let aborted_w =
      (on_reassembler (cancel t.tensor_fut) >> on_reassembler (abort t.req_id true)) w in
    let first = on_reassembler-Lighter (cancel t.tensor_fut) v w s in
    let second =
      continue_post (Lighter v) cancelled_w.0 (λ _. on_reassembler (abort t.req_id true))
        cancelled_w.1 first
        (λ _ _. on_reassembler-Lighter (abort t.req_id true) v cancelled_w.1 first) in
    finish-Lighter cfg now (row_of t (unserved timeout)) v _ (
      continue_post (Lighter v) aborted_w.0
        (λ _. send_packet t.node_id (pack Kind.abort t.node_id t.req_id [])) aborted_w.1 second
        (λ _ _.
          send_packet-Lighter t.node_id (pack Kind.abort t.node_id t.req_id []) v aborted_w.1
            second))

pub tail_failed-Lighter :
    (cfg : Config) (now : ℕ) (t : Task) (v w : World)
    → Lighter v w
    → Lighter v (tail_failed cfg now t w)
unfolding tail_failed
tail_failed-Lighter cfg now t v w s = release-Lighter cfg now t.node_id v w s

pub tail_awaited-Lighter :
    (cfg : Config) (now : ℕ) (res : Reassembled) (tail_res : TailResult) (t : Task) (v w : World)
    → Lighter v w
    → Lighter v (tail_awaited cfg now res tail_res t w)
unfolding tail_awaited
tail_awaited-Lighter cfg now res tail_res t v w s =
    finish-Lighter cfg now _ v _ (send_packet-Lighter t.node_id _ v w s)
