-- ===== src/Scheduler/Segments.antt =====
-- What the parts of a `_handle` of orchestrator/scheduler.py, from one await to the next, do to the
-- load of its node.
use split_inference.Base.{
  ℕ, zero, suc, ◌≡◌, refl, sym, subst, Bool, true, false, [], nat_eq, string_eq, pair_eq, Result,
  ok, err,
}
use split_inference.Base.Exec.{Exec, ◌>>◌, continue}
use split_inference.Wire.Kind
use split_inference.Wire.Packet.{pack}
use split_inference.Config.Types.{Config}
use split_inference.Reassembly.Receive.{abort}
use split_inference.Reassembly.State.{
  Reassembled, Future, pending, result, failed, cancelled, timeout,
}
use split_inference.Scheduler.World.{
  TailResult, lost, unserved, assigning, receiving, inferring, Task, Row, World,
}
use split_inference.Scheduler.Handle.{
  on_reassembler, lose_node, send_packet, release, finish, suspend, cancel, row_of, give_up,
  assign_packet, drop_ack, offered, try_assign, ack_awaited, tensor_awaited, tensor_timeout,
  tail_failed, tail_awaited,
}
use split_inference.Scheduler.Load.{
  one_if, Balanced, Keeps, Balanced-Keeps, Keeps-refl, on_reassembler-Keeps, send_packet-Keeps,
  log_request-Keeps, release-Balanced, suspend-Balanced, lose_node-Keeps,
}

finish-Balanced :
    (cfg : Config) (now : ℕ) (row : Row) (v w : World) (r : Result (Unit {0}))
    → Balanced (λ n. one_if n row.task.node_id) v
    → Keeps v w
    → Balanced (λ n. 0) (finish cfg now row (r, w))
unfolding finish
finish-Balanced cfg now row v w (ok _) b k =
    let released = release-Balanced cfg now row.task.node_id w (Balanced-Keeps _ v w b k) in
    Balanced-Keeps _ _ _ released (log_request-Keeps row (release cfg now row.task.node_id w))
finish-Balanced cfg now row v w (err e) b k =
    release-Balanced cfg now row.task.node_id w (Balanced-Keeps _ v w b k)

suspend_phase :
    (t t' : Task) (w v : World)
    → t'.node_id ≡ t.node_id
    → Balanced (λ n. one_if n t.node_id) v
    → Keeps v w
    → Balanced (λ n. 0) (suspend t' w)
suspend_phase t t' w v same b k =
    suspend-Balanced t' w
      (subst (λ m. Balanced (λ n. one_if n m) w) (sym same) (Balanced-Keeps _ v w b k))

continue-Keeps :
    {A : Type 0} (v : World) (m : Result A × World) (f : A → Exec World Unit)
    → Keeps v m.1
    → ((a : A) (w : World) → Keeps v w → Keeps v (f a w).1)
    → Keeps v (continue m.0 f m.1).1
continue-Keeps v (ok a, w) f k h = h a w k
continue-Keeps v (err e, w) f k h = k

finish_pair :
    (cfg : Config) (now : ℕ) (row : Row) (v : World) (m : Result (Unit {0}) × World)
    → Balanced (λ n. one_if n row.task.node_id) v
    → Keeps v m.1
    → Balanced (λ n. 0) (finish cfg now row m)
finish_pair cfg now row v (r, w) b k = finish-Balanced cfg now row v w r b k

give_up-Balanced :
    (cfg : Config) (now : ℕ) (t : Task) (w : World)
    → Balanced (λ n. one_if n t.node_id) w
    → Balanced (λ n. 0) (give_up cfg now t w)
unfolding give_up
give_up-Balanced cfg now t w b = finish_pair cfg now (row_of t lost) w _ b (
    continue-Keeps w ((on_reassembler (cancel t.tensor_fut) >> lose_node t.node_id) w)
      (λ _. on_reassembler (abort t.req_id false))
      (continue-Keeps w (on_reassembler (cancel t.tensor_fut) w) (λ _. lose_node t.node_id)
        (on_reassembler-Keeps (cancel t.tensor_fut) w w (Keeps-refl w))
        (λ _ u k. lose_node-Keeps t.node_id w u k))
      (λ _ u k. on_reassembler-Keeps (abort t.req_id false) w u k))

offered-Balanced :
    (cfg : Config) (now : ℕ) (t : Task) (v : World) (m : Result (Unit {0}) × World)
    → Balanced (λ n. one_if n t.node_id) v
    → Keeps v m.1
    → Balanced (λ n. 0) (offered cfg now t m)
offered-Balanced cfg now t v (ok _, w) b k = suspend-Balanced t w (Balanced-Keeps _ v w b k)
offered-Balanced cfg now t v (err e, w) b k =
    release-Balanced cfg now t.node_id (drop_ack t w)
      (Balanced-Keeps _ v (drop_ack t w) b (record { flights = k.flights; loads = k.loads }))

pub try_assign-Balanced :
    (cfg : Config) (now n : ℕ) (t : Task) (w : World)
    → Balanced (λ n. one_if n t.node_id) w
    → Balanced (λ n. 0) (try_assign cfg now n t w)
unfolding try_assign
try_assign-Balanced cfg now zero t w b = give_up-Balanced cfg now t w b
try_assign-Balanced cfg now (suc n) t w b =
    offered-Balanced cfg now (record t { phase = assigning n }) w _ b
      (send_packet-Keeps t.node_id (assign_packet t) w _
        (record { flights = λ n st h. (st, h, refl); loads = λ n. refl }))

pub ack_awaited-Balanced :
    (cfg : Config) (now : ℕ) (acked : Bool) (n : ℕ) (t : Task) (w : World)
    → Balanced (λ n. one_if n t.node_id) w
    → Balanced (λ n. 0) (ack_awaited cfg now acked n t w)
unfolding ack_awaited
ack_awaited-Balanced cfg now true n t w b =
    suspend-Balanced (record t { phase = receiving }) (drop_ack t w)
      (Balanced-Keeps _ w (drop_ack t w) b
        (record { flights = λ n st h. (st, h, refl); loads = λ n. refl }))
ack_awaited-Balanced cfg now false n t w b = try_assign-Balanced cfg now n t (drop_ack t w) (
    Balanced-Keeps _ w (drop_ack t w) b
      (record { flights = λ n st h. (st, h, refl); loads = λ n. refl }))

pub tensor_awaited-Balanced :
    (cfg : Config) (now : ℕ) (f : Future) (t : Task) (w : World)
    → Balanced (λ n. one_if n t.node_id) w
    → Balanced (λ n. 0) (tensor_awaited cfg now f t w)
unfolding tensor_awaited
tensor_awaited-Balanced cfg now (result res) t w b =
    suspend-Balanced (record t { phase = inferring res }) w b
tensor_awaited-Balanced cfg now (failed status buf) t w b =
    finish-Balanced cfg now (row_of t (unserved status)) w w (ok tt) b (Keeps-refl w)
tensor_awaited-Balanced cfg now cancelled t w b = release-Balanced cfg now t.node_id w b
tensor_awaited-Balanced cfg now pending t w b = suspend-Balanced t w b

pub tensor_timeout-Balanced :
    (cfg : Config) (now : ℕ) (t : Task) (w : World)
    → Balanced (λ n. one_if n t.node_id) w
    → Balanced (λ n. 0) (tensor_timeout cfg now t w)
unfolding tensor_timeout
tensor_timeout-Balanced cfg now t w b = finish_pair cfg now (row_of t (unserved timeout)) w _ b (
    continue-Keeps w
      ((on_reassembler (cancel t.tensor_fut) >> on_reassembler (abort t.req_id true)) w)
      (λ _. send_packet t.node_id (pack Kind.abort t.node_id t.req_id []))
      (continue-Keeps w (on_reassembler (cancel t.tensor_fut) w)
        (λ _. on_reassembler (abort t.req_id true))
        (on_reassembler-Keeps (cancel t.tensor_fut) w w (Keeps-refl w))
        (λ _ u k. on_reassembler-Keeps (abort t.req_id true) w u k))
      (λ _ u k. send_packet-Keeps t.node_id (pack Kind.abort t.node_id t.req_id []) w u k))

pub tail_failed-Balanced :
    (cfg : Config) (now : ℕ) (t : Task) (w : World)
    → Balanced (λ n. one_if n t.node_id) w
    → Balanced (λ n. 0) (tail_failed cfg now t w)
unfolding tail_failed
tail_failed-Balanced cfg now t w b = release-Balanced cfg now t.node_id w b

pub tail_awaited-Balanced :
    (cfg : Config) (now : ℕ) (res : Reassembled) (tail_res : TailResult) (t : Task) (w : World)
    → Balanced (λ n. one_if n t.node_id) w
    → Balanced (λ n. 0) (tail_awaited cfg now res tail_res t w)
unfolding tail_awaited
tail_awaited-Balanced cfg now res tail_res t w b =
    finish_pair cfg now _ w _ b (send_packet-Keeps t.node_id _ w w (Keeps-refl w))
