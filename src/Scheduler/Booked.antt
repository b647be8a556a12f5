-- ===== src/Scheduler/Booked.antt =====
-- What the parts of a `_handle` of orchestrator/scheduler.py do to its counts and its log.
use split_inference.Base.{
  ℕ, zero, suc, ◌+◌, ◌≡◌, refl, sym, ap, ◌∙◌, Bool, true, false, [], ◌∷◌, arith, nat_eq, string_eq,
  pair_eq, Result, ok, err,
}
use split_inference.Base.Exec.{Exec, ◌>>◌, continue_post}
use split_inference.Base.Dict.{get_or, put}
use split_inference.Wire.Kind
use split_inference.Wire.Packet.{pack}
use split_inference.Config.Types.{Config}
use split_inference.Reassembly.Receive.{abort}
use split_inference.Reassembly.State.{
  Reassembled, Future, pending, result, failed, cancelled, timeout,
}
use split_inference.Scheduler.World.{
  TailResult, Verdict, served, lost, unserved, assigning, receiving, inferring, Task, Row, World,
}
use split_inference.Scheduler.Handle.{
  on_reassembler, lose_node, send_packet, release, log_request, finish, cancel, row_of, give_up,
  assign_packet, drop_ack, offered, try_assign, ack_awaited, tensor_awaited, tensor_timeout,
  tail_failed, tail_awaited,
}
use split_inference.Scheduler.Load.{one_if}
use split_inference.Scheduler.Ledger.{
  if_served, served_rows, IsLedger, IsUnbooked, unbooked, IsLedger-IsUnbooked, drop-IsLedger,
  suspend-IsLedger, send_packet-IsUnbooked, lose_node-IsUnbooked, on_reassembler-IsUnbooked,
  release-IsUnbooked,
}
use split_inference.Scheduler.Counted.{count_up, rows-snoc, served-snoc, logged-snoc}

log_request-IsLedger :
    (row : Row) (w : World) → IsLedger (row.task ∷ []) w → IsLedger [] (log_request row w)
unfolding log_request
log_request-IsLedger row w l = record {
  ok_rows = λ n. counted row.status n ∙ sym (served-snoc n w.rows row);
  attempted = λ n. omega (arith, l.attempted n, rows-snoc n w.rows row);
  once = λ i. omega (arith, l.once i, logged-snoc i w.rows row);
}
  where
    counted :
        (v : Verdict) (n : ℕ)
        → get_or n 0 (elim v [
          | served ↦ put row.task.node_id (get_or row.task.node_id 0 w.ok_count + 1) w.ok_count
          | lost ↦ w.ok_count
          | unserved status ↦ w.ok_count
        ])
          ≡ if_served v (one_if n row.task.node_id) + served_rows n w.rows
    counted served n =
        count_up row.task.node_id n w.ok_count
        ∙ ap (λ k. one_if n row.task.node_id + k) (l.ok_rows n)
    counted lost n = l.ok_rows n ∙ omega arith
    counted (unserved status) n = l.ok_rows n ∙ omega arith

finish-IsLedger :
    (cfg : Config) (now : ℕ) (row : Row) (v : World) (m : Result (Unit {0}) × World)
    → IsLedger (row.task ∷ []) v
    → IsUnbooked v m.1
    → IsLedger [] (finish cfg now row m)
unfolding finish
finish-IsLedger cfg now row v (r, w) l k = split r
  where
    released : IsLedger (row.task ∷ []) (release cfg now row.task.node_id w)
    released =
        IsLedger-IsUnbooked (row.task ∷ []) v _ l
          (release-IsUnbooked cfg now row.task.node_id v w k)

    split : (q : Result (Unit {0})) → IsLedger [] (finish cfg now row (q, w))
    split (ok _) = log_request-IsLedger row (release cfg now row.task.node_id w) released
    split (err e) = drop-IsLedger row.task (release cfg now row.task.node_id w) released

-- One part of a method after another.
then-IsUnbooked :
    (v : World) (m f : Exec World Unit) (w : World)
    → IsUnbooked v (m w).1
    → ((u : World) → IsUnbooked v u → IsUnbooked v (f u).1)
    → IsUnbooked v ((m >> f) w).1
then-IsUnbooked v m f w k next =
    continue_post (IsUnbooked v) (m w).0 (λ _. f) (m w).1 k (λ a e. next (m w).1 k)

give_up-IsLedger :
    (cfg : Config) (now : ℕ) (t : Task) (w : World)
    → IsLedger (t ∷ []) w
    → IsLedger [] (give_up cfg now t w)
unfolding give_up
give_up-IsLedger cfg now t w l = finish-IsLedger cfg now (row_of t lost) w _ l (
    then-IsUnbooked w (on_reassembler (cancel t.tensor_fut) >> lose_node t.node_id)
      (on_reassembler (abort t.req_id false)) w
      (then-IsUnbooked w (on_reassembler (cancel t.tensor_fut)) (lose_node t.node_id) w
        (on_reassembler-IsUnbooked (cancel t.tensor_fut) w w (unbooked w))
        (λ u k. lose_node-IsUnbooked t.node_id w u k))
      (λ u k. on_reassembler-IsUnbooked (abort t.req_id false) w u k))

offered-IsLedger :
    (cfg : Config) (now : ℕ) (t : Task) (v : World) (m : Result (Unit {0}) × World)
    → IsLedger (t ∷ []) v
    → IsUnbooked v m.1
    → IsLedger [] (offered cfg now t m)
offered-IsLedger cfg now t v (ok _, w) l k =
    suspend-IsLedger t w (IsLedger-IsUnbooked (t ∷ []) v w l k)
offered-IsLedger cfg now t v (err e, w) l k =
    drop-IsLedger t (release cfg now t.node_id (drop_ack t w)) (
      IsLedger-IsUnbooked (t ∷ []) v _ l (
        release-IsUnbooked cfg now t.node_id v (drop_ack t w) (record {
          oks = k.oks;
          tries = k.tries;
          log = k.log;
          tasks = k.tasks;
          counter = k.counter;
        })))

-- Only the phase of a task has changed.
rephased :
    (t t' : Task) (w : World)
    → t'.node_id ≡ t.node_id
    → t'.req_id ≡ t.req_id
    → IsLedger (t ∷ []) w
    → IsLedger (t' ∷ []) w
rephased t t' w p q l = record {
  ok_rows = l.ok_rows;
  attempted = λ n. omega (arith, l.attempted n, ap (one_if n) p);
  once = λ i. omega (arith, l.once i, ap (one_if i) q);
}

pub try_assign-IsLedger :
    (cfg : Config) (now n : ℕ) (t : Task) (w : World)
    → IsLedger (t ∷ []) w
    → IsLedger [] (try_assign cfg now n t w)
unfolding try_assign
try_assign-IsLedger cfg now zero t w l = give_up-IsLedger cfg now t w l
try_assign-IsLedger cfg now (suc n) t w l =
    offered-IsLedger cfg now (record t { phase = assigning n }) w _
      (rephased t (record t { phase = assigning n }) w refl refl l)
      (send_packet-IsUnbooked t.node_id (assign_packet t) w _
        (record { oks = refl; tries = refl; log = refl; tasks = refl; counter = refl }))

pub ack_awaited-IsLedger :
    (cfg : Config) (now : ℕ) (acked : Bool) (n : ℕ) (t : Task) (w : World)
    → IsLedger (t ∷ []) w
    → IsLedger [] (ack_awaited cfg now acked n t w)
unfolding ack_awaited
ack_awaited-IsLedger cfg now acked n t w l = split acked
  where
    dropped : IsLedger (t ∷ []) (drop_ack t w)
    dropped = record { ok_rows = l.ok_rows; attempted = l.attempted; once = l.once }

    split : (b : Bool) → IsLedger [] (ack_awaited cfg now b n t w)
    split true =
        suspend-IsLedger (record t { phase = receiving }) (drop_ack t w)
          (rephased t (record t { phase = receiving }) (drop_ack t w) refl refl dropped)
    split false = try_assign-IsLedger cfg now n t (drop_ack t w) dropped

ended :
    (cfg : Config) (now : ℕ) (t : Task) (w : World)
    → IsLedger (t ∷ []) w
    → IsLedger [] (release cfg now t.node_id w)
ended cfg now t w l =
    drop-IsLedger t (release cfg now t.node_id w)
      (IsLedger-IsUnbooked (t ∷ []) w _ l (release-IsUnbooked cfg now t.node_id w w (unbooked w)))

pub tensor_awaited-IsLedger :
    (cfg : Config) (now : ℕ) (f : Future) (t : Task) (w : World)
    → IsLedger (t ∷ []) w
    → IsLedger [] (tensor_awaited cfg now f t w)
unfolding tensor_awaited
tensor_awaited-IsLedger cfg now (result res) t w l =
    suspend-IsLedger (record t { phase = inferring res }) w
      (rephased t (record t { phase = inferring res }) w refl refl l)
tensor_awaited-IsLedger cfg now (failed status buf) t w l =
    finish-IsLedger cfg now (row_of t (unserved status)) w (ok tt, w) l (unbooked w)
tensor_awaited-IsLedger cfg now cancelled t w l = ended cfg now t w l
tensor_awaited-IsLedger cfg now pending t w l = suspend-IsLedger t w l

pub tensor_timeout-IsLedger :
    (cfg : Config) (now : ℕ) (t : Task) (w : World)
    → IsLedger (t ∷ []) w
    → IsLedger [] (tensor_timeout cfg now t w)
unfolding tensor_timeout
tensor_timeout-IsLedger cfg now t w l =
    finish-IsLedger cfg now (row_of t (unserved timeout)) w _ l (
      then-IsUnbooked w
        (on_reassembler (cancel t.tensor_fut) >> on_reassembler (abort t.req_id true))
        (send_packet t.node_id (pack Kind.abort t.node_id t.req_id [])) w
        (then-IsUnbooked w (on_reassembler (cancel t.tensor_fut))
          (on_reassembler (abort t.req_id true)) w
          (on_reassembler-IsUnbooked (cancel t.tensor_fut) w w (unbooked w))
          (λ u k. on_reassembler-IsUnbooked (abort t.req_id true) w u k))
        (λ u k. send_packet-IsUnbooked t.node_id (pack Kind.abort t.node_id t.req_id []) w u k))

pub tail_failed-IsLedger :
    (cfg : Config) (now : ℕ) (t : Task) (w : World)
    → IsLedger (t ∷ []) w
    → IsLedger [] (tail_failed cfg now t w)
unfolding tail_failed
tail_failed-IsLedger cfg now t w l = ended cfg now t w l

pub tail_awaited-IsLedger :
    (cfg : Config) (now : ℕ) (res : Reassembled) (tail_res : TailResult) (t : Task) (w : World)
    → IsLedger (t ∷ []) w
    → IsLedger [] (tail_awaited cfg now res tail_res t w)
unfolding tail_awaited
tail_awaited-IsLedger cfg now res tail_res t w l =
    finish-IsLedger cfg now _ w _ l (send_packet-IsUnbooked t.node_id _ w w (unbooked w))
