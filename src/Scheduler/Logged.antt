-- ===== src/Scheduler/Logged.antt =====
-- Every schedule of the tasks of orchestrator/scheduler.py: the counts agree with the log.
use split_inference.Base.{
  ℕ, ◌≡◌, refl, sym, ap, ◌∙◌, Bool, true, false, Option, none, some, List, [], ◌∷◌, arith, ltb,
  if◌then◌else◌, nat_eq, string_eq, pair_eq, Result, ok, err,
}
use split_inference.Base.Exec.{continue_post}
use split_inference.Base.Dict.{get, get_or, put}
use split_inference.Config.Types.{Config}
use split_inference.Registry.Table.{NodeState, ready}
use split_inference.Scheduler.World.{World, satisfied, on_assign_ack}
use split_inference.Scheduler.Handle.{tick, create_unless, offer_work, offer_all}
use split_inference.Scheduler.Flight.{
  Step, ticked, begun, assigned, received, expired, inferred, uninferred, acknowledged, heard,
  reassembled, Reach, here, next,
}
use split_inference.Scheduler.Ledger.{
  served_rows, IsLedger, IsUnbooked, unbooked, IsLedger-IsUnbooked, resume-IsLedger,
  on_reassembler-IsUnbooked,
}
use split_inference.Scheduler.Booked.{
  ack_awaited-IsLedger, tensor_awaited-IsLedger, tensor_timeout-IsLedger, tail_awaited-IsLedger,
  tail_failed-IsLedger,
}
use split_inference.Scheduler.Numbered.{begin-IsLedger}

offer_work-IsUnbooked :
    (now m : ℕ) (v w : World) → IsUnbooked v w → IsUnbooked v (offer_work now m w).1
unfolding offer_work
offer_work-IsUnbooked now m v w k = split (ltb now (get_or m 0 w.next_ok_time))
  where
    create : (r : Result Bool) → IsUnbooked v (create_unless m r w).1
    create (err e) = k
    create (ok true) = k
    create (ok false) = record {
      oks = k.oks;
      tries = k.tries;
      log = k.log;
      tasks = k.tasks;
      counter = k.counter;
    }

    split :
        (c : Bool) → IsUnbooked v (if c then (ok tt, w) else create_unless m (satisfied w m) w).1
    split true = k
    split false = create (satisfied w m)

offer_all-IsUnbooked :
    (now : ℕ) (sts : List NodeState) (v w : World)
    → IsUnbooked v w
    → IsUnbooked v (offer_all now sts w).1
unfolding offer_all
offer_all-IsUnbooked now [] v w k = k
offer_all-IsUnbooked now (st ∷ sts) v w k =
    continue_post (IsUnbooked v) (offer_work now st.node_id w).0 (λ _. offer_all now sts)
      (offer_work now st.node_id w).1 (offer_work-IsUnbooked now st.node_id v w k)
      (λ _ _.
        offer_all-IsUnbooked now sts v (offer_work now st.node_id w).1
          (offer_work-IsUnbooked now st.node_id v w k))

on_assign_ack-IsUnbooked :
    (node_id req_id : ℕ) (w : World) → IsUnbooked w (on_assign_ack node_id req_id w)
unfolding on_assign_ack
on_assign_ack-IsUnbooked node_id req_id w = split (get (node_id, req_id) w.acks)
  where
    split :
        (o : Option Bool)
        → IsUnbooked w (elim o [
          | some false ↦ record w { acks = put (node_id, req_id) true w.acks }
          | some true ↦ w
          | none ↦ w
        ])
    split none = unbooked w
    split (some true) = unbooked w
    split (some false) = record {
      oks = refl;
      tries = refl;
      log = refl;
      tasks = refl;
      counter = refl;
    }

step-IsLedger : (cfg : Config) (w w' : World) → Step cfg w w' → IsLedger [] w → IsLedger [] w'
unfolding tick
step-IsLedger cfg w w' (ticked now) l =
    IsLedger-IsUnbooked [] w _ l (offer_all-IsUnbooked now (ready cfg now w.nodes) w w (unbooked w))
step-IsLedger cfg w w' (begun now n before after e) l =
    begin-IsLedger cfg now n _
      (record { ok_rows = l.ok_rows; attempted = l.attempted; once = l.once })
step-IsLedger cfg w w' (assigned now t before after n e p acked q) l =
    ack_awaited-IsLedger cfg now acked n t _ (resume-IsLedger w t before after e l)
step-IsLedger cfg w w' (received now t before after f e p q) l =
    tensor_awaited-IsLedger cfg now f t _ (resume-IsLedger w t before after e l)
step-IsLedger cfg w w' (expired now t before after e p q) l =
    tensor_timeout-IsLedger cfg now t _ (resume-IsLedger w t before after e l)
step-IsLedger cfg w w' (inferred now t before after res tail_res e p) l =
    tail_awaited-IsLedger cfg now res tail_res t _ (resume-IsLedger w t before after e l)
step-IsLedger cfg w w' (uninferred now t before after res e p) l =
    tail_failed-IsLedger cfg now t _ (resume-IsLedger w t before after e l)
step-IsLedger cfg w w' (acknowledged node_id req_id) l =
    IsLedger-IsUnbooked [] w _ l (on_assign_ack-IsUnbooked node_id req_id w)
step-IsLedger cfg w w' (heard node_id addr hb now) l = record {
  ok_rows = l.ok_rows;
  attempted = l.attempted;
  once = l.once;
}
step-IsLedger cfg w w' (reassembled m) l =
    IsLedger-IsUnbooked [] w _ l (on_reassembler-IsUnbooked m w w (unbooked w))

-- The scheduler as `__init__` leaves it.
pub record IsUnused (w : World) : Type 0 where
  pub no_ok : (n : ℕ) → get_or n 0 w.ok_count ≡ 0
  pub no_rows : w.rows ≡ []
  pub no_tasks : w.tasks ≡ []

unused-IsLedger : (w : World) → IsUnused w → IsLedger [] w
unused-IsLedger w u = record {
  ok_rows = λ n. u.no_ok n ∙ ap (served_rows n) (sym u.no_rows);
  attempted = λ n. rw (u.no_rows, u.no_tasks) (omega arith);
  once = λ i. rw (u.no_rows, u.no_tasks) (omega arith);
}

-- In every interleaving of passes of `run`, starts and resumptions of `_handle`, acknowledgements,
-- heartbeats and reassembler events, from a state without counts, rows and tasks, `ok_count` of a
-- node is the number of its rows with OK, `attempts` of a node is at least the number of its rows
-- and of its suspended tasks, and a request is logged or suspended at most once in all, and not at
-- all before `req_counter` has reached its number.
pub Reach-IsLedger : (cfg : Config) (w0 w : World) → IsUnused w0 → Reach cfg w0 w → IsLedger [] w
Reach-IsLedger cfg w0 w u here = unused-IsLedger w0 u
Reach-IsLedger cfg w0 w u (next {w = v} r s) = step-IsLedger cfg v w s (Reach-IsLedger cfg w0 v u r)
