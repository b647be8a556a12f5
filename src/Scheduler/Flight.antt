-- ===== src/Scheduler/Flight.antt =====
-- Every schedule of the tasks of orchestrator/scheduler.py: `in_flight` counts the tasks of a node.
use split_inference.Base.{
  ℕ, ◌≤◌, ◌≡◌, refl, ◌∙◌, subst, inl, inr, Bool, true, false, ◌&&◌, Option, none, some, List, [],
  ◌∷◌, ◌++◌, arith, ltb, Option-cases, nat_eq, string_eq, pair_eq,
}
use split_inference.Base.Exec.{Exec}
use split_inference.Base.Dict.{get, put}
use split_inference.Config.Types.{Config}
use split_inference.Reassembly.State.{Addr, Reassembled, Reassembler, Future, pending}
use split_inference.Registry.Table.{NodeState, Nodes, ready}
use split_inference.Scheduler.World.{
  TailResult, assigning, receiving, inferring, Task, World, on_assign_ack,
}
use split_inference.Scheduler.Handle.{
  on_reassembler, begin, ack_awaited, tensor_awaited, tensor_timeout, tail_awaited, tail_failed,
  tick,
}
use split_inference.Wire.Heartbeat.{Heartbeat}
use split_inference.Registry.Table.{refreshed, update_heartbeat, is_ready}
use split_inference.Scheduler.Load.{
  of_ids, load, Balanced, Keeps, Balanced-Keeps, Keeps-refl, on_reassembler-Keeps, put_flights,
}
use split_inference.Scheduler.Segments.{
  ack_awaited-Balanced, tensor_awaited-Balanced, tensor_timeout-Balanced, tail_awaited-Balanced,
  tail_failed-Balanced,
}
use split_inference.Scheduler.Passes.{
  resume-Balanced, create-Balanced, begun-Balanced, offer_all-Balanced,
}

-- A heartbeat that the control socket hands to the registry.
abbrev pub hear : ℕ → Addr → Heartbeat → ℕ → World → World
hear node_id addr hb now w =
    let (_, nodes) = update_heartbeat node_id addr hb now w.nodes in record w { nodes = nodes }

-- One atomic section of the event loop: a pass of `run`, the start of one of its tasks, the end of
-- what a `_handle` awaits, an ASSIGN_ACK, a heartbeat, or any method of the reassembler.
pub data Step (cfg : Config) : World → World → Type 0 where
  ticked : {w : World} (now : ℕ) → Step cfg w (tick cfg now w).1
  begun :
      {w : World} (now n : ℕ) (before after : List ℕ)
      → w.created ≡ before ++ n ∷ after
      → Step cfg w (begin cfg now n (record w { created = before ++ after }))
  assigned :
      {w : World} (now : ℕ) (t : Task) (before after : List Task) (n : ℕ)
      → w.tasks ≡ before ++ t ∷ after
      → t.phase ≡ assigning n
      → (acked : Bool) → get (t.node_id, t.req_id) w.acks ≡ some acked
      → Step cfg w (ack_awaited cfg now acked n t (record w { tasks = before ++ after }))
  received :
      {w : World} (now : ℕ) (t : Task) (before after : List Task) (f : Future)
      → w.tasks ≡ before ++ t ∷ after
      → t.phase ≡ receiving
      → get t.tensor_fut w.reassembler.futures ≡ some f
      → Step cfg w (tensor_awaited cfg now f t (record w { tasks = before ++ after }))
  expired :
      {w : World} (now : ℕ) (t : Task) (before after : List Task)
      → w.tasks ≡ before ++ t ∷ after
      → t.phase ≡ receiving
      → get t.tensor_fut w.reassembler.futures ≡ some pending
      → Step cfg w (tensor_timeout cfg now t (record w { tasks = before ++ after }))
  inferred :
      {w : World} (now : ℕ) (t : Task) (before after : List Task) (res : Reassembled)
      (tail_res : TailResult)
      → w.tasks ≡ before ++ t ∷ after
      → t.phase ≡ inferring res
      → Step cfg w (tail_awaited cfg now res tail_res t (record w { tasks = before ++ after }))
  uninferred :
      {w : World} (now : ℕ) (t : Task) (before after : List Task) (res : Reassembled)
      → w.tasks ≡ before ++ t ∷ after
      → t.phase ≡ inferring res
      → Step cfg w (tail_failed cfg now t (record w { tasks = before ++ after }))
  acknowledged : {w : World} (node_id req_id : ℕ) → Step cfg w (on_assign_ack node_id req_id w)
  heard :
      {w : World} (node_id : ℕ) (addr : Addr) (hb : Heartbeat) (now : ℕ)
      → Step cfg w (hear node_id addr hb now w)
  reassembled : {w : World} (m : Exec Reassembler Unit) → Step cfg w (on_reassembler m w).1

on_assign_ack-Keeps : (node_id req_id : ℕ) (w : World) → Keeps w (on_assign_ack node_id req_id w)
unfolding on_assign_ack
on_assign_ack-Keeps node_id req_id w = split (get (node_id, req_id) w.acks)
  where
    split :
        (o : Option Bool)
        → Keeps w (elim o [
          | some false ↦ record w { acks = put (node_id, req_id) true w.acks }
          | some true ↦ w
          | none ↦ w
        ])
    split none = Keeps-refl w
    split (some true) = Keeps-refl w
    split (some false) = record { flights = λ n st h. (st, h, refl); loads = λ n. refl }

module _ (node_id : ℕ) (addr : Addr) (hb : Heartbeat) (now : ℕ) (nodes : Nodes) where
  pub heard_unknown :
      get node_id nodes ≡ none → (update_heartbeat node_id addr hb now nodes).1 ≡ nodes
  unfolding update_heartbeat
  heard_unknown h = rw (h, update_heartbeat) refl

  pub heard_known :
      (old : NodeState)
      → get node_id nodes ≡ some old
      → (update_heartbeat node_id addr hb now nodes).1
        ≡ put node_id (refreshed old addr hb now) nodes
  unfolding update_heartbeat put
  heard_known old h = rw (h, update_heartbeat) refl

  update_heartbeat-flights :
      (n : ℕ) (st : NodeState)
      → get n (update_heartbeat node_id addr hb now nodes).1 ≡ some st
      → (old : NodeState) × (get n nodes ≡ some old) × (st.in_flight ≡ old.in_flight)
  update_heartbeat-flights n st at = elim (Option-cases (get node_id nodes)) [
    | inl unknown ↦ (st, subst (λ m. get n m ≡ some st) (heard_unknown unknown) at, refl)
    | inr (old, known) ↦
        put_flights node_id old (refreshed old addr hb now) nodes n st known refl
          (subst (λ m. get n m ≡ some st) (heard_known old known) at)
  ]

hear-Keeps :
    (node_id : ℕ) (addr : Addr) (hb : Heartbeat) (now : ℕ) (w : World)
    → Keeps w (hear node_id addr hb now w)
hear-Keeps node_id addr hb now w = record {
  flights = λ n st h. update_heartbeat-flights node_id addr hb now w.nodes n st h;
  loads = λ n. refl;
}

step-Balanced :
    (cfg : Config) (w w' : World) → Step cfg w w' → Balanced (λ n. 0) w → Balanced (λ n. 0) w'
unfolding tick
step-Balanced cfg w w' (ticked now) b = offer_all-Balanced now (ready cfg now w.nodes) w b
step-Balanced cfg w w' (begun now n before after e) b =
    begun-Balanced cfg now n _ (create-Balanced w n before after e b)
step-Balanced cfg w w' (assigned now t before after n e p acked q) b =
    ack_awaited-Balanced cfg now acked n t _ (resume-Balanced w t before after e b)
step-Balanced cfg w w' (received now t before after f e p q) b =
    tensor_awaited-Balanced cfg now f t _ (resume-Balanced w t before after e b)
step-Balanced cfg w w' (expired now t before after e p q) b =
    tensor_timeout-Balanced cfg now t _ (resume-Balanced w t before after e b)
step-Balanced cfg w w' (inferred now t before after res tail_res e p) b =
    tail_awaited-Balanced cfg now res tail_res t _ (resume-Balanced w t before after e b)
step-Balanced cfg w w' (uninferred now t before after res e p) b =
    tail_failed-Balanced cfg now t _ (resume-Balanced w t before after e b)
step-Balanced cfg w w' (acknowledged node_id req_id) b =
    Balanced-Keeps _ w _ b (on_assign_ack-Keeps node_id req_id w)
step-Balanced cfg w w' (heard node_id addr hb now) b =
    Balanced-Keeps _ w _ b (hear-Keeps node_id addr hb now w)
step-Balanced cfg w w' (reassembled m) b =
    Balanced-Keeps _ w _ b (on_reassembler-Keeps m w w (Keeps-refl w))

-- A run of the event loop from the state in which `amain` of orchestrator/experiment.py enters it.
pub data Reach (cfg : Config) (start_world : World) : World → Type 0 where
  here : Reach cfg start_world start_world
  next : {w w' : World} → Reach cfg start_world w → Step cfg w w' → Reach cfg start_world w'

-- No request was made yet.
pub record IsIdle (w : World) : Type 0 where
  pub unloaded : (n : ℕ) (st : NodeState) → get n w.nodes ≡ some st → st.in_flight ≡ 0
  pub no_created : w.created ≡ []
  pub no_tasks : w.tasks ≡ []
  pub no_dead : w.dead ≡ []

idle-Balanced : (w : World) → IsIdle w → Balanced (λ n. 0) w
unfolding Balanced
idle-Balanced w i n st h = i.unloaded n st h ∙ rw (i.no_created, i.no_tasks, i.no_dead) refl

Reach-Balanced : (cfg : Config) (w0 w : World) → IsIdle w0 → Reach cfg w0 w → Balanced (λ n. 0) w
Reach-Balanced cfg w0 w i here = idle-Balanced w0 i
Reach-Balanced cfg w0 w i (next {w = v} r s) = step-Balanced cfg v w s (Reach-Balanced cfg w0 v i r)

-- In every interleaving of passes of `run`, starts and resumptions of `_handle`, acknowledgements,
-- heartbeats and reassembler events, from a state without requests, `in_flight` of a node is the
-- number of its tasks that are created, suspended or dead before their `try`.
pub Reach-load :
    (cfg : Config) (w0 w : World)
    → IsIdle w0
    → Reach cfg w0 w
    → (n : ℕ) (st : NodeState) → get n w.nodes ≡ some st
    → st.in_flight ≡ load n w
unfolding Balanced
Reach-load cfg w0 w i r n st h = Reach-Balanced cfg w0 w i r n st h ∙ omega arith

not_ready : (a b : Bool) (k cap : ℕ) → cap ≤ k → (a && (b && ltb k cap)) ≡ false
not_ready true true k cap h = ground arith
not_ready true false k cap h = refl
not_ready false b k cap h = refl

-- In every such interleaving, a node for which at least `node_inflight_cap` tasks died before
-- their `try` is not ready at any time.
pub dead_not_ready :
    (cfg : Config) (w0 w : World)
    → IsIdle w0
    → Reach cfg w0 w
    → (n : ℕ) (st : NodeState) → get n w.nodes ≡ some st
    → cfg.experiment.node_inflight_cap ≤ of_ids n w.dead
    → (now : ℕ) → is_ready cfg now st ≡ false
dead_not_ready cfg w0 w i r n st h cap now =
    let load_n : st.in_flight ≡ load n w = Reach-load cfg w0 w i r n st h in
    not_ready _ _ st.in_flight cfg.experiment.node_inflight_cap (omega arith)
