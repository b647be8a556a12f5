-- ===== src/Scheduler/Cap.antt =====
-- No node has more requests in flight than `node_inflight_cap`, orchestrator/scheduler.py.
use split_inference.Base.{
  ℕ, ◌≤◌, ◌≡◌, refl, sym, ◌∙◌, subst, inl, inr, Bool, true, false, some, List, [], ◌∷◌, ◌++◌, arith,
  if◌then◌else◌, nat_eqb_iff, Option-cases, ◌==◌, nat_eq, string_eq, pair_eq,
}
use split_inference.Base.Dict.{get, put, get-put, put-Distinct}
use split_inference.Config.Types.{Config, NodeCfg}
use split_inference.Wire.Heartbeat.{Heartbeat}
use split_inference.Reassembly.State.{Addr}
use split_inference.Registry.Table.{
  NodeState, Nodes, unseen, add_nodes, initial, refreshed, update_heartbeat,
}
use split_inference.Scheduler.World.{World}
use split_inference.Scheduler.Handle.{on_reassembler}
use split_inference.Scheduler.Flights.{Shrinks, Shrinks-refl, put-Shrinks}
use split_inference.Scheduler.Lighter.{
  ack_awaited-Lighter, tensor_awaited-Lighter, tensor_timeout-Lighter, tail_failed-Lighter,
  tail_awaited-Lighter,
}
use split_inference.Scheduler.Shrinking.{begin-Lighter, on_assign_ack-Lighter}
use split_inference.Scheduler.Flight.{
  heard_unknown, heard_known, Step, ticked, begun, assigned, received, expired, inferred,
  uninferred, acknowledged, heard, reassembled, Reach, here, next,
}
use split_inference.Scheduler.Within.{IsWithin, Shrinks-IsWithin}
use split_inference.Scheduler.Offers.{tick-IsWithin}

hear-Shrinks :
    (node_id : ℕ) (addr : Addr) (hb : Heartbeat) (now : ℕ) (nodes : Nodes)
    → Shrinks nodes (update_heartbeat node_id addr hb now nodes).1
hear-Shrinks node_id addr hb now nodes = elim (Option-cases (get node_id nodes)) [
  | inl unknown ↦
      subst (Shrinks nodes) (sym (heard_unknown node_id addr hb now nodes unknown))
        (Shrinks-refl nodes)
  | inr (old, known) ↦
      subst (Shrinks nodes) (sym (heard_known node_id addr hb now nodes old known))
        (put-Shrinks node_id old (refreshed old addr hb now) nodes known (omega arith) refl)
]

step-IsWithin :
    (cfg : Config) (w w' : World)
    → Step cfg w w'
    → IsWithin cfg.experiment.node_inflight_cap w.nodes
    → IsWithin cfg.experiment.node_inflight_cap w'.nodes
unfolding on_reassembler
step-IsWithin cfg w w' (ticked now) i = tick-IsWithin cfg now w i
step-IsWithin cfg w w' (begun now n before after e) i =
    Shrinks-IsWithin _ _ _
      (begin-Lighter cfg now n w (record w { created = before ++ after }) (Shrinks-refl w.nodes)) i
step-IsWithin cfg w w' (assigned now t before after n e p acked q) i =
    Shrinks-IsWithin _ _ _
      (ack_awaited-Lighter cfg now acked n t w (record w { tasks = before ++ after })
        (Shrinks-refl w.nodes))
      i
step-IsWithin cfg w w' (received now t before after f e p q) i =
    Shrinks-IsWithin _ _ _
      (tensor_awaited-Lighter cfg now f t w (record w { tasks = before ++ after })
        (Shrinks-refl w.nodes))
      i
step-IsWithin cfg w w' (expired now t before after e p q) i =
    Shrinks-IsWithin _ _ _
      (tensor_timeout-Lighter cfg now t w (record w { tasks = before ++ after })
        (Shrinks-refl w.nodes))
      i
step-IsWithin cfg w w' (inferred now t before after res tail_res e p) i =
    Shrinks-IsWithin _ _ _
      (tail_awaited-Lighter cfg now res tail_res t w (record w { tasks = before ++ after })
        (Shrinks-refl w.nodes))
      i
step-IsWithin cfg w w' (uninferred now t before after res e p) i =
    Shrinks-IsWithin _ _ _
      (tail_failed-Lighter cfg now t w (record w { tasks = before ++ after })
        (Shrinks-refl w.nodes))
      i
step-IsWithin cfg w w' (acknowledged node_id req_id) i =
    Shrinks-IsWithin _ _ _ (on_assign_ack-Lighter node_id req_id w w (Shrinks-refl w.nodes)) i
step-IsWithin cfg w w' (heard node_id addr hb now) i =
    Shrinks-IsWithin _ _ _ (hear-Shrinks node_id addr hb now w.nodes) i
step-IsWithin cfg w w' (reassembled m) i = i

add_nodes-IsWithin :
    (cap : ℕ) (ns : List NodeCfg) (nodes : Nodes)
    → IsWithin cap nodes
    → IsWithin cap (add_nodes ns nodes)
add_nodes-IsWithin cap [] nodes i = i
add_nodes-IsWithin cap (n ∷ ns) nodes i =
    add_nodes-IsWithin cap ns (put n.node_id (unseen n.node_id n.tier) nodes) (record {
      distinct = put-Distinct n.node_id (unseen n.node_id n.tier) nodes i.distinct;
      keyed = λ k st h. (at k st h).0;
      capped = λ k st h. (at k st h).1;
    })
  where
    at :
        (k : ℕ) (st : NodeState)
        → get k (put n.node_id (unseen n.node_id n.tier) nodes) ≡ some st
        → (st.node_id ≡ k) × (st.in_flight ≤ cap)
    at k st h =
        split (n.node_id == k) refl (sym (get-put n.node_id k (unseen n.node_id n.tier) nodes) ∙ h)
      where
        split :
            (b : Bool)
            → (n.node_id == k) ≡ b
            → (if b then some (unseen n.node_id n.tier) else get k nodes) ≡ some st
            → (st.node_id ≡ k) × (st.in_flight ≤ cap)
        split true p held =
            let is : unseen n.node_id n.tier ≡ st = cc in
            (
              subst (λ s. s.node_id ≡ k) is ((nat_eqb_iff n.node_id k).0 p),
              subst (λ s. s.in_flight ≤ cap) is (omega arith),
            )
        split false p held = (i.keyed k st held, i.capped k st held)

initial-IsWithin : (cfg : Config) (cap : ℕ) → IsWithin cap (initial cfg)
unfolding initial get
initial-IsWithin cfg cap =
    add_nodes-IsWithin cap cfg.nodes []
      (record { distinct = tt; keyed = λ n st h. cc; capped = λ n st h. cc })

kept-IsWithin :
    (cfg : Config) (w0 w : World)
    → IsWithin cfg.experiment.node_inflight_cap w0.nodes
    → Reach cfg w0 w
    → IsWithin cfg.experiment.node_inflight_cap w.nodes
kept-IsWithin cfg w0 w i here = i
kept-IsWithin cfg w0 w i (next {w = v} r s) = step-IsWithin cfg v w s (kept-IsWithin cfg w0 v i r)

-- In every interleaving of passes of `run`, starts and resumptions of `_handle`, acknowledgements,
-- heartbeats and reassembler events, from the registry that `__init__` builds, each node stands
-- under its own identifier, once, and has at most `node_inflight_cap` requests in flight.
pub Reach-IsWithin :
    (cfg : Config) (w0 w : World)
    → w0.nodes ≡ initial cfg
    → Reach cfg w0 w
    → IsWithin cfg.experiment.node_inflight_cap w.nodes
Reach-IsWithin cfg w0 w fresh r =
    kept-IsWithin cfg w0 w
      (subst (IsWithin cfg.experiment.node_inflight_cap) (sym fresh)
        (initial-IsWithin cfg cfg.experiment.node_inflight_cap))
      r
