-- ===== src/Registry/Lifecycle.antt =====
-- When a node of orchestrator/registry.py is lost, ready or reported.
use split_inference.Base.{
  ℕ, ◌+◌, ◌*◌, ◌≤◌, ◌<◌, ◌≡◌, refl, ◌≢◌, ◌↔◌, true, false, none, some, [], ◌∷◌, arith,
  if◌then◌else◌, nat_eqb, nat_eq, string_eq, pair_eq, ok, All, keep_if-All,
}
use split_inference.Base.Int.{pos}
use split_inference.Base.Dict.{get, put, get-put_self}
use split_inference.Wire.Heartbeat.{Heartbeat}
use split_inference.Config.Types.{Config}
use split_inference.Reassembly.State.{Addr}
use split_inference.Registry.Table.{
  NodeState, Nodes, unknown_node, node_up, boot_count_changed, refreshed, second, update_heartbeat,
  is_lost, mark_lost, is_ready, values, ready, never,
}

-- What a heartbeat of a known node does: it is stored, no other node changes, and for
-- `lost_after_s` seconds from then on, and no longer, the node is not lost.
pub record IsRefreshed (cfg : Config) (node_id : ℕ) (addr : Addr) (hb : Heartbeat) (now : ℕ)
    (nodes nodes' : Nodes) : Type 0 where
  pub state : NodeState
  pub stored : get node_id nodes' ≡ some state
  pub reported : (state.rssi ≡ hb.rssi) × (state.ctrl_addr ≡ some addr) × (state.was_lost ≡ false)
  pub others : (j : ℕ) → j ≢ node_id → get j nodes' ≡ get j nodes
  pub lost_iff :
      (later : ℕ)
      → now ≤ later
      → (is_lost cfg later state ≡ true) ↔ (now + cfg.registry.lost_after_s * second < later)

-- A heartbeat from a node that the configuration does not name is reported and changes nothing.
pub update_heartbeat_unknown :
    (node_id : ℕ) (addr : Addr) (hb : Heartbeat) (now : ℕ) (nodes : Nodes)
    → get node_id nodes ≡ none
    → update_heartbeat node_id addr hb now nodes ≡ (unknown_node node_id addr ∷ [], nodes)
unfolding update_heartbeat
update_heartbeat_unknown node_id addr hb now nodes h = rw (h, update_heartbeat)

-- Of two heartbeats in a row of a known node, the second reports a reboot exactly if the boot
-- counts differ, and nothing else.
pub boot_count_reported :
    (node_id : ℕ) (a b : Addr) (hb hb' : Heartbeat) (now later : ℕ) (nodes : Nodes) (st : NodeState)
    → get node_id nodes ≡ some st
    → let nodes' = (update_heartbeat node_id a hb now nodes).1 in
      (update_heartbeat node_id b hb' later nodes').0 ≡ (
        if nat_eqb hb'.boot_count hb.boot_count
        then []
        else boot_count_changed node_id (pos hb.boot_count) hb'.boot_count ∷ [])
unfolding update_heartbeat
boot_count_reported node_id a b hb hb' now later nodes st known =
    rw (known, update_heartbeat, get-put_self node_id (refreshed st a hb now) nodes)

-- A known node that is marked lost is lost and not ready at every time until its next heartbeat,
-- which announces it beside what it would have reported.
pub mark_lost_until_heartbeat :
    (cfg : Config) (node_id : ℕ) (nodes : Nodes) (st : NodeState)
    → get node_id nodes ≡ some st
    → (nodes' : Nodes) × (lost : NodeState) × (mark_lost node_id nodes ≡ ok nodes')
      × (get node_id nodes' ≡ some lost)
      × ((now : ℕ) → is_lost cfg now lost ≡ true)
      × ((now : ℕ) → is_ready cfg now lost ≡ false)
      × ((addr : Addr) (hb : Heartbeat) (now : ℕ)
          → (update_heartbeat node_id addr hb now nodes').0
            ≡ node_up node_id st.tier hb.rssi
              ∷ (update_heartbeat node_id addr hb now
                  (put node_id (record st { was_lost = false }) nodes)).0)
unfolding update_heartbeat mark_lost is_lost
mark_lost_until_heartbeat cfg node_id nodes st known =
    let lost : NodeState = record st { last_hb = never; was_lost = true } in
    let still : NodeState = record st { was_lost = false } in
    (
      put node_id lost nodes,
      lost,
      rw known,
      get-put_self node_id lost nodes,
      λ now. refl,
      λ now. refl,
      λ addr hb now.
          rw (get-put_self node_id lost nodes, get-put_self node_id still nodes, update_heartbeat),
    )

-- A node whose answers still stand is ready exactly when it is not lost, not busy and below the
-- in-flight cap.
pub is_ready_iff :
    (cfg : Config) (now : ℕ) (st : NodeState)
    → (is_ready cfg now st ≡ true) ↔ (
        (is_lost cfg now st ≡ false)
        × (st.busy ≡ false)
        × (st.in_flight < cfg.experiment.node_inflight_cap))
is_ready_iff cfg now st = ground arith

-- `ready` offers only nodes of the table that are ready.
pub ready-All :
    (cfg : Config) (now : ℕ) (nodes : Nodes)
    → All (λ st. is_ready cfg now st ≡ true) (ready cfg now nodes)
unfolding ready
ready-All cfg now nodes = keep_if-All (is_ready cfg now) (values nodes)
