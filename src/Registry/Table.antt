-- ===== src/Registry/Table.antt =====
-- `NodeState` and the methods of `Registry`, orchestrator/registry.py. Times are whole microseconds
-- of the monotonic clock.
use split_inference.Base.{
  ℕ, ◌-◌, ◌*◌, String, Bool, true, false, not, ◌&&◌, Option, none, some, List, [], ◌∷◌, ◌++◌, ltb,
  if◌then◌else◌, nat_eqb, nat_eq, string_eq, pair_eq, key_error, Result, ok, or_raise, ◌>>=◌,
  keep_if,
}
use split_inference.Base.Int.{ℤ, pos, negsuc}
use split_inference.Base.Dict.{Dict, get, put}
use split_inference.Wire.Heartbeat.{Heartbeat}
use split_inference.Config.Types.{Config, NodeCfg}
use split_inference.Reassembly.State.{Addr}

pub record NodeState : Type 0 where
  pub node_id : ℕ
  pub tier : String
  pub ctrl_addr : Option Addr
  pub rssi : ℤ
  pub free_heap : ℕ
  pub temp : ℤ
  pub fw_hash : ℕ
  pub busy : Bool
  pub boot_count : ℤ
  pub last_hb : ℤ
  pub in_flight : ℕ
  pub was_lost : Bool

abbrev pub Nodes : Type 0
Nodes = Dict ℕ NodeState

-- -1 stands for "never".
abbrev pub never : ℤ
never = negsuc 0

abbrev pub unseen : ℕ → String → NodeState
unseen node_id tier = record {
  node_id = node_id;
  tier = tier;
  ctrl_addr = none;
  rssi = negsuc 126;
  free_heap = 0;
  temp = pos 0;
  fw_hash = 0;
  busy = false;
  boot_count = never;
  last_hb = never;
  in_flight = 0;
  was_lost = true;
}

-- {n.node_id: NodeState(n.node_id, n.tier) for n in cfg.nodes}
abbrev pub add_nodes : List NodeCfg → Nodes → Nodes
add_nodes [] nodes = nodes
add_nodes (n ∷ ns) nodes = add_nodes ns (put n.node_id (unseen n.node_id n.tier) nodes)

unfoldable pub initial : Config → Nodes
initial cfg = add_nodes cfg.nodes []

-- What the messages say; the text itself is for the log.
pub data Event : Type 0 where
  unknown_node : ℕ → Addr → Event
  node_up : ℕ → String → ℤ → Event
  boot_count_changed : ℕ → ℤ → ℕ → Event

-- if st.was_lost: …
abbrev up_event : ℕ → NodeState → Heartbeat → List Event
up_event node_id st hb = if st.was_lost then node_up node_id st.tier hb.rssi ∷ [] else []

-- if st.boot_count >= 0 and hb.boot_count != st.boot_count: …
abbrev boot_event : ℕ → ℤ → Heartbeat → List Event
boot_event node_id (negsuc n) hb = []
boot_event node_id (pos n) hb =
    if nat_eqb hb.boot_count n then [] else boot_count_changed node_id (pos n) hb.boot_count ∷ []

abbrev pub refreshed : NodeState → Addr → Heartbeat → ℕ → NodeState
refreshed st addr hb now = record st {
  was_lost = false;
  ctrl_addr = some addr;
  rssi = hb.rssi;
  free_heap = hb.free_heap;
  temp = hb.temp;
  fw_hash = hb.fw_hash;
  busy = not (nat_eqb hb.busy 0);
  boot_count = pos hb.boot_count;
  last_hb = pos now;
}

unfoldable pub update_heartbeat : ℕ → Addr → Heartbeat → ℕ → Nodes → List Event × Nodes
update_heartbeat node_id addr hb now nodes = elim (get node_id nodes) [
  | none ↦ (unknown_node node_id addr ∷ [], nodes)
  | some st ↦ (
    up_event node_id st hb ++ boot_event node_id st.boot_count hb,
    put node_id (refreshed st addr hb now) nodes,
  )
]

abbrev pub second : ℕ
second = 1000000

abbrev pub silent : ℤ → ℕ → ℕ → Bool
silent (pos t) lost_after now = ltb lost_after (now - t)
silent (negsuc n) lost_after now = true

-- st.last_hb < 0 or (self.now() - st.last_hb) > self.cfg.registry.lost_after_s
unfoldable pub is_lost : Config → ℕ → NodeState → Bool
is_lost cfg now st = silent st.last_hb (cfg.registry.lost_after_s * second) now

unfoldable pub mark_lost : ℕ → Nodes → Result Nodes
mark_lost node_id nodes = do
  st ← or_raise key_error (get node_id nodes)
  ok (put node_id (record st { last_hb = never; was_lost = true }) nodes)

abbrev pub values : Nodes → List NodeState
values [] = []
values ((_, st) ∷ nodes) = st ∷ values nodes

abbrev pub is_ready : Config → ℕ → NodeState → Bool
is_ready cfg now st =
    not (is_lost cfg now st) && (not st.busy && ltb st.in_flight cfg.experiment.node_inflight_cap)

unfoldable pub ready : Config → ℕ → Nodes → List NodeState
ready cfg now nodes = keep_if (is_ready cfg now) (values nodes)

unfoldable pub alive : Config → ℕ → Nodes → List NodeState
alive cfg now nodes = keep_if (λ st. not (is_lost cfg now st)) (values nodes)
