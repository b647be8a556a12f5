-- ===== src/Examples/SchedulerRuns.antt =====
-- The theorems on orchestrator/scheduler.py at runs in which no cut is known for the node, no ASSIGN
-- is acknowledged, or no tensor comes in time.
use split_inference.Base.{
  ℕ, ◌≤◌, ok, ◌≡◌, refl, sym, ap, subst, Bool, true, false, Option, none, some, [], ◌∷◌, ◌++◌,
  arith, if◌then◌else◌, ◌==◌, nat_eq, string_eq, pair_eq,
}
use split_inference.Base.Dict.{get, put}
use split_inference.Base.Int.{pos, negsuc}
use split_inference.Policy.Choice.{fixed_cut, select, wants}
use split_inference.Reassembly.State.{init, timeout, ReqBuf}
use split_inference.Reassembly.Receive.{start, new_buf}
use split_inference.Scheduler.Lost.{gave_up, give_up_lem}
use split_inference.Scheduler.Late.{tensor_timeout_lem}
use split_inference.Wire.Kind
use split_inference.Wire.Struct.{Bytes}
use split_inference.Wire.Packet.{pack}
use split_inference.Wire.Packet.Laws.{pack_total}
use split_inference.Registry.Table.{initial, NodeState, is_ready, is_lost, ready}
use split_inference.Scheduler.World.{
  World, Task, lost, unserved, assigning, set_in_flight, satisfied,
}
use split_inference.Scheduler.Handle.{
  give_up, row_of, tensor_timeout, tick, begin, offer_all, offer_work, admit, choose_cut,
}
use split_inference.Scheduler.Load.{load, of_ids}
use split_inference.Wire.Heartbeat.{Heartbeat}
use split_inference.Scheduler.Within.{IsWithin}
use split_inference.Scheduler.Cap.{Reach-IsWithin}
use split_inference.Scheduler.Flight.{
  heard, hear, Reach, here, next, ticked, begun, IsIdle, Reach-load, dead_not_ready,
}
use split_inference.Examples.Setup.{cfg, address, node11}

abbrev pub seen : NodeState
seen = record node11 { ctrl_addr = some address; last_hb = pos 1000; was_lost = false }

-- A table of best cuts that lacks node 11.
abbrev pub entered : World
entered = record {
  nodes = (11, seen) ∷ [];
  policy = fixed_cut "best" ((12, "k0") ∷ []);
  reassembler = init;
  req_counter = 0;
  acks = [];
  ok_count = [];
  attempts = [];
  next_ok_time = [];
  target_ok = some 3;
  created = [];
  tasks = [];
  dead = [];
  sent_ctrl = [];
  rows = [];
}

abbrev flights : Option NodeState → ℕ
flights none = 0
flights (some st) = st.in_flight

unloaded : (n : ℕ) (st : NodeState) → get n entered.nodes ≡ some st → st.in_flight ≡ 0
unfolding get
unloaded n st h = split (11 == n) h
  where
    split : (b : Bool) → (if b then some seen else none) ≡ some st → st.in_flight ≡ 0
    split true g = ap flights (sym g)
    split false g = cc

entered-IsIdle : IsIdle entered
entered-IsIdle = record { unloaded = unloaded; no_created = refl; no_tasks = refl; no_dead = refl }

abbrev passed : World
passed = (tick cfg 2000 entered).1

created : passed.created ≡ [] ++ 11 ∷ []
unfolding tick offer_all offer_work ready is_lost satisfied wants get
created = refl

abbrev ended : World
ended = begin cfg 2000 11 (record passed { created = [] })

ended-Reach : Reach cfg entered ended
ended-Reach = next (next here (ticked 2000)) (begun 2000 11 [] [] created)

loaded : get 11 ended.nodes ≡ some (record seen { in_flight = 1 })
unfolding begin tick offer_all offer_work ready is_lost satisfied wants get set_in_flight put admit
    choose_cut select
loaded = refl

Reach-load_example : 1 ≡ load 11 ended
Reach-load_example =
    Reach-load cfg entered ended entered-IsIdle ended-Reach 11 (record seen { in_flight = 1 })
      loaded

one_dead : ended.dead ≡ 11 ∷ []
unfolding begin tick offer_all offer_work ready is_lost satisfied wants get set_in_flight put admit
    choose_cut select
one_dead = refl

dead_not_ready_example : is_ready cfg 5000 (record seen { in_flight = 1 }) ≡ false
dead_not_ready_example =
    dead_not_ready cfg entered ended entered-IsIdle ended-Reach 11 (record seen { in_flight = 1 })
      loaded (subst (λ ms. 1 ≤ of_ids 11 ms) (sym one_dead) (omega arith)) 5000

abbrev unheard : Task
unheard = record {
  node_id = 11;
  req_id = 5;
  tier = "s3";
  arm = "k0";
  action_idx = 0;
  rssi = pos 0;
  t_assign = 2000;
  tensor_fut = 0;
  phase = assigning 0;
}

abbrev assigned : World
assigned = record entered {
  nodes = (11, record seen { in_flight = 1 }) ∷ [];
  reassembler = (start 11 5 init).1;
  tasks = unheard ∷ [];
}

assigned_node : get 11 assigned.nodes ≡ some (record seen { in_flight = 1 })
unfolding get
assigned_node = refl

assigned_request : get 5 assigned.reassembler.reqs ≡ some (new_buf 11 0)
unfolding get start put
assigned_request = refl

give_up_lem_example :
    (give_up cfg 9000 unheard assigned).rows ≡ [] ++ row_of unheard lost ∷ []
    × (give_up cfg 9000 unheard assigned).sent_ctrl ≡ []
    × get 11 (give_up cfg 9000 unheard assigned).nodes
      ≡ some (gave_up (record seen { in_flight = 1 }))
    × get 5 (give_up cfg 9000 unheard assigned).reassembler.reqs ≡ none
give_up_lem_example =
    give_up_lem cfg 9000 unheard assigned (record seen { in_flight = 1 }) (new_buf 11 0)
      assigned_node assigned_request refl

abbrev half_received : ReqBuf
half_received = record (new_buf 11 0) { addr = some address }

abbrev overdue : World
overdue = record assigned {
  reassembler = record init { reqs = (5, half_received) ∷ []; next_future = 1 };
}

overdue_request : get 5 overdue.reassembler.reqs ≡ some half_received
unfolding get
overdue_request = refl

abort_packet : (d : Bytes) × (pack Kind.abort 11 5 [] ≡ ok d)
abort_packet = pack_total Kind.abort 11 5 [] (omega arith) (omega arith) (omega arith)

tensor_timeout_lem_example :
    (tensor_timeout cfg 9000 unheard overdue).rows ≡ [] ++ row_of unheard (unserved timeout) ∷ []
    × (tensor_timeout cfg 9000 unheard overdue).sent_ctrl ≡ [] ++ (address, abort_packet.0) ∷ []
    × (tensor_timeout cfg 9000 unheard overdue).reassembler.sent
      ≡ [] ++ (address, abort_packet.0) ∷ []
    × get 11 (tensor_timeout cfg 9000 unheard overdue).nodes ≡ some (record seen { in_flight = 0 })
    × get 5 (tensor_timeout cfg 9000 unheard overdue).reassembler.reqs ≡ none
tensor_timeout_lem_example =
    tensor_timeout_lem cfg 9000 unheard overdue (record seen { in_flight = 1 }) half_received
      address address abort_packet.0 assigned_node refl overdue_request refl refl refl
      abort_packet.1

abbrev fresh : World
fresh = record entered { nodes = initial cfg }

abbrev first_heartbeat : Heartbeat
first_heartbeat = record {
  rssi = negsuc 49;
  free_heap = 150000;
  temp = pos 30;
  fw_hash = 1;
  busy = 0;
  boot_count = 0;
}

abbrev offered_once : World
offered_once = (tick cfg 2000 (hear 11 address first_heartbeat 1000 fresh)).1

Reach-IsWithin_example : IsWithin cfg.experiment.node_inflight_cap offered_once.nodes
Reach-IsWithin_example =
    Reach-IsWithin cfg fresh offered_once refl
      (next (next here (heard 11 address first_heartbeat 1000)) (ticked 2000))
