-- ===== src/Scheduler/Handle.antt =====
-- `run`, `_handle` and `_assign` of orchestrator/scheduler.py, cut at their awaits: each function
-- is what runs from one await to the next.
use split_inference.Base.{
  ℕ, zero, suc, ◌+◌, ◌-◌, ◌*◌, String, Bool, true, false, none, some, List, [], ◌∷◌, ◌++◌, ltb,
  if◌then◌else◌, nat_eq, string_eq, pair_eq, Result, ok, err,
}
use split_inference.Base.Exec.{Exec, ◌>>=◌, ◌>>◌, lift, pure, modify}
use split_inference.Base.Dict.{get, get_or, put, remove}
use split_inference.Wire.Kind
use split_inference.Wire.Struct.{Bytes, pack_fields}
use split_inference.Wire.Packet.{pack, assign_s, result_s}
use split_inference.Config.Types.{Config}
use split_inference.Config.Cuts.{cut_index}
use split_inference.Policy.Choice.{select}
use split_inference.Reassembly.State.{
  timeout, Reassembled, Reassembler, Future, pending, result, failed, cancelled, is_done,
}
use split_inference.Reassembly.Receive.{start, abort}
use split_inference.Registry.Table.{NodeState, Nodes, mark_lost, ready}
use split_inference.Scheduler.World.{
  TailResult, Verdict, served, lost, unserved, assigning, receiving, inferring, Task, Row, World,
  send_ctrl, ctrl_addr, set_in_flight, satisfied,
}

-- A method of the reassembler or of the registry, called from `_handle`.
unfoldable pub on_reassembler : {A : Type 0} → Exec Reassembler A → Exec World A
on_reassembler m w = let (r, s) = m w.reassembler in (r, record w { reassembler = s })

abbrev pub keep_nodes : Result Nodes → World → Result (Unit {0}) × World
keep_nodes (err e) w = (err e, w)
keep_nodes (ok nodes) w = (ok tt, record w { nodes = nodes })

unfoldable pub lose_node : ℕ → Exec World Unit
lose_node node_id w = keep_nodes (mark_lost node_id w.nodes) w

-- server.send_ctrl(st.ctrl_addr, P.pack(…))
unfoldable pub send_packet : ℕ → Result Bytes → Exec World Unit
send_packet node_id (err e) w = (err e, w)
send_packet node_id (ok datagram) w = (ok tt, send_ctrl (ctrl_addr node_id w) datagram w)

-- The `finally` of `_handle`.
unfoldable pub release : Config → ℕ → ℕ → World → World
release cfg now node_id w = record w {
  nodes = set_in_flight (λ k. k - 1) node_id w.nodes;
  next_ok_time = put node_id (now + cfg.experiment.request_gap_ms * 1000) w.next_ok_time;
}

-- The lines after the `finally`.
unfoldable pub log_request : Row → World → World
log_request row w = record w {
  ok_count = elim row.status [
    | served ↦ put row.task.node_id (get_or row.task.node_id 0 w.ok_count + 1) w.ok_count
    | lost ↦ w.ok_count
    | unserved status ↦ w.ok_count
  ];
  rows = w.rows ++ row ∷ [];
}

-- The end of the `try`: an exception passes through the `finally` and skips the log.
unfoldable pub finish : Config → ℕ → Row → Result (Unit {0}) × World → World
finish cfg now row (ok _, w) = log_request row (release cfg now row.task.node_id w)
finish cfg now row (err e, w) = release cfg now row.task.node_id w

abbrev pub suspend : Task → World → World
suspend t w = record w { tasks = t ∷ w.tasks }

-- tensor_fut.cancel()
unfoldable pub cancel : ℕ → Exec Reassembler Unit
cancel f s = (
  ok tt,
  if is_done (get f s.futures) then s else record s { futures = put f cancelled s.futures },
)

abbrev pub row_of : Task → Verdict → Row
row_of t status = record {
  task = t;
  res = none;
  tail_res = none;
  t_total_us = none;
  status = status;
}

-- All ASSIGNs went unacknowledged.
unfoldable pub give_up : Config → ℕ → Task → World → World
give_up cfg now t w = finish cfg now (row_of t lost) (
    (on_reassembler (cancel t.tensor_fut)
        >> lose_node t.node_id
        >> on_reassembler (abort t.req_id false))
      w)

-- The ASSIGN of a task.
abbrev pub assign_packet : Task → Result Bytes
assign_packet t = elim (pack_fields assign_s (t.action_idx, tt)) [
  | err e ↦ err e
  | ok payload ↦ pack Kind.assign t.node_id t.req_id payload
]

-- self.acks.pop((st.node_id, req_id), None)
abbrev pub drop_ack : Task → World → World
drop_ack t w = record w { acks = remove (t.node_id, t.req_id) w.acks }

abbrev pub offered : Config → ℕ → Task → Result (Unit {0}) × World → World
offered cfg now t (ok _, w) = suspend t w
offered cfg now t (err e, w) = release cfg now t.node_id (drop_ack t w)

-- The loop of `_assign` with `n` tries left, up to its await.
unfoldable pub try_assign : Config → ℕ → ℕ → Task → World → World
try_assign cfg now zero t w = give_up cfg now t w
try_assign cfg now (suc n) t w =
    let t' : Task = record t { phase = assigning n } in
    offered cfg now t' (
      send_packet t.node_id (assign_packet t)
        (record w { acks = put (t.node_id, t.req_id) false w.acks }))

-- Lines 62 to 65 of `_handle`.
unfoldable pub choose_cut : ℕ → Exec World String
choose_cut node_id w =
    let (cut, p) = select node_id w.policy in
    (cut, record w { req_counter = w.req_counter + 1; policy = p })

-- Lines 67 to 74.
unfoldable pub register : Config → ℕ → ℕ → NodeState → String → ℕ → Exec World Task
register cfg now node_id st arm action_idx = do
  modify (λ w. record w { attempts = put node_id (get_or node_id 0 w.attempts + 1) w.attempts })
  req_id ← λ w. (ok w.req_counter, w)
  tensor_fut ← on_reassembler (start node_id req_id)
  pure (record {
    node_id = node_id;
    req_id = req_id;
    tier = st.tier;
    arm = arm;
    action_idx = action_idx;
    rssi = st.rssi;
    t_assign = now;
    tensor_fut = tensor_fut;
    phase = assigning cfg.protocol.assign_max_retries;
  })

-- The first part of `_handle`, which a fault ends before the `try`.
unfoldable pub admit : Config → ℕ → ℕ → NodeState → Exec World Task
admit cfg now node_id st = do
  arm ← choose_cut node_id
  action_idx ← lift (cut_index cfg arm)
  register cfg now node_id st arm action_idx

abbrev pub admitted : Config → ℕ → ℕ → Result Task × World → World
admitted cfg now node_id (err e, w) = record w { dead = node_id ∷ w.dead }
admitted cfg now node_id (ok t, w) = try_assign cfg now cfg.protocol.assign_max_retries t w

-- The task of `run` for `node_id` starts.
unfoldable pub begin : Config → ℕ → ℕ → World → World
begin cfg now node_id w = elim (get node_id w.nodes) [
  | none ↦ record w { dead = node_id ∷ w.dead }
  | some st ↦ admitted cfg now node_id (admit cfg now node_id st w)
]

-- wait_for(fut, assign_ack_timeout_ms) ends: with the acknowledgement, or without.
unfoldable pub ack_awaited : Config → ℕ → Bool → ℕ → Task → World → World
ack_awaited cfg now true n t w = suspend (record t { phase = receiving }) (drop_ack t w)
ack_awaited cfg now false n t w = try_assign cfg now n t (drop_ack t w)

-- wait_for(tensor_fut, t_max_ms) ends with what the future holds.
unfoldable pub tensor_awaited : Config → ℕ → Future → Task → World → World
tensor_awaited cfg now (result res) t w = suspend (record t { phase = inferring res }) w
tensor_awaited cfg now (failed status buf) t w =
    finish cfg now (row_of t (unserved status)) (ok tt, w)
tensor_awaited cfg now cancelled t w = release cfg now t.node_id w
tensor_awaited cfg now pending t w = suspend t w

-- It ends by its timeout: wait_for cancels the future before it raises.
unfoldable pub tensor_timeout : Config → ℕ → Task → World → World
tensor_timeout cfg now t w = finish cfg now (row_of t (unserved timeout)) (
    (on_reassembler (cancel t.tensor_fut)
        >> on_reassembler (abort t.req_id true)
        >> send_packet t.node_id (pack Kind.abort t.node_id t.req_id []))
      w)

-- tail.infer raises: no `except` takes it.
unfoldable pub tail_failed : Config → ℕ → Task → World → World
tail_failed cfg now t w = release cfg now t.node_id w

-- tail.infer ends.
unfoldable pub tail_awaited : Config → ℕ → Reassembled → TailResult → Task → World → World
tail_awaited cfg now res tail_res t w =
    finish cfg now
      (record {
        task = t;
        res = some res;
        tail_res = some tail_res;
        t_total_us = some (tail_res.t_done - t.t_assign);
        status = served;
      })
      (send_packet t.node_id
        (elim (pack_fields result_s (tail_res.pred_class, tt)) [
          | err e ↦ err e
          | ok payload ↦ pack Kind.result t.node_id t.req_id payload
        ])
        w)

-- if self._satisfied(st.node_id): continue
abbrev pub create_unless : ℕ → Result Bool → Exec World Unit
create_unless node_id (err e) w = (err e, w)
create_unless node_id (ok true) w = (ok tt, w)
create_unless node_id (ok false) w = (
  ok tt,
  record w { nodes = set_in_flight suc node_id w.nodes; created = w.created ++ node_id ∷ [] },
)

-- The body of the loop of `run` for one node.
unfoldable pub offer_work : ℕ → ℕ → Exec World Unit
offer_work now node_id w =
    if ltb now (get_or node_id 0 w.next_ok_time)
    then (ok tt, w)
    else create_unless node_id (satisfied w node_id) w

unfoldable pub offer_all : ℕ → List NodeState → Exec World Unit
offer_all now [] = pure tt
offer_all now (st ∷ sts) = offer_work now st.node_id >> offer_all now sts

-- One pass of `run`.
unfoldable pub tick : Config → ℕ → Exec World Unit
tick cfg now w = offer_all now (ready cfg now w.nodes) w
