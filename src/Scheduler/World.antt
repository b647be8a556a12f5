-- ===== src/Scheduler/World.antt =====
-- The state that `Scheduler` works on, orchestrator/scheduler.py: its own fields and the registry,
-- policy, reassembler, control socket and log that it calls. Times are whole microseconds.
use split_inference.Base.{
  ℕ, String, Bool, true, false, Option, none, some, List, [], ◌∷◌, ◌++◌, leb, nat_eq, string_eq,
  pair_eq, Result, ok, err,
}
use split_inference.Base.Dict.{Dict, get, get_or, put}
use split_inference.Base.Int.{ℤ}
use split_inference.Wire.Struct.{Bytes}
use split_inference.Policy.Choice.{Policy, wants}
use split_inference.Reassembly.State.{Addr, Status, Reassembled, Reassembler}
use split_inference.Registry.Table.{Nodes}

pub record TailResult : Type 0 where
  pub pred_class : ℕ
  pub t_queue_in : ℕ
  pub t_queue_out : ℕ
  pub t_tail_us : ℕ
  pub t_done : ℕ

-- "OK", "LOST", or the status of a ReassemblyError.
pub data Verdict : Type 0 where
  served lost : Verdict
  unserved : Status → Verdict

-- What a `_handle` awaits: an ASSIGN_ACK with so many tries left after this one, the tensor, or the
-- tail.
pub data Phase : Type 0 where
  assigning : ℕ → Phase
  receiving : Phase
  inferring : Reassembled → Phase

-- The local variables of a `_handle`.
pub record Task : Type 0 where
  pub node_id : ℕ
  pub req_id : ℕ
  pub tier : String
  pub arm : String
  pub action_idx : ℕ
  pub rssi : ℤ
  pub t_assign : ℕ
  pub tensor_fut : ℕ
  pub phase : Phase

-- The arguments of log_request.
pub record Row : Type 0 where
  pub task : Task
  pub res : Option Reassembled
  pub tail_res : Option TailResult
  pub t_total_us : Option ℕ
  pub status : Verdict

-- `acks` holds for each future whether it is done. `created` are the tasks of `run` that have not
-- started, `dead` those that raised before the `try` of `_handle`.
pub record World : Type 0 where
  pub nodes : Nodes
  pub policy : Policy
  pub reassembler : Reassembler
  pub req_counter : ℕ
  pub acks : Dict (ℕ × ℕ) Bool
  pub ok_count : Dict ℕ ℕ
  pub attempts : Dict ℕ ℕ
  pub next_ok_time : Dict ℕ ℕ
  pub target_ok : Option ℕ
  pub created : List ℕ
  pub tasks : List Task
  pub dead : List ℕ
  pub sent_ctrl : List (Addr × Bytes)
  pub rows : List Row

-- server.send_ctrl: `if addr: sendto(datagram, addr)`
abbrev pub send_ctrl : Option Addr → Bytes → World → World
send_ctrl none datagram w = w
send_ctrl (some addr) datagram w = record w { sent_ctrl = w.sent_ctrl ++ (addr, datagram) ∷ [] }

abbrev pub ctrl_addr : ℕ → World → Option Addr
ctrl_addr node_id w = elim (get node_id w.nodes) [ none ↦ none | some st ↦ st.ctrl_addr ]

-- A write to `st.in_flight`.
unfoldable pub set_in_flight : (ℕ → ℕ) → ℕ → Nodes → Nodes
set_in_flight f node_id nodes = elim (get node_id nodes) [
  | none ↦ nodes
  | some st ↦ put node_id (record st { in_flight = f st.in_flight }) nodes
]

-- self.target_ok is not None and self.ok_count.get(node_id, 0) >= self.target_ok
abbrev pub has_quota : Option ℕ → ℕ → Bool
has_quota none n = false
has_quota (some target) n = leb target n

unfoldable pub satisfied : World → ℕ → Result Bool
satisfied w node_id = elim (wants w.policy node_id) [
  | err e ↦ err e
  | ok false ↦ ok true
  | ok true ↦ ok (has_quota w.target_ok (get_or node_id 0 w.ok_count))
]

-- if fut and not fut.done(): fut.set_result(True)
unfoldable pub on_assign_ack : ℕ → ℕ → World → World
on_assign_ack node_id req_id w = elim (get (node_id, req_id) w.acks) [
  | some false ↦ record w { acks = put (node_id, req_id) true w.acks }
  | some true ↦ w
  | none ↦ w
]
