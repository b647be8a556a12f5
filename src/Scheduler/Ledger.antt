-- ===== src/Scheduler/Ledger.antt =====
-- The counts of orchestrator/scheduler.py against its log: `attempts`, `ok_count`, and the rows.
use split_inference.Base.{
  ℕ, ◌+◌, ◌≤◌, ◌≡◌, refl, sym, ap, ◌∙◌, Option, none, some, List, [], ◌∷◌, ◌++◌, arith, leb,
  if◌then◌else◌, nat_eq, string_eq, pair_eq, Result, ok, err,
}
use split_inference.Base.Exec.{Exec}
use split_inference.Base.Dict.{get_or}
use split_inference.Wire.Struct.{Bytes}
use split_inference.Config.Types.{Config}
use split_inference.Reassembly.State.{Addr, Reassembler}
use split_inference.Registry.Table.{Nodes, mark_lost}
use split_inference.Scheduler.World.{
  Verdict, served, lost, unserved, Task, Row, World, send_ctrl, ctrl_addr,
}
use split_inference.Scheduler.Handle.{
  on_reassembler, keep_nodes, lose_node, send_packet, release, suspend,
}
use split_inference.Scheduler.Load.{one_if, of_tasks}

-- The rows of a node, those of them with status OK, and those of a request.
abbrev pub of_rows : ℕ → List Row → ℕ
of_rows n [] = 0
of_rows n (row ∷ rows) = one_if n row.task.node_id + of_rows n rows

abbrev pub if_served : Verdict → ℕ → ℕ
if_served served k = k
if_served lost k = 0
if_served (unserved status) k = 0

abbrev pub served_rows : ℕ → List Row → ℕ
served_rows n [] = 0
served_rows n (row ∷ rows) = if_served row.status (one_if n row.task.node_id) + served_rows n rows

abbrev pub logged : ℕ → List Row → ℕ
logged i [] = 0
logged i (row ∷ rows) = one_if i row.task.req_id + logged i rows

-- The tasks of a request.
abbrev pub running : ℕ → List Task → ℕ
running i [] = 0
running i (t ∷ ts) = one_if i t.req_id + running i ts

-- A request has room for one row or task as soon as it has its number.
abbrev pub room : ℕ → ℕ → ℕ
room i counter = if leb i counter then 1 else 0

-- The counts agree with the log, `hand` being the tasks that run just now: `ok_count` of a node is
-- the number of its OK rows, `attempts` at least that of its rows and tasks, and a request is logged
-- or runs at most once, and not at all before it got its number.
pub record IsLedger (hand : List Task) (w : World) : Type 0 where
  pub ok_rows : (n : ℕ) → get_or n 0 w.ok_count ≡ served_rows n w.rows
  pub attempted : (n : ℕ) → of_rows n w.rows + of_tasks n (hand ++ w.tasks) ≤ get_or n 0 w.attempts
  pub once : (i : ℕ) → logged i w.rows + running i (hand ++ w.tasks) ≤ room i w.req_counter

-- What leaves the counts, the log and the tasks alone.
pub record IsUnbooked (v w : World) : Type 0 where
  pub oks : w.ok_count ≡ v.ok_count
  pub tries : w.attempts ≡ v.attempts
  pub log : w.rows ≡ v.rows
  pub tasks : w.tasks ≡ v.tasks
  pub counter : w.req_counter ≡ v.req_counter

pub unbooked : (w : World) → IsUnbooked w w
unbooked w = record { oks = refl; tries = refl; log = refl; tasks = refl; counter = refl }

pub IsLedger-IsUnbooked :
    (hand : List Task) (v w : World) → IsLedger hand v → IsUnbooked v w → IsLedger hand w
IsLedger-IsUnbooked hand v w l k = record {
  ok_rows = λ n. ap (λ d. get_or n 0 d) k.oks ∙ l.ok_rows n ∙ ap (served_rows n) (sym k.log);
  attempted = λ n.
      let before = l.attempted n in
      omega (
        arith,
        before,
        ap (of_rows n) k.log,
        ap (λ ts. of_tasks n (hand ++ ts)) k.tasks,
        ap (λ d. get_or n 0 d) k.tries,
      );
  once = λ i.
      let before = l.once i in
      omega (
        arith,
        before,
        ap (logged i) k.log,
        ap (λ ts. running i (hand ++ ts)) k.tasks,
        ap (room i) k.counter,
      );
}

-- A task that ends without a row.
pub drop-IsLedger : (t : Task) (w : World) → IsLedger (t ∷ []) w → IsLedger [] w
drop-IsLedger t w l = record {
  ok_rows = l.ok_rows;
  attempted = λ n. omega (arith, l.attempted n);
  once = λ i. omega (arith, l.once i);
}

pub suspend-IsLedger : (t : Task) (w : World) → IsLedger (t ∷ []) w → IsLedger [] (suspend t w)
suspend-IsLedger t w l = record { ok_rows = l.ok_rows; attempted = l.attempted; once = l.once }

running-middle :
    (i : ℕ) (t : Task) (before after : List Task)
    → running i (before ++ t ∷ after) ≡ running i (before ++ after) + one_if i t.req_id
running-middle i t [] after = omega arith
running-middle i t (k ∷ before) after = omega (arith, running-middle i t before after)

tasks-middle :
    (n : ℕ) (t : Task) (before after : List Task)
    → of_tasks n (before ++ t ∷ after) ≡ of_tasks n (before ++ after) + one_if n t.node_id
tasks-middle n t [] after = omega arith
tasks-middle n t (k ∷ before) after = omega (arith, tasks-middle n t before after)

-- A suspended task goes on.
pub resume-IsLedger :
    (w : World) (t : Task) (before after : List Task)
    → w.tasks ≡ before ++ t ∷ after
    → IsLedger [] w
    → IsLedger (t ∷ []) (record w { tasks = before ++ after })
resume-IsLedger w t before after e l = record {
  ok_rows = l.ok_rows;
  attempted = λ n. omega (arith, l.attempted n, ap (of_tasks n) e, tasks-middle n t before after);
  once = λ i. omega (arith, l.once i, ap (running i) e, running-middle i t before after);
}

pub send_packet-IsUnbooked :
    (node_id : ℕ) (r : Result Bytes) (v w : World)
    → IsUnbooked v w
    → IsUnbooked v (send_packet node_id r w).1
unfolding send_packet
send_packet-IsUnbooked node_id (err e) v w k = k
send_packet-IsUnbooked node_id (ok d) v w k = to (ctrl_addr node_id w)
  where
    to : (a : Option Addr) → IsUnbooked v (send_ctrl a d w)
    to none = k
    to (some a) = record {
      oks = k.oks;
      tries = k.tries;
      log = k.log;
      tasks = k.tasks;
      counter = k.counter;
    }

pub lose_node-IsUnbooked :
    (node_id : ℕ) (v w : World) → IsUnbooked v w → IsUnbooked v (lose_node node_id w).1
unfolding lose_node
lose_node-IsUnbooked node_id v w k = split (mark_lost node_id w.nodes)
  where
    split : (r : Result Nodes) → IsUnbooked v (keep_nodes r w).1
    split (err e) = k
    split (ok nodes) = record {
      oks = k.oks;
      tries = k.tries;
      log = k.log;
      tasks = k.tasks;
      counter = k.counter;
    }

pub on_reassembler-IsUnbooked :
    {A : Type 0} (m : Exec Reassembler A) (v w : World)
    → IsUnbooked v w
    → IsUnbooked v (on_reassembler m w).1
unfolding on_reassembler
on_reassembler-IsUnbooked m v w k = record {
  oks = k.oks;
  tries = k.tries;
  log = k.log;
  tasks = k.tasks;
  counter = k.counter;
}

pub release-IsUnbooked :
    (cfg : Config) (now n : ℕ) (v w : World) → IsUnbooked v w → IsUnbooked v (release cfg now n w)
unfolding release
release-IsUnbooked cfg now n v w k = record {
  oks = k.oks;
  tries = k.tries;
  log = k.log;
  tasks = k.tasks;
  counter = k.counter;
}
