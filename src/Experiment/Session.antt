-- ===== src/Experiment/Session.antt =====
-- `amain` of orchestrator/experiment.py, as what it does to the outside, in order. A poll is one round
-- of its waiting loop; between two polls it sleeps. The bodies of the scheduler's `run`, the files and
-- the averages of the finished database are given.
use split_inference.Base.{
  ℕ, zero, suc, ◌+◌, String, Bool, true, false, Option, none, some, List, [], ◌∷◌, ◌++◌, ltb,
  if◌then◌else◌, ◌==◌, nat_eq, string_eq, pair_eq, Fault, assertion_error, Result, ok, err,
  or_raise, ◌>>=◌,
}
use split_inference.Base.Dict.{Dict}
use split_inference.Config.Types.{Config}
use split_inference.Policy.Choice.{Policy, fixed_cut, sweep, make_policy}
use split_inference.Registry.Table.{Nodes}
use split_inference.Scheduler.World.{World}
use split_inference.Slicer.Graph.{sorted_set}
use split_inference.Experiment.Best.{Row, derive_best_table}
use split_inference.Experiment.Driver.{
  override_reqs, is_incomplete, absent_nodes, node_ids, target_of, quota, stop, total,
}

pub record Args : Type 0 where
  pub policy : String
  pub min_ok : Option ℕ
  pub sweep_reqs : Option ℕ
  pub max_duration : Option ℕ
  pub wait_timeout : ℕ

-- The registry at a poll, and the clock as the loop's condition, the deadline's test and the list of
-- the missing nodes read it.
pub record Poll : Type 0 where
  pub nodes : Nodes
  pub now : ℕ
  pub clock : ℕ
  pub later : ℕ

-- What the files, the clock and the fleet answer.
pub record Outside : Type 0 where
  pub best_path : Option (Dict ℕ String)
  pub run_id : String
  pub started : ℕ
  pub polls : ℕ → Poll
  pub run : Option ℕ → Option ℕ → (World → Result Bool) → Policy → Result World
  pub means : List Row

pub data Effect : Type 0 where
  opened_log : Effect
  started_server : Effect
  started_tail : Effect
  never_appeared : List ℕ → Effect
  stopped_tail : Effect
  closed_server : Effect
  closed_log : Effect
  wrote_table : Dict ℕ String → Effect
  printed_totals : ℕ → ℕ → Effect

-- The end of the waiting loop.
pub data Wait : Type 0 where
  complete : Wait
  aborted : List ℕ → Wait
  unfinished : Wait

pub data Ending : Type 0 where
  returned : Option String → Ending
  raised : Fault → Ending
  waiting : Ending

-- while len(registry.alive()) < len(cfg.nodes): …
unfoldable pub wait_nodes : Config → ℕ → (ℕ → Poll) → ℕ → ℕ → Wait
wait_nodes cfg deadline polls zero k = unfinished
wait_nodes cfg deadline polls (suc fuel) k =
    elim (is_incomplete cfg (polls k).now (polls k).nodes) [
      | false ↦ complete
      | true ↦ elim (ltb deadline (polls k).clock) [
        | true ↦ aborted (sorted_set (absent_nodes cfg (polls k).later (polls k).nodes))
        | false ↦ wait_nodes cfg deadline polls fuel (suc k)
      ]
    ]

-- if args.policy == "best": assert best_path.exists(); …
abbrev pub load_best : String → Option (Dict ℕ String) → Result (Option (Dict ℕ String))
load_best policy best_path =
    if policy == "best"
    then (or_raise assertion_error best_path >>= λ table. ok (some table))
    else ok none

unfoldable pub choose : Config → Args → Outside → Result Policy
choose cfg args o = load_best args.policy o.best_path >>= λ best.
    make_policy args.policy cfg best >>= λ p. ok (override_reqs args.sweep_reqs p)

-- if isinstance(policy, Sweep): …
abbrev pub write_best : Policy → List Row → List Effect
write_best (fixed_cut name d) means = []
write_best (sweep p) means = wrote_table (derive_best_table means) ∷ []

abbrev pub started_all : List Effect
started_all = opened_log ∷ started_server ∷ started_tail ∷ []

-- try: await scheduler.run(…) finally: … and what follows it.
abbrev pub after_run : Outside → Policy → Result World → List Effect × Ending
after_run o p (err e) = (stopped_tail ∷ closed_server ∷ [], raised e)
after_run o p (ok w) = (
  stopped_tail ∷ closed_server ∷ closed_log ∷ write_best p o.means
      ++ printed_totals (total w.ok_count) (total w.attempts) ∷ [],
  returned (some o.run_id),
)

unfoldable pub session : Config → Args → Outside → Policy → List Effect × Ending
session cfg args o p =
    let target = target_of args.min_ok cfg in
    after_run o p (o.run args.max_duration (quota p target) (stop (node_ids cfg) target p) p)

abbrev pub after_wait : Config → Args → Outside → Policy → Wait → List Effect × Ending
after_wait cfg args o p complete = session cfg args o p
after_wait cfg args o p (aborted missing) =
    (never_appeared missing ∷ stopped_tail ∷ closed_server ∷ closed_log ∷ [], returned none)
after_wait cfg args o p unfinished = ([], waiting)

abbrev pub after_choice : Config → Args → Outside → ℕ → Result Policy → List Effect × Ending
after_choice cfg args o fuel (err e) = ([], raised e)
after_choice cfg args o fuel (ok p) =
    let (effects, ending) =
      after_wait cfg args o p (wait_nodes cfg (o.started + args.wait_timeout) o.polls fuel 0) in
    (started_all ++ effects, ending)

unfoldable pub amain : Config → Args → Outside → ℕ → List Effect × Ending
amain cfg args o fuel = after_choice cfg args o fuel (choose cfg args o)

-- `main`: an incomplete fleet exits with 1, as an exception does.
abbrev pub exit_code : Ending → Option ℕ
exit_code (returned (some run_id)) = some 0
exit_code (returned none) = some 1
exit_code (raised e) = some 1
exit_code waiting = none
