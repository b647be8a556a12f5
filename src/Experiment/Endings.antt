-- ===== src/Experiment/Endings.antt =====
-- How `amain` of orchestrator/experiment.py ends.
use split_inference.Base.{
  elem, ℕ, ◌+◌, ◌<◌, String, ◌≡◌, Bool, true, false, none, some, List, [], ◌∷◌, nat_eq, string_eq,
  pair_eq, Fault, Result, ok, err,
}
use split_inference.Base.Dict.{Dict}
use split_inference.Config.Types.{Config}
use split_inference.Policy.Choice.{Policy, fixed_cut, sweep}
use split_inference.Scheduler.World.{World}
use split_inference.Experiment.Best.{Row, derive_best_table}
use split_inference.Experiment.Driver.{
  is_incomplete, absent_nodes, node_ids, target_of, quota, stop,
}
use split_inference.Experiment.Session.{
  Args, Outside, Effect, opened_log, started_server, started_tail, never_appeared, stopped_tail,
  closed_server, closed_log, wrote_table, printed_totals, Ending, returned, raised, choose,
}

-- What a run holds.
pub record Held : Type 0 where
  pub server : Bool
  pub tail : Bool
  pub log : Bool

abbrev pub nothing : Held
nothing = record { server = false; tail = false; log = false }

abbrev pub after : Effect → Held → Held
after opened_log h = record h { log = true }
after started_server h = record h { server = true }
after started_tail h = record h { tail = true }
after stopped_tail h = record h { tail = false }
after closed_server h = record h { server = false }
after closed_log h = record h { log = false }
after (never_appeared missing) h = h
after (wrote_table table) h = h
after (printed_totals ok_all attempts) h = h

unfoldable pub held : List Effect → Held → Held
held [] h = h
held (e ∷ es) h = held es (after e h)

abbrev pub tables : List Effect → List (Dict ℕ String)
tables [] = []
tables (wrote_table t ∷ es) = t ∷ tables es
tables (opened_log ∷ es) = tables es
tables (started_server ∷ es) = tables es
tables (started_tail ∷ es) = tables es
tables (stopped_tail ∷ es) = tables es
tables (closed_server ∷ es) = tables es
tables (closed_log ∷ es) = tables es
tables (never_appeared missing ∷ es) = tables es
tables (printed_totals ok_all attempts ∷ es) = tables es

-- The outcome of the scheduler's `run` under the policy of the arguments.
abbrev pub outcome : Config → Args → Outside → Policy → Result World
outcome cfg args o p =
    let target = target_of args.min_ok cfg in
    o.run args.max_duration (quota p target) (stop (node_ids cfg) target p) p

-- Only a sweep makes a best table.
abbrev pub best_tables : Policy → List Row → List (Dict ℕ String)
best_tables (fixed_cut name d) means = []
best_tables (sweep p) means = derive_best_table means ∷ []

-- What is left when `amain` ends: an exception before the run or out of it, no run, or a run.
pub data IsEnded (cfg : Config) (args : Args) (o : Outside) : List Effect × Ending → Type 0 where
  refused : (e : Fault) → choose cfg args o ≡ err e → IsEnded cfg args o ([], raised e)
  gave_up :
      (effects : List Effect) (k n : ℕ)
      → o.started + args.wait_timeout < (o.polls k).clock
      → elem n (absent_nodes cfg (o.polls k).later (o.polls k).nodes) ≡ true
      → held effects nothing ≡ nothing
      → tables effects ≡ []
      → IsEnded cfg args o (effects, returned none)
  failed :
      (effects : List Effect) (p : Policy) (e : Fault)
      → choose cfg args o ≡ ok p
      → outcome cfg args o p ≡ err e
      → held effects nothing ≡ record nothing { log = true }
      → tables effects ≡ []
      → IsEnded cfg args o (effects, raised e)
  ran :
      (effects : List Effect) (p : Policy) (w : World) (k : ℕ)
      → choose cfg args o ≡ ok p
      → is_incomplete cfg (o.polls k).now (o.polls k).nodes ≡ false
      → outcome cfg args o p ≡ ok w
      → held effects nothing ≡ nothing
      → tables effects ≡ best_tables p o.means
      → IsEnded cfg args o (effects, returned (some o.run_id))
