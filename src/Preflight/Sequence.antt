-- ===== src/Preflight/Sequence.antt =====
-- The runs that `main` of scripts/preflight.py makes, one after the other, each a process of
-- orchestrator/experiment.py; best_table.json is what one leaves to the next.
use split_inference.Base.{
  ℕ, ◌*◌, String, Bool, true, false, Option, none, some, List, [], ◌∷◌, map, nat_eqb, nat_eq,
  string_eq, pair_eq,
}
use split_inference.Base.Dict.{Dict}
use split_inference.Config.Types.{Config}
use split_inference.Experiment.Session.{
  Args, Outside, Effect, wrote_table, opened_log, started_server, started_tail, never_appeared,
  stopped_tail, closed_server, closed_log, printed_totals, amain, exit_code,
}

-- RUNS / "best_table.json" after some effects.
abbrev pub table_after : List Effect → Option (Dict ℕ String) → Option (Dict ℕ String)
table_after [] table = table
table_after (wrote_table t ∷ es) table = table_after es (some t)
table_after (opened_log ∷ es) table = table_after es table
table_after (started_server ∷ es) table = table_after es table
table_after (started_tail ∷ es) table = table_after es table
table_after (stopped_tail ∷ es) table = table_after es table
table_after (closed_server ∷ es) table = table_after es table
table_after (closed_log ∷ es) table = table_after es table
table_after (never_appeared missing ∷ es) table = table_after es table
table_after (printed_totals ok_all attempts ∷ es) table = table_after es table

abbrev pub succeeded : Option ℕ → Bool
succeeded none = false
succeeded (some code) = nat_eqb code 0

abbrev pub seconds : ℕ → ℕ
seconds n = n * 1_000_000

-- ["--policy", "sweep", "--max-duration", "900"], with the driver's defaults
abbrev pub sweep_args : Args
sweep_args = record {
  policy = "sweep";
  min_ok = none;
  sweep_reqs = none;
  max_duration = some (seconds 900);
  wait_timeout = seconds 180;
}

-- ["--policy", p, "--min-ok", str(args.reqs), "--max-duration", "600"]
abbrev pub policy_args : ℕ → String → Args
policy_args reqs p = record {
  policy = p;
  min_ok = some reqs;
  sweep_reqs = none;
  max_duration = some (seconds 600);
  wait_timeout = seconds 180;
}

-- POLICIES
abbrev pub policies : List String
policies = "k0" ∷ "k_shallow" ∷ "k_deep" ∷ "best" ∷ []

abbrev pub plan : ℕ → List Args
plan reqs = sweep_args ∷ map (policy_args reqs) policies

-- What a run finds outside, best_table.json being what the runs before it left.
abbrev pub outside_of : (String → Outside) → Args → Option (Dict ℕ String) → Outside
outside_of env args table = record (env args.policy) { best_path = table }

-- run_step: whether the process returned 0, and the table that it leaves.
unfoldable pub run_step :
    Config → ℕ → Args → Outside → Option (Dict ℕ String) → Bool × Option (Dict ℕ String)
run_step cfg fuel args o table =
    let (effects, ending) = amain cfg args o fuel in
    (succeeded (exit_code ending), table_after effects table)

-- The steps, up to the first that fails: it raises SystemExit.
unfoldable pub run_steps :
    Config
    → ℕ
    → (String → Outside)
    → List Args
    → Option (Dict ℕ String)
    → Option (Option (Dict ℕ String))
run_steps cfg fuel env [] table = some table
run_steps cfg fuel env (args ∷ rest) table =
    let (good, left) = run_step cfg fuel args (outside_of env args table) table in
    elim good [ true ↦ run_steps cfg fuel env rest left | false ↦ none ]

-- (RUNS / "best_table.json").unlink(missing_ok=True), and the steps of the plan
unfoldable pub run_plan : Config → ℕ → (String → Outside) → ℕ → Option (Option (Dict ℕ String))
run_plan cfg fuel env reqs = run_steps cfg fuel env (plan reqs) none
