-- ===== src/Examples/HandoverRuns.antt =====
-- The theorem on the runs of scripts/preflight.py, with a fleet that is there at once.
use split_inference.Base.{
  String, ◌≡◌, refl, none, some, List, [], ◌∷◌, nat_eq, string_eq, pair_eq, ok,
}
use split_inference.Base.Dict.{get, put}
use split_inference.Config.Cuts.{cut_index, cuts_for_tier, index_of}
use split_inference.Policy.Choice.{fixed_cut, make_policy, new_sweep, clamp, up_to, deepest}
use split_inference.Registry.Table.{alive, is_lost}
use split_inference.Experiment.Best.{Row, best_of, derive_best_table}
use split_inference.Experiment.Driver.{is_incomplete, total}
use split_inference.Experiment.Session.{Outside, choose, wait_nodes, session, amain}
use split_inference.Preflight.Sequence.{policy_args, outside_of, run_step, run_steps, run_plan}
use split_inference.Preflight.Handover.{run_plan-hands_over}
use split_inference.Examples.Setup.{cfg}
use split_inference.Examples.SchedulerRuns.{entered, seen}

abbrev averages : List Row
averages = (11, ("k0", 90)) ∷ (11, ("k_shallow", 70)) ∷ []

abbrev present : String → Outside
present kind = record {
  best_path = none;
  run_id = kind;
  started = 1000;
  polls = λ k. record { nodes = (11, seen) ∷ []; now = 2000; clock = 2000; later = 2000 };
  run = λ cap target stops p. ok entered;
  means = averages;
}

all_pass : run_plan cfg 1 present 60 ≡ some (some ((11, "k_shallow") ∷ []))
unfolding run_plan run_steps run_step amain choose wait_nodes session is_incomplete alive is_lost
    make_policy new_sweep clamp cuts_for_tier get put cut_index index_of up_to deepest
    derive_best_table best_of total
all_pass = refl

run_plan-hands_over_example :
    (some ((11, "k_shallow") ∷ []) ≡ some (derive_best_table averages))
    × (choose cfg
          (policy_args 60 "best")
          (outside_of present (policy_args 60 "best") (some ((11, "k_shallow") ∷ [])))
        ≡ ok (fixed_cut "best" (derive_best_table averages)))
run_plan-hands_over_example =
    run_plan-hands_over cfg 1 present 60 (some ((11, "k_shallow") ∷ [])) all_pass
