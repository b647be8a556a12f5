-- ===== src/Examples/DriverRuns.antt =====
-- The theorem on `amain` of orchestrator/experiment.py at a fleet that does not appear.
use split_inference.Base.{
  ◌+◌, ◌*◌, ◌≡◌, refl, none, [], ◌∷◌, nat_eq, string_eq, pair_eq, value_error, err,
}
use split_inference.Base.Dict.{get, put}
use split_inference.Slicer.Graph.{sorted_set, insert}
use split_inference.Config.Cuts.{cuts_for_tier}
use split_inference.Policy.Choice.{make_policy, clamp}
use split_inference.Registry.Table.{initial, alive, is_lost}
use split_inference.Experiment.Driver.{is_incomplete}
use split_inference.Experiment.Session.{
  Args, Outside, opened_log, started_server, started_tail, never_appeared, stopped_tail,
  closed_server, closed_log, returned, wait_nodes, choose, amain,
}
use split_inference.Examples.Setup.{cfg}

abbrev args : Args
args = record {
  policy = "k0";
  min_ok = none;
  sweep_reqs = none;
  max_duration = none;
  wait_timeout = 300_000;
}

-- No node sends a heartbeat.
abbrev outside : Outside
outside = record {
  best_path = none;
  run_id = "20250101-120000_k0";
  started = 1_000_000;
  polls = λ k. record {
    nodes = initial cfg;
    now = 1_000_000 + k * 200_000;
    clock = 1_000_000 + k * 200_000;
    later = 1_000_000 + k * 200_000;
  };
  run = λ cap target stops p. err value_error;
  means = [];
}

-- It gives up at the third poll.
gives_up : amain cfg args outside 3 ≡ (
  opened_log
      ∷ started_server
      ∷ started_tail
      ∷ never_appeared (11 ∷ [])
      ∷ stopped_tail
      ∷ closed_server
      ∷ closed_log
      ∷ [],
  returned none,
)
unfolding amain choose wait_nodes is_incomplete alive is_lost make_policy clamp cuts_for_tier
    initial get put sorted_set insert
gives_up = refl
