-- ===== src/Examples/PreflightRuns.antt =====
-- The theorem on scripts/preflight.py at a concrete rehearsal.
use split_inference.Base.{String, ◌≡◌, refl, true, [], ◌∷◌, nat_eq, string_eq, pair_eq, ok}
use split_inference.Base.Dict.{get, put}
use split_inference.Base.Dict.Equality.{to_dict, holds_item, all_in, dict_eqb}
use split_inference.Config.Cuts.{cuts_for_tier}
use split_inference.Preflight.Queries.{Request, Run}
use split_inference.Preflight.Gates.{
  corrupt, failure_rate, coverage_gate, expected_pairs, integrity_gates, sum_counts, reboot_gate,
  table_gate, dispatch_gate, argmin,
}
use split_inference.Preflight.Verify.{Rehearsal, verify}
use split_inference.Examples.Setup.{cfg}

abbrev row : String → String → Request
row action status = record { node_id = 11; action = action; status = status }

abbrev run_of : String → String → Run
run_of name action = record {
  name = name;
  requests = row action "OK" ∷ row action "OK" ∷ [];
  boot_counts = 4 ∷ 4 ∷ [];
}

abbrev rehearsal : Rehearsal
rehearsal = record {
  sweep = record {
    name = "sweep";
    requests = row "k0" "OK" ∷ row "k_shallow" "OK" ∷ [];
    boot_counts = 4 ∷ [];
  };
  fixed = run_of "k0" "k0" ∷ [];
  best = run_of "best" "k_shallow";
  means = (11, ("k0", 90)) ∷ (11, ("k_shallow", 70)) ∷ [];
  table = (11, "k_shallow") ∷ [];
  grouped = (11, "k_shallow") ∷ [];
  figures = true;
}

-- One request of the best run with CRC fails the rehearsal twice: 1 of 6 is above 3 %.
torn :
    verify cfg (record rehearsal {
      best = record {
        name = "best";
        requests = row "k_shallow" "OK" ∷ row "k_shallow" "CRC" ∷ [];
        boot_counts = [];
      };
    })
    ≡ ok (corrupt 1 ∷ failure_rate 1 6 ∷ [])
unfolding verify coverage_gate expected_pairs cuts_for_tier integrity_gates sum_counts reboot_gate
    table_gate dispatch_gate argmin to_dict dict_eqb all_in holds_item get put
torn = refl
