-- ===== src/Examples/PolicyRuns.antt =====
-- The theorems on orchestrator/policy.py and orchestrator/experiment.py at concrete inputs.
use split_inference.Base.{
  ℕ, String, ◌≡◌, refl, true, Option, none, List, [], ◌∷◌, arith, leb, nat_eq, string_eq, pair_eq,
  ok,
}
use split_inference.Base.Dict.{get}
use split_inference.Config.Cuts.{cut_index, cuts_for_tier, index_of}
use split_inference.Policy.Choice.{Sweep, sweep, sweep_done, clamp, up_to, deepest}
use split_inference.Policy.Sweep.{selects, Tracks, sweep_blocks}
use split_inference.Policy.Clamp.{IsClamped, clamp-IsClamped}
use split_inference.Experiment.Best.{
  Row, IsBest, derive_best_table, derive_best_table-IsBest, action_of,
}
use split_inference.Experiment.Driver.{stop, all_done, stop-satisfied}
use split_inference.Scheduler.World.{satisfied}
use split_inference.Examples.SchedulerRuns.{entered}
use split_inference.Examples.Setup.{cfg}

-- Node 11 has had no dispatch, node 12 all of its own.
abbrev measuring : Sweep
measuring = record {
  reqs_per_cut = 2;
  cuts_by_node = (11, "k0" ∷ "k_shallow" ∷ []) ∷ (12, "k0" ∷ []) ∷ [];
  order = 12 ∷ 11 ∷ [];
  count = (12, 2) ∷ [];
}

unstarted : Tracks measuring 11 ("k0" ∷ "k_shallow" ∷ []) 0
unfolding get
unstarted = record { listed = refl; counted = refl }

sweep_blocks_example :
    ((selects 4 11 measuring).0 ≡ ok "k0" ∷ ok "k0" ∷ ok "k_shallow" ∷ ok "k_shallow" ∷ [])
    × ((n : ℕ) → sweep_done (selects n 11 measuring).1 11 ≡ ok (leb 4 n))
sweep_blocks_example = sweep_blocks measuring 11 ("k0" ∷ "k_shallow" ∷ []) (omega arith) unstarted

tier_cuts : cuts_for_tier cfg "A" ≡ ok ("k0" ∷ "k_shallow" ∷ [])
unfolding cuts_for_tier get
tier_cuts = refl

clamped : clamp cfg "A" "k_deep" ≡ ok "k_shallow"
unfolding clamp cuts_for_tier get cut_index index_of up_to deepest
clamped = refl

clamp-IsClamped_example : IsClamped cfg ("k0" ∷ "k_shallow" ∷ []) "k_deep" "k_shallow"
clamp-IsClamped_example =
    clamp-IsClamped cfg "A" "k_deep" "k_shallow" ("k0" ∷ "k_shallow" ∷ []) tier_cuts clamped

abbrev measured : List Row
measured = (11, ("k0", 90)) ∷ (12, ("k0", 10)) ∷ (11, ("k_shallow", 70)) ∷ []

derive_best_table-IsBest_example :
    (best : Option (String × ℕ)) × IsBest 11 measured best
    × (get 11 (derive_best_table measured) ≡ action_of best)
derive_best_table-IsBest_example = derive_best_table-IsBest measured 11

-- A sweep of node 12 alone, which is done.
abbrev finished : Sweep
finished = record measuring { order = 12 ∷ [] }

finished_done : stop (12 ∷ []) 3 (sweep finished) entered ≡ ok true
unfolding all_done sweep_done get
finished_done = refl

stop-satisfied_example :
    satisfied (record entered { policy = sweep finished; target_ok = none }) 12 ≡ ok true
stop-satisfied_example =
    stop-satisfied (12 ∷ []) 3 (sweep finished) entered refl finished_done 12 refl
