-- ===== src/Preflight/Passed.antt =====
-- What scripts/preflight.py has checked when it reports no failure.
use split_inference.Base.{ℕ, ◌*◌, ◌<◌, max, ◌≡◌, true, some, map, nat_eq, string_eq, pair_eq, All}
use split_inference.Base.Dict.{get}
use split_inference.Config.Types.{Config}
use split_inference.Experiment.Best.{derive_best_table}
use split_inference.Preflight.Distinct.{has}
use split_inference.Preflight.Queries.{covered, counts}
use split_inference.Preflight.Gates.{Counts, EachCut, sum_counts}
use split_inference.Preflight.Verify.{Rehearsal, dbs, table_of}
use split_inference.Preflight.Counted.{IsUncorrupted, IsSteady}

-- The requests of all runs, and those that are not OK.
abbrev pub all_counts : Rehearsal → Counts
all_counts r = sum_counts (map (λ run. counts run.requests) (dbs r))

pub record IsRehearsed (cfg : Config) (r : Rehearsal) : Type 0 where
  pub exercised : All (EachCut cfg (λ x. has x (covered r.sweep.requests) ≡ true)) cfg.nodes
  pub uncorrupted : All IsUncorrupted (dbs r)
  pub reliable : 100 * (all_counts r).1.1 < 3 * max (all_counts r).0 1
  pub steady : All (λ run. IsSteady run.boot_counts) (dbs r)
  pub best_table : (n : ℕ) → get n (table_of r) ≡ get n (derive_best_table r.means)
  pub followed_table : All (λ q. get q.node_id (table_of r) ≡ some q.action) r.best.requests
  pub drawn : r.figures ≡ true
