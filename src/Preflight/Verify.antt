-- ===== src/Preflight/Verify.antt =====
-- The verification that `main` of scripts/preflight.py makes when the runs are done.
use split_inference.Base.{
  concat, ℕ, String, ◌≡◌, Bool, true, some, List, [], ◌∷◌, ◌++◌, map, nat_eq, string_eq, pair_eq,
  Result, ok, ◌>>=◌, concat, All,
}
use split_inference.Base.Dict.{Dict, get}
use split_inference.Base.Dict.Equality.{to_dict}
use split_inference.Config.Types.{Config}
use split_inference.Experiment.Best.{Row}
use split_inference.Preflight.Distinct.{has}
use split_inference.Preflight.Queries.{Request, Run, pairs, covered, counts, spread, multi}
use split_inference.Preflight.Gates.{
  Failure, coverage_gate, integrity_gates, reboot_gate, table_gate, dispatch_gate, figures_gate,
}

-- What the runs left: the databases, the rows of the averages of the sweep, best_table.json, the
-- rows of `SELECT node_id, action … GROUP BY node_id` in the best run, and whether figures.py
-- returned 0.
pub record Rehearsal : Type 0 where
  pub sweep : Run
  pub fixed : List Run
  pub best : Run
  pub means : List Row
  pub table : List (ℕ × String)
  pub grouped : List (ℕ × String)
  pub figures : Bool

-- dbs.values()
abbrev pub dbs : Rehearsal → List Run
dbs r = r.sweep ∷ r.fixed ++ r.best ∷ []

-- {int(k): v for k, v in json.loads(…).items()}
abbrev pub table_of : Rehearsal → Dict ℕ String
table_of r = to_dict r.table []

-- {int(n): a for n, a in q(…)}
abbrev pub dispatched : Rehearsal → Dict ℕ String
dispatched r = to_dict r.grouped []

-- What the gates after the first report, each in turn.
abbrev pub reports : Rehearsal → List (List Failure)
reports r =
    integrity_gates (map (λ run. counts run.requests) (dbs r))
    ∷ reboot_gate (map (λ run. (run.name, spread run.boot_counts)) (dbs r))
    ∷ table_gate (table_of r) r.means
    ∷ dispatch_gate (table_of r) (dispatched r) (multi r.best.requests)
    ∷ figures_gate r.figures
    ∷ []

-- The list `failures` at the end of `main`.
unfoldable pub verify : Config → Rehearsal → Result (List Failure)
verify cfg r = coverage_gate cfg (covered r.sweep.requests) >>= λ v1. ok (concat (v1 ∷ reports r))

-- What SQLite promises of a column beside GROUP BY: every group has a row, with the column of one
-- of its rows.
abbrev pub IsGrouped : List Request → Dict ℕ String → Type 0
IsGrouped rows groups =
    All
      (λ q.
        (a : String) × (get q.node_id groups ≡ some a) × (has (q.node_id, a) (pairs rows) ≡ true))
      rows
