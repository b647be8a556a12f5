-- ===== src/Preflight/Queries.antt =====
-- The rows of the run databases that scripts/preflight.py looks at, and what its queries return.
use split_inference.Base.{
  ℕ, ◌-◌, min, max, String, not, Option, none, some, List, [], ◌∷◌, map, ltb, nat_eqb, ◌==◌, nat_eq,
  string_eq, pair_eq, length, keep_if,
}
use split_inference.Preflight.Distinct.{distinct}

-- A row of the table `requests`, by the columns that are read.
pub record Request : Type 0 where
  pub node_id : ℕ
  pub action : String
  pub status : String

-- A run: its name, its requests, and the boot counts of its heartbeats.
pub record Run : Type 0 where
  pub name : String
  pub requests : List Request
  pub boot_counts : List ℕ

-- SELECT … WHERE status=…
abbrev pub with_status : String → List Request → List Request
with_status s rows = keep_if (λ r. r.status == s) rows

-- SELECT … WHERE status!=…
abbrev pub without_status : String → List Request → List Request
without_status s rows = keep_if (λ r. not (r.status == s)) rows

-- SELECT node_id, action FROM requests
abbrev pub pairs : List Request → List (ℕ × String)
pairs rows = map (λ r. (r.node_id, r.action)) rows

-- SELECT DISTINCT node_id, action FROM requests WHERE status='OK'
abbrev pub covered : List Request → List (ℕ × String)
covered rows = distinct (pairs (with_status "OK" rows))

-- SELECT COUNT(*) FROM requests, alone and with status='CRC' and with status!='OK'
abbrev pub counts : List Request → ℕ × (ℕ × ℕ)
counts rows = (length rows, (length (with_status "CRC" rows), length (without_status "OK" rows)))

abbrev pub max_of : List ℕ → ℕ
max_of [] = 0
max_of (b ∷ bs) = max b (max_of bs)

abbrev pub min_of : ℕ → List ℕ → ℕ
min_of b [] = b
min_of b (c ∷ bs) = min c (min_of b bs)

-- SELECT MAX(boot_count) - MIN(boot_count) FROM heartbeats, NULL without heartbeats
abbrev pub spread : List ℕ → Option ℕ
spread [] = none
spread (b ∷ bs) = some (max b (max_of bs) - min_of b bs)

abbrev pub actions_of : ℕ → List Request → List String
actions_of n rows = map (λ r. r.action) (keep_if (λ r. nat_eqb n r.node_id) rows)

-- SELECT node_id, COUNT(DISTINCT action) FROM requests GROUP BY node_id
abbrev pub action_counts : List Request → List (ℕ × ℕ)
action_counts rows =
    map (λ n. (n, length (distinct (actions_of n rows)))) (distinct (map (λ r. r.node_id) rows))

-- … HAVING COUNT(DISTINCT action) > 1
abbrev pub multi : List Request → List (ℕ × ℕ)
multi rows = keep_if (λ g. ltb 1 g.1) (action_counts rows)
