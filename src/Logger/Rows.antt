-- ===== src/Logger/Rows.antt =====
-- The tables of orchestrator/logger.py and the methods that write them. The executor has one worker,
-- so inserts happen in the order in which they are submitted.
use split_inference.Base.{
  ℕ, String, ◌≡◌, refl, sym, ap, subst, inl, inr, true, false, Option, none, some, List, [], ◌∷◌,
  ◌++◌, map, if◌then◌else◌, nat_eqb, Bool-cases, ◌==◌, nat_eq, string_eq, pair_eq, ==-false, length,
}
use split_inference.Base.Dict.{Dict, get_or}
use split_inference.Base.Int.{ℤ, pos}
use split_inference.Policy.Choice.{contains}

-- A value of a column; `hex` is a number written with eight hexadecimal digits.
pub data Cell : Type 0 where
  null : Cell
  int : ℤ → Cell
  text : String → Cell
  hex : ℕ → Cell

-- The columns of the three tables, as SCHEMA declares them.
abbrev pub run_columns : List String
run_columns =
    "run_id" ∷ "started_at" ∷ "policy_name" ∷ "config_json" ∷ "git_hash" ∷ "cpu_max_khz" ∷ []

abbrev pub request_columns : List String
request_columns =
    "run_id" ∷ "req_id" ∷ "node_id" ∷ "tier" ∷ "action" ∷ "rssi_dbm" ∷ "t_assign" ∷ "t_capture_us"
    ∷ "t_edge_us" ∷ "t_first_frag" ∷ "t_last_frag" ∷ "n_frags" ∷ "n_retx" ∷ "t_queue_in"
    ∷ "t_queue_out" ∷ "t_tail_us" ∷ "t_total_ms" ∷ "status" ∷ "pred_class" ∷ "bytes_on_air" ∷ []

abbrev pub heartbeat_columns : List String
heartbeat_columns =
    "run_id" ∷ "ts" ∷ "node_id" ∷ "rssi" ∷ "free_heap" ∷ "temp" ∷ "boot_count" ∷ "fw_hash" ∷ []

-- REQUEST_COLS
abbrev pub request_cols : List String
request_cols =
    "req_id" ∷ "node_id" ∷ "tier" ∷ "action" ∷ "rssi_dbm" ∷ "t_assign" ∷ "t_capture_us"
    ∷ "t_edge_us" ∷ "t_first_frag" ∷ "t_last_frag" ∷ "n_frags" ∷ "n_retx" ∷ "t_queue_in"
    ∷ "t_queue_out" ∷ "t_tail_us" ∷ "t_total_ms" ∷ "status" ∷ "pred_class" ∷ "bytes_on_air" ∷ []

pub record Logger : Type 0 where
  pub run_id : Option String
  pub runs : List (List Cell)
  pub requests : List (List Cell)
  pub heartbeats : List (List Cell)

abbrev pub open_log : Logger
open_log = record { run_id = none; runs = []; requests = []; heartbeats = [] }

-- INSERT INTO … VALUES (?, …): SQLite refuses a number of values that is not that of the columns,
-- and the exception stays in the future that nobody reads.
unfoldable pub exec : List String → List Cell → List (List Cell) → List (List Cell)
exec columns vals table =
    if nat_eqb (length vals) (length columns) then table ++ vals ∷ [] else table

abbrev pub run_cell : Logger → Cell
run_cell l = elim l.run_id [ none ↦ null | some r ↦ text r ]

unfoldable pub start_run : String → String → String → String → String → Option ℕ → Logger → Logger
start_run run_id started_at policy_name config_json git_hash cpu_max_khz l = record l {
  run_id = some run_id;
  runs =
      exec run_columns
        (text run_id
          ∷ text started_at
          ∷ text policy_name
          ∷ text config_json
          ∷ text git_hash
          ∷ elim cpu_max_khz [ none ↦ null | some k ↦ int (pos k) ]
          ∷ [])
        l.runs;
}

-- (self.run_id,) + tuple(row.get(c) for c in REQUEST_COLS)
unfoldable pub request_values : Dict String Cell → Logger → List Cell
request_values row l = run_cell l ∷ map (λ c. get_or c null row) request_cols

unfoldable pub log_request : Dict String Cell → Logger → Logger
log_request row l = record l { requests = exec request_columns (request_values row l) l.requests }

unfoldable pub log_heartbeat : ℤ → ℕ → ℤ → ℕ → ℤ → ℕ → ℕ → Logger → Logger
log_heartbeat ts node_id rssi free_heap temp boot_count fw_hash l = record l {
  heartbeats =
      exec heartbeat_columns
        (run_cell l
          ∷ int ts
          ∷ int (pos node_id)
          ∷ int rssi
          ∷ int (pos free_heap)
          ∷ int temp
          ∷ int (pos boot_count)
          ∷ hex fw_hash
          ∷ [])
        l.heartbeats;
}

-- What a query reads from a row under a column's name.
abbrev pub column : String → List String → List Cell → Option Cell
column c [] vals = none
column c (k ∷ ks) [] = none
column c (k ∷ ks) (v ∷ vs) = if k == c then some v else column c ks vs

column-map :
    (f : String → Cell) (c : String) (ks : List String)
    → contains c ks ≡ true
    → column c ks (map f ks) ≡ some (f c)
column-map f c [] h = cc
column-map f c (k ∷ ks) h = elim (Bool-cases (k == c)) [
  | inl p ↦ rw (p) (ap (λ z. some (f z)) ((string_eq.beq_iff k c).0 p))
  | inr p ↦ rw (p) (column-map f c ks (rw (p) at h))
]

absent : contains "run_id" request_cols ≡ true → ⊥
absent h = cc

not_run_id : (c : String) → contains c request_cols ≡ true → ("run_id" == c) ≡ false
not_run_id c h =
    ==-false "run_id" c (λ e. absent (subst (λ z. contains z request_cols ≡ true) (sym e) h))

-- A logged request is one more row of the table `requests`: under each column of REQUEST_COLS it
-- holds what was given for it, or NULL, and under `run_id` the run.
pub log_request_lem :
    (row : Dict String Cell) (l : Logger)
    → (vals : List Cell) × ((log_request row l).requests ≡ l.requests ++ vals ∷ [])
      × (column "run_id" request_columns vals ≡ some (run_cell l))
      × ((c : String)
          → contains c request_cols ≡ true
          → column c request_columns vals ≡ some (get_or c null row))
unfolding log_request exec request_values
log_request_lem row l = (
  request_values row l,
  refl,
  refl,
  λ c h. rw (not_run_id c h) (column-map (λ c. get_or c null row) c request_cols h),
)
