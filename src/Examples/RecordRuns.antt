-- ===== src/Examples/RecordRuns.antt =====
-- The theorem on orchestrator/tail.py at a concrete run.
use split_inference.Base.{◌≡◌, none, [], ◌∷◌, nat_eq, string_eq, pair_eq, range}
use split_inference.Tail.Fifo.{
  Tail, empty, infer, take_job, end_job, asked, taken, ended, Reach, started, next, line,
  Reach-line,
}

-- Two requests, the first of which the interpreter fails.
abbrev served : Tail
served = infer "k_shallow" (2 ∷ []) 30 (end_job 20 none (take_job 10 (infer "k0" (1 ∷ []) 0 empty)))

served-Reach : Reach served
served-Reach =
    next (next (next (next started (asked "k0" (1 ∷ []) 0)) (taken 10)) (ended 20 none))
      (asked "k_shallow" (2 ∷ []) 30)

Reach-line_example : line served ≡ range served.next_fut
Reach-line_example = Reach-line served served-Reach
