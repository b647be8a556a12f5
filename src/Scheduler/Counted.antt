-- ===== src/Scheduler/Counted.antt =====
-- Counts of orchestrator/scheduler.py after one more.
use split_inference.Base.{
  ℕ, ◌+◌, ◌≡◌, refl, ap, ◌∙◌, Bool, true, false, Option, none, some, List, [], ◌∷◌, ◌++◌, arith,
  if◌then◌else◌, nat_eqb_iff, ◌==◌, nat_eq, string_eq, pair_eq,
}
use split_inference.Base.Dict.{Dict, get, get_or, put, get-put}
use split_inference.Scheduler.World.{Row}
use split_inference.Scheduler.Load.{one_if}
use split_inference.Scheduler.Ledger.{of_rows, if_served, served_rows, logged}

pub count_up :
    (m n : ℕ) (d : Dict ℕ ℕ) → get_or n 0 (put m (get_or m 0 d + 1) d) ≡ one_if n m + get_or n 0 d
count_up m n d =
    ap (λ (o : Option ℕ). elim o [ none ↦ 0 | some w ↦ w ]) (get-put m n (get_or m 0 d + 1) d)
    ∙ split (m == n) refl
  where
    split :
        (b : Bool)
        → (m == n) ≡ b
        → elim (if b then some (get_or m 0 d + 1) else get n d) as (λ _. ℕ) [
          | none ↦ 0
          | some w ↦ w
        ]
          ≡ (if b then 1 else 0) + get_or n 0 d
    split true p =
        let same : get_or m 0 d ≡ get_or n 0 d = ap (λ k. get_or k 0 d) ((nat_eqb_iff m n).0 p) in
        omega arith
    split false p = omega arith

pub rows-snoc :
    (n : ℕ) (rows : List Row) (row : Row)
    → of_rows n (rows ++ row ∷ []) ≡ one_if n row.task.node_id + of_rows n rows
rows-snoc n [] row = refl
rows-snoc n (r ∷ rows) row = omega (arith, rows-snoc n rows row)

pub served-snoc :
    (n : ℕ) (rows : List Row) (row : Row)
    → served_rows n (rows ++ row ∷ [])
      ≡ if_served row.status (one_if n row.task.node_id) + served_rows n rows
served-snoc n [] row = refl
served-snoc n (r ∷ rows) row = omega (arith, served-snoc n rows row)

pub logged-snoc :
    (i : ℕ) (rows : List Row) (row : Row)
    → logged i (rows ++ row ∷ []) ≡ one_if i row.task.req_id + logged i rows
logged-snoc i [] row = refl
logged-snoc i (r ∷ rows) row = omega (arith, logged-snoc i rows row)
