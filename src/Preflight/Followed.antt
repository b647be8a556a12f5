-- ===== src/Preflight/Followed.antt =====
-- The gate V5 of scripts/preflight.py: what it has checked.
use split_inference.Base.{
  ℕ, ◌≤◌, String, ◌≡◌, refl, sym, ap, ◌∙◌, inl, inr, Bool, true, false, ◌&&◌, ◌||◌, Option, none,
  some, List, [], ◌∷◌, map, arith, ltb, if◌then◌else◌, nat_eqb, Bool-cases, ◌==◌, nat_eq, string_eq,
  pair_eq, length, keep_if, All, true-ne-false,
}
use split_inference.Base.Dict.{Dict, get, put, Distinct, put-Distinct}
use split_inference.Base.Dict.Equality.{dict_eqb, dict_eqb-get}
use split_inference.Experiment.Best.{Row, actions, action_of, get-actions, derive_best_table}
use split_inference.Preflight.Distinct.{
  has, distinct, or_left, or_right, All-has, has-All, has-distinct, has_same,
}
use split_inference.Preflight.Queries.{Request, pairs, actions_of, action_counts, multi}
use split_inference.Preflight.Gates.{
  not_argmin, wrong_dispatch, table_gate, dispatch_gate, argmin, argmin-derive_best_table,
}
use split_inference.Preflight.Verify.{IsGrouped}
use split_inference.Preflight.Cleared.{cleared, keep_if-none, All-map}

-- The gate V5.
pair-action :
    (n : ℕ) (a : String) (rows : List Request)
    → has (n, a) (pairs rows) ≡ true
    → has a (actions_of n rows) ≡ true
pair-action n a [] h = absurd (true-ne-false h refl)
pair-action n a (q ∷ rows) h =
    split (nat_eqb n q.node_id) (a == q.action) refl (pair-action n a rows) h
  where
    split :
        (b c : Bool)
        → (a == q.action) ≡ c
        → (has (n, a) (pairs rows) ≡ true → has a (actions_of n rows) ≡ true)
        → ((b && c) || has (n, a) (pairs rows)) ≡ true
        → has a (
            map
              (λ r. r.action)
              (if b
                then q ∷ keep_if (λ r. nat_eqb n r.node_id) rows
                else keep_if (λ r. nat_eqb n r.node_id) rows))
          ≡ true
    split true true p rec k = or_left (a == q.action) _ p
    split true false p rec k = or_right (a == q.action) _ (rec k)
    split false c p rec k = rec k

pair-node :
    (n : ℕ) (a : String) (rows : List Request)
    → has (n, a) (pairs rows) ≡ true
    → has n (map (λ r. r.node_id) rows) ≡ true
pair-node n a [] h = h
pair-node n a (q ∷ rows) h = split (nat_eqb n q.node_id) (a == q.action) (pair-node n a rows) h
  where
    split :
        (b c : Bool)
        → (has (n, a) (pairs rows) ≡ true → has n (map (λ r. r.node_id) rows) ≡ true)
        → ((b && c) || has (n, a) (pairs rows)) ≡ true
        → (b || has n (map (λ r. r.node_id) rows)) ≡ true
    split true c rec k = refl
    split false c rec k = rec k

rows-pairs : (rows : List Request) → All (λ q. has (q.node_id, q.action) (pairs rows) ≡ true) rows
rows-pairs rows =
    All-map (λ x. has x (pairs rows) ≡ true) (λ q. (q.node_id, q.action)) rows
      (All-has (pairs rows))

-- Without a node of two cuts, the cuts of a node are one.
one_action :
    (rows : List Request) (n : ℕ) (a b : String)
    → multi rows ≡ []
    → has (n, a) (pairs rows) ≡ true
    → has (n, b) (pairs rows) ≡ true
    → a ≡ b
one_action rows n a b h left right =
    has_same a b (distinct (actions_of n rows))
      (few (
        has-All (λ m. ltb 1 (length (distinct (actions_of m rows))) ≡ false) n
          (distinct (map (λ r. r.node_id) rows))
          (has-distinct n (map (λ r. r.node_id) rows) (pair-node n a rows left))
          (All-map (λ (g : ℕ × ℕ). ltb 1 g.1 ≡ false) _ (distinct (map (λ r. r.node_id) rows))
            (keep_if-none (λ (g : ℕ × ℕ). ltb 1 g.1) (action_counts rows) (ap length h)))))
      (has-distinct a (actions_of n rows) (pair-action n a rows left))
      (has-distinct b (actions_of n rows) (pair-action n b rows right))
  where
    few : {m : ℕ} → ltb 1 m ≡ false → m ≤ 1
    few h = ground arith

actions-Distinct : (best : Dict ℕ (String × ℕ)) → Distinct best → Distinct (actions best)
actions-Distinct [] d = tt
actions-Distinct ((n, (a, t)) ∷ best) d =
    (get-actions n best ∙ ap action_of d.0, actions-Distinct best d.1)

argmin-Distinct :
    (rows : List Row) (best : Dict ℕ (String × ℕ)) → Distinct best → Distinct (argmin rows best)
unfolding argmin
argmin-Distinct [] best d = d
argmin-Distinct ((n, (a, t)) ∷ rows) best d = argmin-Distinct rows _ (split (get n best))
  where
    split :
        (o : Option (String × ℕ))
        → Distinct (elim o [
          | none ↦ put n (a, t) best
          | some (b, least) ↦ if ltb t least then put n (a, t) best else best
        ])
    split none = put-Distinct n (a, t) best d
    split (some (b, least)) = elim (Bool-cases (ltb t least)) [
      | inl p ↦ rw p (put-Distinct n (a, t) best d)
      | inr p ↦ rw p d
    ]

pub table_gate-none :
    (table : Dict ℕ String) (means : List Row) (n : ℕ)
    → Distinct table
    → table_gate table means ≡ []
    → get n table ≡ get n (derive_best_table means)
unfolding table_gate
table_gate-none table means n d h =
    dict_eqb-get table (actions (argmin means [])) n d
      (actions-Distinct (argmin means []) (argmin-Distinct means [] tt))
      (cleared (dict_eqb table (actions (argmin means []))) [] not_argmin h)
    ∙ ap (get n) (argmin-derive_best_table means)

dispatch_gate-none :
    (table groups : Dict ℕ String) (several : List (ℕ × ℕ))
    → dispatch_gate table groups several ≡ []
    → (dict_eqb groups table ≡ true) × (several ≡ [])
unfolding dispatch_gate
dispatch_gate-none table groups [] h =
    (cleared (dict_eqb groups table) [] (wrong_dispatch []) h, refl)
dispatch_gate-none table groups (g ∷ several) h = cc

-- The best run followed the table.
pub followed :
    (table groups : Dict ℕ String) (rows : List Request)
    → Distinct table
    → Distinct groups
    → IsGrouped rows groups
    → dispatch_gate table groups (multi rows) ≡ []
    → All (λ q. get q.node_id table ≡ some q.action) rows
followed table groups rows d d' grouped h =
    let (same, single) = dispatch_gate-none table groups (multi rows) h in
    each rows (λ n a b. one_action rows n a b single) (λ n. dict_eqb-get groups table n d' d same)
      grouped (rows-pairs rows)
  where
    each :
        (qs : List Request)
        → ((n : ℕ) (a b : String)
            → has (n, a) (pairs rows) ≡ true
            → has (n, b) (pairs rows) ≡ true
            → a ≡ b)
        → ((n : ℕ) → get n groups ≡ get n table)
        → All
            (λ q.
              (a : String) × (get q.node_id groups ≡ some a)
              × (has (q.node_id, a) (pairs rows) ≡ true))
            qs
        → All (λ q. has (q.node_id, q.action) (pairs rows) ≡ true) qs
        → All (λ q. get q.node_id table ≡ some q.action) qs
    each [] one same g own = tt
    each (q ∷ qs) one same ((a, at, in_rows), g) own = (
      sym (same q.node_id) ∙ at ∙ ap some (one q.node_id a q.action in_rows own.0),
      each qs one same g own.1,
    )
