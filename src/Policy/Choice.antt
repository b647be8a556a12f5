-- ===== src/Policy/Choice.antt =====
-- The policies of orchestrator/policy.py: `FixedCut`, `Sweep`, `clamp` and `make_policy`.
use split_inference.Base.{
  ℕ, ◌+◌, ◌-◌, ◌*◌, ◌/◌, min, String, Bool, true, false, ◌||◌, Option, none, some, List, [], ◌∷◌,
  map, ltb, leb, if◌then◌else◌, nat_eqb, ◌==◌, nat_eq, string_eq, pair_eq, value_error, key_error,
  index_error, assertion_error, zero_division, Result, ok, err, or_raise, ◌>>=◌, length, get_elem?,
}
use split_inference.Base.Dict.{Dict, get, get_or, put}
use split_inference.Config.Types.{Config, NodeCfg}
use split_inference.Config.Cuts.{cut_index, cut_names, cuts_for_tier}

pub record Sweep : Type 0 where
  pub reqs_per_cut : ℕ
  pub cuts_by_node : Dict ℕ (List String)
  pub order : List ℕ
  pub count : Dict ℕ ℕ

pub data Policy : Type 0 where
  fixed_cut : String → Dict ℕ String → Policy
  sweep : Sweep → Policy

abbrev cuts_of_nodes : Config → List NodeCfg → Dict ℕ (List String) → Result (Dict ℕ (List String))
cuts_of_nodes cfg [] d = ok d
cuts_of_nodes cfg (n ∷ ns) d =
    cuts_for_tier cfg n.tier >>= λ cuts. cuts_of_nodes cfg ns (put n.node_id cuts d)

unfoldable pub new_sweep : Config → Result Sweep
new_sweep cfg = do
  cuts ← cuts_of_nodes cfg cfg.nodes []
  ok (record {
    reqs_per_cut = cfg.experiment.sweep_reqs_per_cut;
    cuts_by_node = cuts;
    order = map (λ n. n.node_id) cfg.nodes;
    count = [];
  })

-- self.count.get(node_id, 0) >= self.reqs_per_cut * len(self.cuts_by_node[node_id])
unfoldable pub sweep_done : Sweep → ℕ → Result Bool
sweep_done p node_id = do
  cuts ← or_raise key_error (get node_id p.cuts_by_node)
  ok (leb (p.reqs_per_cut * length cuts) (get_or node_id 0 p.count))

-- next((n for n in self.order if not self.done(n)), None)
unfoldable pub first_open : Sweep → List ℕ → Result (Option ℕ)
first_open p [] = ok none
first_open p (n ∷ ns) = elim (sweep_done p n) [
  | err e ↦ err e
  | ok true ↦ first_open p ns
  | ok false ↦ ok (some n)
]

abbrev pub active : Sweep → Result (Option ℕ)
active p = first_open p p.order

abbrev pub is_node : ℕ → Option ℕ → Bool
is_node node_id none = false
is_node node_id (some n) = nat_eqb node_id n

-- cuts[min(i // reqs_per_cut, len(cuts) - 1)], where an empty list has the index -1.
unfoldable pub cut_at : ℕ → List String → ℕ → Result String
cut_at reqs_per_cut cuts i =
    if nat_eqb reqs_per_cut 0
    then err zero_division
    else or_raise index_error (get_elem? cuts (min (i / reqs_per_cut) (length cuts - 1)))

-- The count is raised before the cut is looked up, so it stays raised when that raises.
unfoldable pub sweep_select : ℕ → Sweep → Result String × Sweep
sweep_select node_id p =
    let i = get_or node_id 0 p.count in
    let p' : Sweep = record p { count = put node_id (i + 1) p.count } in
    (or_raise key_error (get node_id p.cuts_by_node) >>= λ cuts. cut_at p.reqs_per_cut cuts i, p')

unfoldable pub select : ℕ → Policy → Result String × Policy
select node_id (fixed_cut name cut_by_node) =
    (or_raise key_error (get node_id cut_by_node), fixed_cut name cut_by_node)
select node_id (sweep p) = let (cut, p') = sweep_select node_id p in (cut, sweep p')

unfoldable pub done : Policy → ℕ → Result Bool
done (fixed_cut name cut_by_node) node_id = ok false
done (sweep p) node_id = sweep_done p node_id

-- `Policy.wants` is "not done"; a sweep wants the one node that it measures.
unfoldable pub wants : Policy → ℕ → Result Bool
wants (fixed_cut name cut_by_node) node_id = ok true
wants (sweep p) node_id = active p >>= λ n. ok (is_node node_id n)

-- (c for c in feasible if cfg.cut_index(c) <= wanted), each with its index.
unfoldable pub up_to : Config → ℕ → List String → Result (List (ℕ × String))
up_to cfg wanted [] = ok []
up_to cfg wanted (c ∷ cs) = cut_index cfg c >>= λ i.
    up_to cfg wanted cs >>= λ rest. ok (if leb i wanted then (i, c) ∷ rest else rest)

-- max(…, key=…): the first of the largest, from the best so far on.
unfoldable pub deepest : ℕ × String → List (ℕ × String) → String
deepest (i, c) [] = c
deepest (i, c) ((j, d) ∷ rest) = deepest (if ltb i j then (j, d) else (i, c)) rest

abbrev pub deepest_or : String → List (ℕ × String) → String
deepest_or default [] = default
deepest_or default (c ∷ cs) = deepest c cs

abbrev pub contains : String → List String → Bool
contains a [] = false
contains a (x ∷ xs) = (x == a) || contains a xs

unfoldable pub clamp : Config → String → String → Result String
clamp cfg tier cut = cuts_for_tier cfg tier >>= λ feasible.
    if contains cut feasible
    then ok cut
    else cut_index cfg cut >>= λ wanted. or_raise index_error (get_elem? feasible 0) >>= λ default.
        up_to cfg wanted feasible >>= λ cs. ok (deepest_or default cs)

abbrev pub clamp_nodes : Config → String → List NodeCfg → Dict ℕ String → Result (Dict ℕ String)
clamp_nodes cfg kind [] d = ok d
clamp_nodes cfg kind (n ∷ ns) d =
    clamp cfg n.tier kind >>= λ c. clamp_nodes cfg kind ns (put n.node_id c d)

-- An empty table is false too.
abbrev best_policy : Option (Dict ℕ String) → Result Policy
best_policy none = err assertion_error
best_policy (some []) = err assertion_error
best_policy (some (e ∷ es)) = ok (fixed_cut "best" (e ∷ es))

unfoldable pub make_policy : String → Config → Option (Dict ℕ String) → Result Policy
make_policy kind cfg best_table =
    if kind == "sweep"
    then (new_sweep cfg >>= λ p. ok (sweep p))
    else if kind == "best"
    then best_policy best_table
    else if contains kind (cut_names cfg)
    then (clamp_nodes cfg kind cfg.nodes [] >>= λ d. ok (fixed_cut kind d))
    else err value_error
