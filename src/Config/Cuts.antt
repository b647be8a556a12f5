-- ===== src/Config/Cuts.antt =====
-- The derived helpers of `Config`, orchestrator/config.py.
use split_inference.Base.{
  ℕ, zero, suc, String, ◌≡◌, Option, none, some, List, [], ◌∷◌, map, arith, if◌then◌else◌, ◌==◌,
  nat_eq, string_eq, pair_eq, value_error, key_error, stop_iteration, Result, ok, or_raise, ◌>>=◌,
  get_elem?,
}
use split_inference.Base.Dict.{get}
use split_inference.Config.Types.{Config, NodeCfg}

find_node : ℕ → List NodeCfg → Option NodeCfg
find_node i [] = none
find_node i (n ∷ ns) = if n.node_id == i then some n else find_node i ns

-- next(n for n in self.nodes if n.node_id == node_id)
unfoldable pub node : Config → ℕ → Result NodeCfg
unfolding find_node
node cfg node_id = or_raise stop_iteration (find_node node_id cfg.nodes)

abbrev pub cut_names : Config → List String
cut_names cfg = map (λ c. c.name) cfg.cuts

unfoldable pub index_of : String → List String → Option ℕ
index_of a [] = none
index_of a (x ∷ xs) =
    if x == a then some 0 else elim (index_of a xs) [ none ↦ none | some i ↦ some (suc i) ]

-- list.index: the first position, or ValueError.
unfoldable pub cut_index : Config → String → Result ℕ
cut_index cfg name = or_raise value_error (index_of name (cut_names cfg))

unfoldable pub cuts_for_tier : Config → String → Result (List String)
cuts_for_tier cfg tier = or_raise key_error (get tier cfg.tiers) >>= λ t. ok t.cuts

pub get_elem?-index_of :
    (a : String) (xs : List String) (i : ℕ) → index_of a xs ≡ some i → get_elem? xs i ≡ some a
unfolding index_of
get_elem?-index_of a [] i h = cc
get_elem?-index_of a (x ∷ xs) zero h = ground (arith, string_eq.beq_iff x a)
get_elem?-index_of a (x ∷ xs) (suc i) h = ground (arith, get_elem?-index_of a xs i)
