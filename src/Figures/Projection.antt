-- ===== src/Figures/Projection.antt =====
-- `server_projection` and `crossovers` of analysis/figures.py: what a slower server would change. The
-- groups with their means come from pandas.
use split_inference.Base.{
  ℕ, String, ◌≡◌, Bool, true, false, Option, none, some, List, [], ◌∷◌, if◌then◌else◌, nat_eqb,
  ◌==◌, nat_eq, string_eq, pair_eq, value_error, index_error, Result, ok, err, ◌>>=◌, keep_if,
}
use split_inference.Slicer.Graph.{sorted_set}

-- The floats of numpy, without NaN: their comparison is a total order, and that is all the results
-- rest on.
pub record Number : Type 1 where
  pub Float : Type 0
  pub add : Float → Float → Float
  pub mul : Float → Float → Float
  pub lt : Float → Float → Bool
  pub lt_irrefl : (a : Float) → lt a a ≡ false
  pub lt_asym : (a b : Float) → lt a b ≡ true → lt b a ≡ false
  pub ge_trans : (a b c : Float) → lt a b ≡ false → lt b c ≡ false → lt a c ≡ false

module _ (n : Number) where
  open n use {Float, add, mul, lt}

  -- A group of the sweep and the means of its stages.
  pub record Group : Type 0 where
    pub node_id : ℕ
    pub tier : String
    pub action : String
    pub device : Float
    pub uplink : Float
    pub residual : Float
    pub server : Float

  pub record Projected : Type 0 where
    pub node_id : ℕ
    pub tier : String
    pub action : String
    pub fixed_ms : Float
    pub server_ms : Float

  unfoldable pub server_projection : List Group → List Projected
  server_projection [] = []
  server_projection (r ∷ base) =
      record {
        node_id = r.node_id;
        tier = r.tier;
        action = r.action;
        fixed_ms = add (add r.device r.uplink) r.residual;
        server_ms = r.server;
      }
      ∷ server_projection base

  -- `pred` of a row, at one of SERVER_FACTORS.
  unfoldable pub pred : Float → Projected → Float
  pred factor r = add r.fixed_ms (mul factor r.server_ms)

  -- argmin: the first of the least.
  unfoldable pub argmin : Float → Projected → List Projected → Projected
  argmin factor r [] = r
  argmin factor r (s ∷ ss) = argmin factor (if lt (pred factor s) (pred factor r) then s else r) ss

  -- winner_at, beside its factors.
  unfoldable pub winner_at : Projected → List Projected → List Float → List (Float × String)
  winner_at r rs [] = []
  winner_at r rs (factor ∷ factors) = (factor, (argmin factor r rs).action) ∷ winner_at r rs factors

  -- next(… if w != winner_at[0]), None
  unfoldable pub find_flip : String → List (Float × String) → Option (Float × String)
  find_flip now [] = none
  find_flip now ((factor, w) ∷ ws) = if w == now then find_flip now ws else some (factor, w)

  -- winner_at[-1]
  unfoldable pub last_winner : String → List (Float × String) → String
  last_winner w [] = w
  last_winner w ((factor, v) ∷ ws) = last_winner v ws

  -- next(… if r["action"] == "k0"), None
  unfoldable pub find_k0 : List Projected → Option Projected
  find_k0 [] = none
  find_k0 (r ∷ rs) = if r.action == "k0" then some r else find_k0 rs

  abbrev pub k0_tail : Option (Float × String) → Option Projected → Option Float
  k0_tail (some (factor, w)) (some k0) = some (mul factor k0.server_ms)
  k0_tail (some flip) none = none
  k0_tail none k0 = none

  abbrev pub factor_of : Option (Float × String) → Option Float
  factor_of none = none
  factor_of (some (factor, w)) = some factor

  abbrev pub wins_of : Option (Float × String) → Option String
  wins_of none = none
  wins_of (some (factor, w)) = some w

  pub record Crossover : Type 0 where
    pub node_id : ℕ
    pub tier : String
    pub now : String
    pub slow : String
    pub factor : Option Float
    pub k0_tail_ms : Option Float
    pub wins : Option String

  -- The body of the loop, for the rows of a node.
  unfoldable pub crossover : List Float → ℕ → List Projected → Result Crossover
  crossover factors node [] = err value_error
  crossover [] node (r ∷ rs) = err index_error
  crossover (f ∷ fs) node (r ∷ rs) =
      let now = (argmin f r rs).action in
      let later = winner_at r rs fs in
      let flip = find_flip now later in
      ok (record {
        node_id = node;
        tier = r.tier;
        now = now;
        slow = last_winner now later;
        factor = factor_of flip;
        k0_tail_ms = k0_tail flip (find_k0 (r ∷ rs));
        wins = wins_of flip;
      })

  abbrev pub node_ids : List Projected → List ℕ
  node_ids [] = []
  node_ids (r ∷ rs) = r.node_id ∷ node_ids rs

  unfoldable pub crossovers_of : List Float → List Projected → List ℕ → Result (List Crossover)
  crossovers_of factors rows [] = ok []
  crossovers_of factors rows (node ∷ nodes) =
      crossover factors node (keep_if (λ r. nat_eqb r.node_id node) rows) >>= λ c.
      crossovers_of factors rows nodes >>= λ rest. ok (c ∷ rest)

  abbrev pub crossovers : List Float → List Projected → Result (List Crossover)
  crossovers factors rows = crossovers_of factors rows (sorted_set (node_ids rows))
