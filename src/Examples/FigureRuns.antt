-- ===== src/Examples/FigureRuns.antt =====
-- The theorems on analysis/figures.py at two rows of a node.
use split_inference.Base.{
  ℕ, ◌+◌, ◌*◌, String, ◌≡◌, refl, true, false, some, List, [], ◌∷◌, arith, ltb, nat_eq, string_eq,
  pair_eq, ok,
}
use split_inference.Figures.Projection.{
  Number, Projected, pred, argmin, winner_at, find_flip, last_winner, find_k0, Crossover, crossover,
}
use split_inference.Figures.Crossover.{IsCrossover, crossover-IsCrossover}
use split_inference.Figures.Stages.{OkRow, Stages}

below_irrefl : (a : ℕ) → ltb a a ≡ false
below_irrefl a = ground arith

below_asym : (a b : ℕ) → ltb a b ≡ true → ltb b a ≡ false
below_asym a b h = ground arith

above_trans : (a b c : ℕ) → ltb a b ≡ false → ltb b c ≡ false → ltb a c ≡ false
above_trans a b c h k = ground arith

-- Whole numbers in the place of floats.
abbrev whole : Number
whole = record {
  Float = ℕ;
  add = λ a b. a + b;
  mul = λ a b. a * b;
  lt = ltb;
  lt_irrefl = below_irrefl;
  lt_asym = below_asym;
  ge_trans = above_trans;
}

abbrev row : String → ℕ → ℕ → Projected whole
row action fixed server = record {
  node_id = 11;
  tier = "A";
  action = action;
  fixed_ms = fixed;
  server_ms = server;
}

abbrev rows : List (Projected whole)
rows = row "k0" 100 20 ∷ row "k_deep" 150 5 ∷ []

-- At three times the server's time k0 has 160 and k_deep 165, at four times 180 and 170.
abbrev flipped : Crossover whole
flipped = record {
  node_id = 11;
  tier = "A";
  now = "k0";
  slow = "k_deep";
  factor = some 4;
  k0_tail_ms = some 80;
  wins = some "k_deep";
}

crossed : crossover whole (1 ∷ 3 ∷ 4 ∷ 9 ∷ []) 11 rows ≡ ok flipped
unfolding crossover argmin pred winner_at find_flip last_winner find_k0
crossed = refl

crossover-IsCrossover_example : IsCrossover whole rows 1 (3 ∷ 4 ∷ 9 ∷ []) flipped
crossover-IsCrossover_example =
    crossover-IsCrossover whole 1 (3 ∷ 4 ∷ 9 ∷ []) 11 rows flipped crossed

-- The device says that it needed longer than passed until the last fragment.
abbrev request : OkRow
request = record {
  t_capture_us = 5000;
  t_edge_us = 20000;
  t_assign = 100000;
  t_last_frag = 124000;
  t_queue_in = 124000;
  t_queue_out = 125000;
  t_tail_us = 4000;
  t_total = 30500;
}
