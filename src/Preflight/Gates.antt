-- ===== src/Preflight/Gates.antt =====
-- The gates of scripts/preflight.py, on what its queries return.
use split_inference.Base.{
  ℕ, zero, suc, ◌+◌, ◌*◌, max, String, ◌≡◌, refl, sym, ap, ◌∙◌, subst, Bool, true, false, not,
  Option, none, some, List, [], ◌∷◌, ◌++◌, map, ltb, leb, if◌then◌else◌, nat_eqb, nat_eq, string_eq,
  pair_eq, Result, ok, bind-ok, ok-injective, ◌>>=◌, keep_if, All,
}
use split_inference.Base.Dict.{Dict, get, put}
use split_inference.Base.Dict.Equality.{dict_eqb}
use split_inference.Preflight.Distinct.{has}
use split_inference.Config.Types.{Config, NodeCfg}
use split_inference.Config.Cuts.{cuts_for_tier}
use split_inference.Experiment.Best.{Row, best_of, actions, derive_best_table}

-- What is printed when a gate fails.
pub data Failure : Type 0 where
  not_covered : List (ℕ × String) → Failure
  corrupt : ℕ → Failure
  failure_rate : ℕ → ℕ → Failure
  rebooted : String → Failure
  not_argmin : Failure
  wrong_dispatch : List (ℕ × ℕ) → Failure
  figures_failed : Failure

-- {(n.node_id, c) for n in cfg.nodes for c in cfg.cuts_for_tier(n.tier)}
unfoldable pub expected_pairs : Config → List NodeCfg → Result (List (ℕ × String))
expected_pairs cfg [] = ok []
expected_pairs cfg (n ∷ ns) = cuts_for_tier cfg n.tier >>= λ cuts.
    expected_pairs cfg ns >>= λ rest. ok (map (λ c. (n.node_id, c)) cuts ++ rest)

-- if expected - covered: …
abbrev pub report_missing : List (ℕ × String) → List Failure
report_missing [] = []
report_missing (x ∷ xs) = not_covered (x ∷ xs) ∷ []

-- V1: every feasible (node, cut) was exercised.
unfoldable pub coverage_gate : Config → List (ℕ × String) → Result (List Failure)
coverage_gate cfg covered = expected_pairs cfg cfg.nodes >>= λ expected.
    ok (report_missing (keep_if (λ x. not (has x covered)) expected))

-- The counts of one run: all requests, those with CRC, those not OK.
abbrev pub Counts : Type 0
Counts = ℕ × (ℕ × ℕ)

unfoldable pub sum_counts : List Counts → Counts
sum_counts [] = (0, (0, 0))
sum_counts ((n_all, (n_crc, n_bad)) ∷ rest) =
    let (total, (crc, fails)) = sum_counts rest in (total + n_all, (crc + n_crc, fails + n_bad))

-- V2: no CRC failures; V3: fails / max(total, 1) < 0.03.
unfoldable pub integrity_gates : List Counts → List Failure
integrity_gates runs =
    let (total, (crc, fails)) = sum_counts runs in
    (if nat_eqb crc 0 then [] else corrupt crc ∷ [])
    ++ (if leb (3 * max total 1) (100 * fails) then failure_rate fails total ∷ [] else [])

-- V4: MAX(boot_count) - MIN(boot_count) of each run, none without heartbeats.
unfoldable pub reboot_gate : List (String × Option ℕ) → List Failure
reboot_gate [] = []
reboot_gate ((name, none) ∷ runs) = reboot_gate runs
reboot_gate ((name, some zero) ∷ runs) = reboot_gate runs
reboot_gate ((name, some (suc n)) ∷ runs) = rebooted name ∷ reboot_gate runs

-- The loop that recomputes the argmin of the sweep.
unfoldable pub argmin : List Row → Dict ℕ (String × ℕ) → Dict ℕ (String × ℕ)
argmin [] best = best
argmin ((n, (a, avg)) ∷ rows) best = argmin rows (elim (get n best) [
  | none ↦ put n (a, avg) best
  | some (b, least) ↦ if ltb avg least then put n (a, avg) best else best
])

-- V5: the table is that of the argmin.
unfoldable pub table_gate : Dict ℕ String → List Row → List Failure
table_gate table means = if dict_eqb table (actions (argmin means [])) then [] else not_argmin ∷ []

-- V5: the best run dispatched the table, and one cut to each node.
unfoldable pub dispatch_gate : Dict ℕ String → Dict ℕ String → List (ℕ × ℕ) → List Failure
dispatch_gate table dispatched [] = if dict_eqb dispatched table then [] else wrong_dispatch [] ∷ []
dispatch_gate table dispatched (g ∷ multi) = wrong_dispatch (g ∷ multi) ∷ []

-- V6: the figures regenerate.
abbrev pub figures_gate : Bool → List Failure
figures_gate returned = if returned then [] else figures_failed ∷ []

report_missing_none : (xs : List (ℕ × String)) → report_missing xs ≡ [] → xs ≡ []
report_missing_none [] h = refl
report_missing_none (x ∷ xs) h = cc

none_left :
    (covered es : List (ℕ × String))
    → keep_if (λ x. not (has x covered)) es ≡ []
    → All (λ x. has x covered ≡ true) es
none_left covered [] h = tt
none_left covered (e ∷ es) h = split (has e covered) (none_left covered es) refl h
  where
    split :
        (b : Bool)
        → (keep_if (λ x. not (has x covered)) es ≡ [] → All (λ x. has x covered ≡ true) es)
        → has e covered ≡ b
        → (if not b
            then e ∷ keep_if (λ x. not (has x covered)) es
            else keep_if (λ x. not (has x covered)) es)
          ≡ []
        → (has e covered ≡ true) × All (λ x. has x covered ≡ true) es
    split true rec p h = (p, rec h)
    split false rec p h = cc

All-map-append :
    (P : ℕ × String → Type 0) (n : ℕ) (cs : List String) (rest : List (ℕ × String))
    → All P (map (λ c. (n, c)) cs ++ rest)
    → All (λ c. P (n, c)) cs × All P rest
All-map-append P n [] rest h = (tt, h)
All-map-append P n (c ∷ cs) rest h =
    let (here, later) = All-map-append P n cs rest h.1 in ((h.0, here), later)

-- Every cut of a node's tier satisfies a predicate of pairs.
abbrev pub EachCut : Config → (ℕ × String → Type 0) → NodeCfg → Type 0
EachCut cfg P n =
    (cuts : List String) → cuts_for_tier cfg n.tier ≡ ok cuts → All (λ c. P (n.node_id, c)) cuts

expected_pairs-All :
    (cfg : Config) (P : ℕ × String → Type 0) (ns : List NodeCfg) (es : List (ℕ × String))
    → expected_pairs cfg ns ≡ ok es
    → All P es
    → All (EachCut cfg P) ns
unfolding expected_pairs
expected_pairs-All cfg P [] es h a = tt
expected_pairs-All cfg P (n ∷ ns) es h a =
    let (cuts, known, h') = bind-ok (cuts_for_tier cfg n.tier) _ h in
    let (rest, more, last) = bind-ok (expected_pairs cfg ns) _ h' in
    let (here, later) =
      All-map-append P n.node_id cuts rest (subst (All P) (sym (ok-injective last)) a) in
    (
      λ cuts' known'. subst (All (λ c. P (n.node_id, c))) (ok-injective (sym known ∙ known')) here,
      expected_pairs-All cfg P ns rest more later,
    )

-- If the coverage gate of the rehearsal reports nothing, every cut of the tier of every configured
-- node is among the pairs of the sweep.
pub coverage_gate-All :
    (cfg : Config) (covered : List (ℕ × String))
    → coverage_gate cfg covered ≡ ok []
    → All (EachCut cfg (λ x. has x covered ≡ true)) cfg.nodes
unfolding coverage_gate
coverage_gate-All cfg covered h =
    let (expected, known, last) = bind-ok (expected_pairs cfg cfg.nodes) _ h in
    expected_pairs-All cfg (λ x. has x covered ≡ true) cfg.nodes expected known
      (none_left covered expected (report_missing_none _ (ok-injective last)))

argmin-best_of :
    (rows : List Row) (best : Dict ℕ (String × ℕ)) → argmin rows best ≡ best_of rows best
unfolding argmin best_of
argmin-best_of [] best = refl
argmin-best_of ((n, (a, avg)) ∷ rows) best = argmin-best_of rows _

-- On the same rows, the argmin that the rehearsal recomputes names the cuts that
-- `derive_best_table` chose.
pub argmin-derive_best_table : (rows : List Row) → actions (argmin rows []) ≡ derive_best_table rows
unfolding derive_best_table
argmin-derive_best_table rows = ap actions (argmin-best_of rows [])
