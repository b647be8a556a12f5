-- ===== src/Preflight/Handover.antt =====
-- What the runs of scripts/preflight.py hand over: the best run follows the sweep.
use mathlib.Core.Option.{some-injective}
use split_inference.Base.{
  ℕ, String, ◌≡◌, refl, sym, ap, ◌∙◌, subst, Bool, true, false, Option, none, some, List, [], ◌∷◌,
  ◌++◌, if◌then◌else◌, ◌==◌, nat_eq, string_eq, pair_eq, value_error, assertion_error, Result, ok,
  err, or_raise, bind-ok, ok-injective, true-ne-false, or_raise-ok,
}
use split_inference.Base.Dict.{Dict}
use split_inference.Config.Types.{Config}
use split_inference.Config.Cuts.{cut_names}
use split_inference.Policy.Choice.{
  Policy, fixed_cut, sweep, make_policy, contains, clamp_nodes, new_sweep,
}
use split_inference.Scheduler.World.{World}
use split_inference.Experiment.Best.{Row, derive_best_table}
use split_inference.Experiment.Driver.{quota, stop, node_ids, target_of}
use split_inference.Experiment.Session.{
  Args, Outside, Wait, complete, aborted, unfinished, exit_code, choose, load_best, started_all,
  after_run, session, after_wait, after_choice, amain,
}
use split_inference.Preflight.Sequence.{
  table_after, succeeded, sweep_args, policy_args, outside_of, run_step, run_steps, run_plan,
}

-- The table that a run under a policy leaves.
abbrev left_by : Policy → List Row → Option (Dict ℕ String) → Option (Dict ℕ String)
left_by (fixed_cut name d) means table = table
left_by (sweep s) means table = some (derive_best_table means)

-- A run that returned 0 had a policy, and left its table.
record IsRun (cfg : Config) (args : Args) (o : Outside) (table left : Option (Dict ℕ String))
    : Type 0 where
  policy : Policy
  chosen : choose cfg args o ≡ ok policy
  leaves : left ≡ left_by policy o.means table

run_step-IsRun :
    (cfg : Config) (fuel : ℕ) (args : Args) (o : Outside) (table : Option (Dict ℕ String))
    → (run_step cfg fuel args o table).0 ≡ true
    → IsRun cfg args o table (run_step cfg fuel args o table).1
unfolding run_step amain session
run_step-IsRun cfg fuel args o table h = go (choose cfg args o) refl h
  where
    ended :
        (p : Policy) (r : Result World)
        → choose cfg args o ≡ ok p
        → succeeded (exit_code (after_run o p r).1) ≡ true
        → IsRun cfg args o table (table_after (started_all ++ (after_run o p r).0) table)
    ended p (err e) known g = absurd (true-ne-false g refl)
    ended (fixed_cut name d) (ok w) known g = record {
      policy = fixed_cut name d;
      chosen = known;
      leaves = refl;
    }
    ended (sweep s) (ok w) known g = record { policy = sweep s; chosen = known; leaves = refl }

    waited :
        (p : Policy) (wait : Wait)
        → choose cfg args o ≡ ok p
        → succeeded (exit_code (after_wait cfg args o p wait).1) ≡ true
        → IsRun cfg args o table
            (table_after (started_all ++ (after_wait cfg args o p wait).0) table)
    waited p complete known g =
        let target = target_of args.min_ok cfg in
        ended p (o.run args.max_duration (quota p target) (stop (node_ids cfg) target p) p) known g
    waited p (aborted missing) known g = absurd (true-ne-false g refl)
    waited p unfinished known g = absurd (true-ne-false g refl)

    go :
        (r : Result Policy)
        → choose cfg args o ≡ r
        → succeeded (exit_code (after_choice cfg args o fuel r).1) ≡ true
        → IsRun cfg args o table (table_after (after_choice cfg args o fuel r).0 table)
    go (err e) known g = absurd (true-ne-false g refl)
    go (ok p) known g = waited p _ known g

-- A policy that is no sweep.
abbrev IsFixed : Policy → Type 0
IsFixed (fixed_cut name d) = Unit
IsFixed (sweep s) = ⊥

best-IsFixed :
    (cfg : Config) (best : Option (Dict ℕ String)) (p : Policy)
    → make_policy "best" cfg best ≡ ok p
    → (t : Dict ℕ String) × (best ≡ some t) × (p ≡ fixed_cut "best" t)
unfolding make_policy
best-IsFixed cfg none p h = cc
best-IsFixed cfg (some []) p h = cc
best-IsFixed cfg (some (e ∷ es)) p h = (e ∷ es, refl, sym (ok-injective h))

make_policy-IsFixed :
    (kind : String) (cfg : Config) (best : Option (Dict ℕ String)) (p : Policy)
    → (kind == "sweep") ≡ false
    → make_policy kind cfg best ≡ ok p
    → IsFixed p
unfolding make_policy
make_policy-IsFixed kind cfg best p e h =
    split (kind == "sweep") (kind == "best") (contains kind (cut_names cfg)) _ _ _ e
      (λ k.
        let (t, _, same) = best-IsFixed cfg best p k in
        subst IsFixed {x = fixed_cut "best" t} (sym same) tt)
      (λ k.
        let (d, _, same) = bind-ok (clamp_nodes cfg kind cfg.nodes []) _ k in
        subst IsFixed {x = fixed_cut kind d} (ok-injective same) tt)
      h
  where
    split :
        (a b c : Bool) (x y z : Result Policy)
        → a ≡ false
        → (y ≡ ok p → IsFixed p)
        → (z ≡ ok p → IsFixed p)
        → (if a then x else if b then y else if c then z else err value_error) ≡ ok p
        → IsFixed p
    split true b c x y z q f g k = absurd (true-ne-false refl q)
    split false true c x y z q f g k = f k
    split false false true x y z q f g k = g k
    split false false false x y z q f g k = cc

sweep_args-left :
    (cfg : Config) (o : Outside) (table left : Option (Dict ℕ String))
    → IsRun cfg sweep_args o table left
    → left ≡ some (derive_best_table o.means)
unfolding choose make_policy
sweep_args-left cfg o table left r =
    let (q, made, last) = bind-ok (make_policy "sweep" cfg none) _ r.chosen in
    let (s, _, same) = bind-ok (new_sweep cfg) _ made in
    r.leaves ∙ ap (λ p. left_by p o.means table) (sym (ok-injective last) ∙ sym (ok-injective same))

IsFixed-left :
    (p : Policy) (means : List Row) (table : Option (Dict ℕ String))
    → IsFixed p
    → left_by p means table ≡ table
IsFixed-left (fixed_cut name d) means table f = refl
IsFixed-left (sweep s) means table f = elim f [ ]

policy_args-left :
    (cfg : Config) (reqs : ℕ) (kind : String) (o : Outside) (table left : Option (Dict ℕ String))
    → (kind == "sweep") ≡ false
    → IsRun cfg (policy_args reqs kind) o table left
    → left ≡ table
unfolding choose
policy_args-left cfg reqs kind o table left e r =
    let (best, _, h) = bind-ok (load_best kind o.best_path) _ r.chosen in
    let (q, made, last) = bind-ok (make_policy kind cfg best) _ h in
    let fixed : IsFixed r.policy =
      subst IsFixed (ok-injective last) (make_policy-IsFixed kind cfg best q e made) in
    r.leaves ∙ IsFixed-left r.policy o.means table fixed

best_args-choose :
    (cfg : Config) (reqs : ℕ) (o : Outside) (t : Dict ℕ String) (p : Policy)
    → o.best_path ≡ some t
    → choose cfg (policy_args reqs "best") o ≡ ok p
    → p ≡ fixed_cut "best" t
unfolding choose
best_args-choose cfg reqs o t p path h =
    let (best, found, k) = bind-ok (load_best "best" o.best_path) _ h in
    let (q, made, last) = bind-ok (make_policy "best" cfg best) _ k in
    let (t', same, fixed) = best-IsFixed cfg best q made in
    let (t'', known, gone) = bind-ok (or_raise assertion_error o.best_path) _ found in
    let whole : some t ≡ some t' =
      sym path ∙ or_raise-ok assertion_error o.best_path known ∙ ok-injective gone ∙ same in
    sym (ok-injective last) ∙ fixed ∙ ap (fixed_cut "best") (sym (some-injective t t' whole))

run_steps-cons :
    (cfg : Config) (fuel : ℕ) (env : String → Outside) (args : Args) (rest : List Args)
    (table last : Option (Dict ℕ String))
    → run_steps cfg fuel env (args ∷ rest) table ≡ some last
    → (left : Option (Dict ℕ String)) × IsRun cfg args (outside_of env args table) table left
      × (run_steps cfg fuel env rest left ≡ some last)
unfolding run_steps
run_steps-cons cfg fuel env args rest table last h =
    split (run_step cfg fuel args (outside_of env args table) table).0 refl h
  where
    split :
        (good : Bool)
        → (run_step cfg fuel args (outside_of env args table) table).0 ≡ good
        → elim good as (λ _. Option (Option (Dict ℕ String))) [
          | true ↦
              run_steps cfg fuel env rest
                (run_step cfg fuel args (outside_of env args table) table).1
          | false ↦ none
        ]
          ≡ some last
        → (left : Option (Dict ℕ String)) × IsRun cfg args (outside_of env args table) table left
          × (run_steps cfg fuel env rest left ≡ some last)
    split true g k = (_, run_step-IsRun cfg fuel args (outside_of env args table) table g, k)
    split false g k = cc

-- If every run of the rehearsal returns 0, best_table.json holds in the end what
-- `derive_best_table` gives for the averages of the sweep, and with that file the policy of the
-- best run is the fixed one with exactly this table.
pub run_plan-hands_over :
    (cfg : Config) (fuel : ℕ) (env : String → Outside) (reqs : ℕ) (last : Option (Dict ℕ String))
    → run_plan cfg fuel env reqs ≡ some last
    → let best = derive_best_table (env "sweep").means in
      let args = policy_args reqs "best" in
      (last ≡ some best) × (choose cfg args (outside_of env args last) ≡ ok (fixed_cut "best" best))
unfolding run_plan run_steps
run_plan-hands_over cfg fuel env reqs last h =
    let pol : String → Args = policy_args reqs in
    let (t1, sweep_run, h1) =
      run_steps-cons cfg fuel env sweep_args
        (pol "k0" ∷ pol "k_shallow" ∷ pol "k_deep" ∷ pol "best" ∷ []) none last h in
    let (t2, k0_run, h2) =
      run_steps-cons cfg fuel env (pol "k0") (pol "k_shallow" ∷ pol "k_deep" ∷ pol "best" ∷ []) t1
        last h1 in
    let (t3, shallow, h3) =
      run_steps-cons cfg fuel env (pol "k_shallow") (pol "k_deep" ∷ pol "best" ∷ []) t2 last h2 in
    let (t4, deep, h4) = run_steps-cons cfg fuel env (pol "k_deep") (pol "best" ∷ []) t3 last h3 in
    let (t5, best_run, h5) = run_steps-cons cfg fuel env (pol "best") [] t4 last h4 in
    let fourth : t4 ≡ some (derive_best_table (env "sweep").means) =
      policy_args-left cfg reqs "k_deep" (outside_of env (pol "k_deep") t3) t3 t4 refl deep
      ∙ policy_args-left cfg reqs "k_shallow" (outside_of env (pol "k_shallow") t2) t2 t3 refl
          shallow
      ∙ policy_args-left cfg reqs "k0" (outside_of env (pol "k0") t1) t1 t2 refl k0_run
      ∙ sweep_args-left cfg (outside_of env sweep_args none) none t1 sweep_run in
    let fifth =
      policy_args-left cfg reqs "best" (outside_of env (pol "best") t4) t4 t5 refl best_run in
    let there : last ≡ t4 = sym (some-injective t5 last h5) ∙ fifth in
    let same =
      best_args-choose cfg reqs (outside_of env (pol "best") t4)
        (derive_best_table (env "sweep").means) best_run.policy fourth best_run.chosen in
    (
      there ∙ fourth,
      ap (λ t. choose cfg (pol "best") (outside_of env (pol "best") t)) there
          ∙ best_run.chosen
          ∙ ap ok same,
    )
