-- ===== src/Experiment/Driver.antt =====
-- The decisions of `amain`, orchestrator/experiment.py: whether the fleet is complete, when a run
-- stops, and its totals.
use split_inference.Base.{
  ℕ, suc, ◌+◌, ◌≡◌, refl, ap, ◌∙◌, Bool, true, false, not, ◌&&◌, Option, none, some, List, [], ◌∷◌,
  map, ltb, leb, nat_eq, string_eq, pair_eq, Result, ok, err, ok-injective, ◌>>=◌, length, keep_if,
  All, elem, All-elem,
}
use split_inference.Base.Dict.{Dict, get_or}
use split_inference.Config.Types.{Config}
use split_inference.Policy.Choice.{
  Policy, fixed_cut, sweep, Sweep, sweep_done, first_open, is_node, wants,
}
use split_inference.Registry.Table.{Nodes, alive}
use split_inference.Scheduler.World.{World, has_quota, satisfied}

-- if args.sweep_reqs and isinstance(policy, Sweep): policy.reqs_per_cut = args.sweep_reqs
abbrev pub override_reqs : Option ℕ → Policy → Policy
override_reqs (some (suc n)) (sweep p) = sweep (record p { reqs_per_cut = suc n })
override_reqs _ p = p

-- len(registry.alive()) < len(cfg.nodes)
unfoldable pub is_incomplete : Config → ℕ → Nodes → Bool
is_incomplete cfg now nodes = ltb (length (alive cfg now nodes)) (length cfg.nodes)

abbrev pub node_ids : Config → List ℕ
node_ids cfg = map (λ n. n.node_id) cfg.nodes

-- {n.node_id for n in cfg.nodes} - {s.node_id for s in registry.alive()}
abbrev pub absent_nodes : Config → ℕ → Nodes → List ℕ
absent_nodes cfg now nodes =
    keep_if (λ n. not (elem n (map (λ st. st.node_id) (alive cfg now nodes)))) (node_ids cfg)

-- args.min_ok or cfg.experiment.min_ok_per_node
abbrev pub target_of : Option ℕ → Config → ℕ
target_of (some (suc n)) cfg = suc n
target_of _ cfg = cfg.experiment.min_ok_per_node

-- all(policy.done(n) for n in node_ids)
unfoldable pub all_done : Sweep → List ℕ → Result Bool
all_done p [] = ok true
all_done p (n ∷ ns) = elim (sweep_done p n) [
  | err e ↦ err e
  | ok true ↦ all_done p ns
  | ok false ↦ ok false
]

-- all(scheduler.ok_count.get(n, 0) >= target for n in node_ids)
unfoldable pub all_ok : Dict ℕ ℕ → ℕ → List ℕ → Bool
all_ok ok_count target [] = true
all_ok ok_count target (n ∷ ns) = leb target (get_or n 0 ok_count) && all_ok ok_count target ns

-- What `amain` sets before a run: a sweep has no target.
abbrev pub quota : Policy → ℕ → Option ℕ
quota (fixed_cut name d) target = some target
quota (sweep p) target = none

-- `stop` of a run with the given policy and target.
abbrev pub stop : List ℕ → ℕ → Policy → World → Result Bool
stop ns target (fixed_cut name d) w = ok (all_ok w.ok_count target ns)
stop ns target (sweep p) w = all_done p ns

-- sum(….values())
unfoldable pub total : Dict ℕ ℕ → ℕ
total [] = 0
total ((_, v) ∷ d) = v + total d

all_done-first_open :
    (p : Sweep) (ns : List ℕ) → all_done p ns ≡ ok true → first_open p ns ≡ ok none
unfolding all_done first_open
all_done-first_open p [] h = refl
all_done-first_open p (n ∷ ns) h = split (sweep_done p n) (all_done-first_open p ns) h
  where
    split :
        (r : Result Bool)
        → (all_done p ns ≡ ok true → first_open p ns ≡ ok none)
        → elim r [ err e ↦ err e | ok true ↦ all_done p ns | ok false ↦ ok false ] ≡ ok true
        → elim r [ err e ↦ err e | ok true ↦ first_open p ns | ok false ↦ ok (some n) ] ≡ ok none
    split (err e) rec h = cc
    split (ok true) rec h = rec h
    split (ok false) rec h = cc

both : (a b : Bool) → (a && b) ≡ true → (a ≡ true) × (b ≡ true)
both true b h = (refl, h)
both false b h = cc

all_ok-All :
    (ok_count : Dict ℕ ℕ) (target : ℕ) (ns : List ℕ)
    → all_ok ok_count target ns ≡ true
    → All (λ n. leb target (get_or n 0 ok_count) ≡ true) ns
unfolding all_ok
all_ok-All ok_count target [] h = tt
all_ok-All ok_count target (n ∷ ns) h =
    let (here, rest) = both (leb target (get_or n 0 ok_count)) (all_ok ok_count target ns) h in
    (here, all_ok-All ok_count target ns rest)

unwanted :
    (p : Sweep) (ns : List ℕ) (n : ℕ)
    → p.order ≡ ns
    → all_done p ns ≡ ok true
    → wants (sweep p) n ≡ ok false
unfolding wants
unwanted p ns n m h =
    ap (λ r. r >>= λ k. ok (is_node n k))
      (ap (λ xs. first_open p xs) m ∙ all_done-first_open p ns h)

-- A sweep measures the nodes of the run, in their order.
abbrev pub Measures : Policy → List ℕ → Type 0
Measures (fixed_cut name d) ns = Unit
Measures (sweep p) ns = p.order ≡ ns

-- When the stop condition of a run holds, for a sweep in the order of the nodes of the run or for
-- a fixed policy with its target, the scheduler holds each node of the run satisfied.
pub stop-satisfied :
    (ns : List ℕ) (target : ℕ) (p : Policy) (w : World)
    → Measures p ns
    → stop ns target p w ≡ ok true
    → (n : ℕ) → elem n ns ≡ true
    → satisfied (record w { policy = p; target_ok = quota p target }) n ≡ ok true
unfolding satisfied wants
stop-satisfied ns target (fixed_cut name d) w m h n e = ap ok (
    All-elem (λ k. leb target (get_or k 0 w.ok_count) ≡ true) ns n
      (all_ok-All w.ok_count target ns (ok-injective h)) e)
stop-satisfied ns target (sweep p) w m h n e =
    ap
      (λ (r : Result Bool). elim r [
        | err e ↦ err e
        | ok false ↦ ok true
        | ok true ↦ ok (has_quota none (get_or n 0 w.ok_count))
      ])
      (unwanted p ns n m h)
