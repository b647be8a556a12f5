-- ===== src/Scheduler/Offers.antt =====
-- The nodes that orchestrator/registry.py says are ready can each take one more request.
use split_inference.Base.{
  ℕ, ◌<◌, ◌≡◌, refl, sym, ap, ◌∙◌, subst, ◌≢◌, inl, inr, Bool, true, false, ◌&&◌, none, some, List,
  [], ◌∷◌, arith, ltb, if◌then◌else◌, nat_eqb_iff, Bool-cases, ◌==◌, nat_eq, string_eq, pair_eq,
  ==-refl, keep_if, All, true-ne-false,
}
use split_inference.Base.Dict.{get, Distinct}
use split_inference.Config.Types.{Config}
use split_inference.Registry.Table.{NodeState, Nodes, values, is_ready, ready}
use split_inference.Scheduler.World.{World}
use split_inference.Scheduler.Handle.{tick}
use split_inference.Scheduler.Within.{IsWithin, AreFree, offer_all-IsWithin}

-- Every entry of a part of the registry is what the registry holds, under its own identifier.
abbrev IsPart : Nodes → Nodes → Type 0
IsPart nodes rest = All (λ e. (get e.0 nodes ≡ some e.1) × (e.1.node_id ≡ e.0)) rest

whole-IsPart :
    (nodes rest : Nodes)
    → Distinct rest
    → ((k : ℕ) (st : NodeState) → get k rest ≡ some st → (get k nodes ≡ some st) × (st.node_id ≡ k))
    → IsPart nodes rest
unfolding get
whole-IsPart nodes [] d held = tt
whole-IsPart nodes ((k, st) ∷ rest) d held = (
  held k st (rw (==-refl k) refl),
  whole-IsPart nodes rest d.1 (λ j s at. held j s (elim (Bool-cases (k == j)) [
    | inl p ↦
        let same : k ≡ j = (nat_eqb_iff k j).0 p in
        let missing : none ≡ some s = sym d.0 ∙ ap (λ n. get n rest) same ∙ at in cc
    | inr p ↦ rw p at
  ])),
)

others_ne :
    (nodes rest : Nodes) (k : ℕ)
    → IsPart nodes rest
    → get k rest ≡ none
    → All (λ s. s.node_id ≢ k) (values rest)
unfolding get
others_ne nodes [] k part out = tt
others_ne nodes ((j, st) ∷ rest) k part out = elim (Bool-cases (j == k)) [
  | inl p ↦
      let found : some st ≡ none =
        sym (ap (λ (b : Bool). if b then some st else get k rest) p) ∙ out in
      cc
  | inr p ↦ (
    λ same. true-ne-false ((nat_eqb_iff j k).1 (sym part.0.1 ∙ same)) p,
    others_ne nodes rest k part.1
        (sym (ap (λ (b : Bool). if b then some st else get k rest) p) ∙ out),
  )
]

All-keep_if :
    (P : NodeState → Type 0) (p : NodeState → Bool) (xs : List NodeState)
    → All P xs
    → All P (keep_if p xs)
All-keep_if P p [] h = tt
All-keep_if P p (x ∷ xs) h = split (p x) (All-keep_if P p xs h.1)
  where
    split : (b : Bool) → All P (keep_if p xs) → All P (if b then x ∷ keep_if p xs else keep_if p xs)
    split true rest = (h.0, rest)
    split false rest = rest

below_cap : (a b : Bool) (k cap : ℕ) → (a && (b && ltb k cap)) ≡ true → k < cap
below_cap true true k cap h = ground arith
below_cap true false k cap h = cc
below_cap false b k cap h = cc

ready-AreFree :
    (cfg : Config) (now : ℕ) (nodes rest : Nodes)
    → Distinct rest
    → IsPart nodes rest
    → AreFree cfg.experiment.node_inflight_cap nodes (keep_if (is_ready cfg now) (values rest))
ready-AreFree cfg now nodes [] d part = tt
ready-AreFree cfg now nodes ((k, st) ∷ rest) d part =
    split (is_ready cfg now st) refl (ready-AreFree cfg now nodes rest d.1 part.1)
  where
    split :
        (b : Bool)
        → is_ready cfg now st ≡ b
        → AreFree cfg.experiment.node_inflight_cap nodes (keep_if (is_ready cfg now) (values rest))
        → AreFree cfg.experiment.node_inflight_cap nodes (
            if b
            then st ∷ keep_if (is_ready cfg now) (values rest)
            else keep_if (is_ready cfg now) (values rest))
    split false e free = free
    split true e free = (
      λ now_st at.
          let held : some st ≡ some now_st =
            sym part.0.0 ∙ ap (λ n. get n nodes) (sym part.0.1) ∙ at in
          let same : st ≡ now_st = cc in
          subst (λ s. s.in_flight < cfg.experiment.node_inflight_cap) same (below_cap _ _ _ _ e),
      All-keep_if (λ s. s.node_id ≢ st.node_id) (is_ready cfg now) (values rest)
          (subst (λ n. All (λ s. s.node_id ≢ n) (values rest)) (sym part.0.1)
            (others_ne nodes rest k part.1 d.0)),
      free,
    )

pub tick-IsWithin :
    (cfg : Config) (now : ℕ) (w : World)
    → IsWithin cfg.experiment.node_inflight_cap w.nodes
    → IsWithin cfg.experiment.node_inflight_cap (tick cfg now w).1.nodes
unfolding tick ready
tick-IsWithin cfg now w i =
    offer_all-IsWithin cfg.experiment.node_inflight_cap now
      (keep_if (is_ready cfg now) (values w.nodes)) w i
      (ready-AreFree cfg now w.nodes w.nodes i.distinct
        (whole-IsPart w.nodes w.nodes i.distinct (λ k st at. (at, i.keyed k st at))))
