-- ===== src/Scheduler/Within.antt =====
-- The cap on the requests in flight, over one pass of `run` of orchestrator/scheduler.py.
use split_inference.Base.{
  ℕ, suc, ◌≤◌, ◌<◌, ◌≡◌, refl, sym, ap, ◌∙◌, subst, ◌≢◌, inl, inr, Bool, true, false, Option, none,
  some, List, [], ◌∷◌, ◌++◌, arith, ltb, if◌then◌else◌, nat_eqb_iff, Bool-cases, ◌==◌, nat_eq,
  string_eq, pair_eq, ==-false, Result, ok, err, All,
}
use split_inference.Base.Exec.{continue_post}
use split_inference.Base.Dict.{get, get_or, put, get-put, Distinct, put-Distinct}
use split_inference.Registry.Table.{NodeState, Nodes}
use split_inference.Scheduler.World.{World, satisfied, set_in_flight}
use split_inference.Scheduler.Handle.{create_unless, offer_work, offer_all}
use split_inference.Scheduler.Flights.{Shrinks}

-- Each node stands under its own identifier, once, and is within the cap.
pub record IsWithin (cap : ℕ) (nodes : Nodes) : Type 0 where
  pub distinct : Distinct nodes
  pub keyed : (n : ℕ) (st : NodeState) → get n nodes ≡ some st → st.node_id ≡ n
  pub capped : (n : ℕ) (st : NodeState) → get n nodes ≡ some st → st.in_flight ≤ cap

pub Shrinks-IsWithin :
    (cap : ℕ) (before after : Nodes)
    → Shrinks before after
    → IsWithin cap before
    → IsWithin cap after
Shrinks-IsWithin cap before after s i = record {
  distinct = s.distinct i.distinct;
  keyed = λ n st h. let (old, at, le, same) = s.flights n st h in same ∙ i.keyed n old at;
  capped = λ n st h.
      let (old, at, le, same) = s.flights n st h in let old_le = i.capped n old at in omega arith;
}

-- The nodes of a snapshot are still there with no more in flight, and below the cap, each once.
abbrev pub AreFree : ℕ → Nodes → List NodeState → Type 0
AreFree cap nodes [] = Unit {0}
AreFree cap nodes (st ∷ sts) =
    ((now : NodeState) → get st.node_id nodes ≡ some now → now.in_flight < cap)
    × All (λ s. s.node_id ≢ st.node_id) sts
    × AreFree cap nodes sts

abbrev raised : NodeState → NodeState
raised st = record st { in_flight = suc st.in_flight }

module _ (cap m : ℕ) (nodes : Nodes) (i : IsWithin cap nodes) where
  other_free :
      (old : NodeState) (sts : List NodeState)
      → get m nodes ≡ some old
      → All (λ s. s.node_id ≢ m) sts
      → AreFree cap nodes sts
      → AreFree cap (put m (raised old) nodes) sts
  other_free old [] known ne free = tt
  other_free old (st ∷ sts) known ne free = (
    λ now at. free.0 now (
        sym (
          ap (λ (b : Bool). if b then some (raised old) else get st.node_id nodes)
            (==-false m st.node_id (λ p. ne.0 (sym p))))
        ∙ sym (get-put m st.node_id (raised old) nodes)
        ∙ at),
    free.1,
    other_free old sts known ne.1 free.2,
  )

  raised-IsWithin :
      (old : NodeState)
      → get m nodes ≡ some old
      → old.in_flight < cap
      → IsWithin cap (put m (raised old) nodes)
  raised-IsWithin old known below = record {
    distinct = put-Distinct m (raised old) nodes i.distinct;
    keyed = λ n st h. (at n st h).0;
    capped = λ n st h. (at n st h).1;
  }
    where
      at :
          (n : ℕ) (st : NodeState)
          → get n (put m (raised old) nodes) ≡ some st
          → (st.node_id ≡ n) × (st.in_flight ≤ cap)
      at n st h = elim (Bool-cases (m == n)) [
        | inl p ↦
            let same : m ≡ n = (nat_eqb_iff m n).0 p in
            let is_new : some (raised old) ≡ some st =
              sym (ap (λ (b : Bool). if b then some (raised old) else get n nodes) p)
              ∙ sym (get-put m n (raised old) nodes)
              ∙ h in
            let is : raised old ≡ st = cc in
            (
              subst (λ s. s.node_id ≡ n) is (i.keyed m old known ∙ same),
              subst (λ s. s.in_flight ≤ cap) is (omega arith),
            )
        | inr p ↦
            let is_old : get n nodes ≡ some st =
              sym (ap (λ (b : Bool). if b then some (raised old) else get n nodes) p)
              ∙ sym (get-put m n (raised old) nodes)
              ∙ h in
            (i.keyed n st is_old, i.capped n st is_old)
      ]

-- What one offer leaves for the rest of a pass.
record IsOffered (cap : ℕ) (sts : List NodeState) (w : World) : Type 0 where
  within : IsWithin cap w.nodes
  free : AreFree cap w.nodes sts

create_unless-IsOffered :
    (cap : ℕ) (st : NodeState) (sts : List NodeState) (r : Result Bool) (w : World)
    → IsWithin cap w.nodes
    → AreFree cap w.nodes (st ∷ sts)
    → IsOffered cap sts (create_unless st.node_id r w).1
unfolding set_in_flight
create_unless-IsOffered cap st sts (err e) w i f = record { within = i; free = f.2 }
create_unless-IsOffered cap st sts (ok true) w i f = record { within = i; free = f.2 }
create_unless-IsOffered cap st sts (ok false) w i f = split (get st.node_id w.nodes) refl
  where
    split :
        (o : Option NodeState)
        → get st.node_id w.nodes ≡ o
        → IsOffered cap sts (record w {
          nodes = elim o [ none ↦ w.nodes | some old ↦ put st.node_id (raised old) w.nodes ];
          created = w.created ++ st.node_id ∷ [];
        })
    split none h = record { within = i; free = f.2 }
    split (some old) h = record {
      within = raised-IsWithin cap st.node_id w.nodes i old h (f.0 old h);
      free = other_free cap st.node_id w.nodes i old sts h f.1 f.2;
    }

offer_work-IsOffered :
    (cap now : ℕ) (st : NodeState) (sts : List NodeState) (w : World)
    → IsWithin cap w.nodes
    → AreFree cap w.nodes (st ∷ sts)
    → IsOffered cap sts (offer_work now st.node_id w).1
unfolding offer_work
offer_work-IsOffered cap now st sts w i f = split (ltb now (get_or st.node_id 0 w.next_ok_time))
  where
    split :
        (c : Bool)
        → IsOffered cap sts
            (if c then (ok tt, w) else create_unless st.node_id (satisfied w st.node_id) w).1
    split true = record { within = i; free = f.2 }
    split false = create_unless-IsOffered cap st sts (satisfied w st.node_id) w i f

pub offer_all-IsWithin :
    (cap now : ℕ) (sts : List NodeState) (w : World)
    → IsWithin cap w.nodes
    → AreFree cap w.nodes sts
    → IsWithin cap (offer_all now sts w).1.nodes
unfolding offer_all
offer_all-IsWithin cap now [] w i f = i
offer_all-IsWithin cap now (st ∷ sts) w i f =
    let (r, u) = offer_work now st.node_id w in
    let o = offer_work-IsOffered cap now st sts w i f in
    continue_post (λ x. IsWithin cap x.nodes) r (λ _. offer_all now sts) u o.within
      (λ _ _. offer_all-IsWithin cap now sts u o.within o.free)
