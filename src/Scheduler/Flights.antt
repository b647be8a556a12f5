-- ===== src/Scheduler/Flights.antt =====
-- Nodes of orchestrator/scheduler.py of which none has more requests in flight than before.
use split_inference.Base.{
  ℕ, ◌-◌, ◌≤◌, ◌≡◌, refl, sym, ap, ◌∙◌, subst, inl, inr, Bool, Option, none, some, arith,
  if◌then◌else◌, nat_eqb_iff, Bool-cases, ◌==◌, nat_eq, string_eq, pair_eq,
}
use split_inference.Base.Dict.{get, put, get-put, Distinct, put-Distinct}
use split_inference.Registry.Table.{NodeState, Nodes}
use split_inference.Scheduler.World.{set_in_flight}

pub record Shrinks (before after : Nodes) : Type 0 where
  pub distinct : Distinct before → Distinct after
  pub flights :
      (n : ℕ) (st : NodeState)
      → get n after ≡ some st
      → (old : NodeState) × (get n before ≡ some old)
        × (st.in_flight ≤ old.in_flight)
        × (st.node_id ≡ old.node_id)

pub Shrinks-refl : (nodes : Nodes) → Shrinks nodes nodes
Shrinks-refl nodes = record { distinct = λ d. d; flights = λ n st h. (st, h, omega arith, refl) }

pub Shrinks-trans : {a b c : Nodes} → Shrinks a b → Shrinks b c → Shrinks a c
Shrinks-trans s t = record {
  distinct = λ d. t.distinct (s.distinct d);
  flights = λ n st h.
      let (mid, at, le, same) = t.flights n st h in
      let (old, at', le', same') = s.flights n mid at in (old, at', omega arith, same ∙ same');
}

-- A known node is replaced by one that is no busier.
pub put-Shrinks :
    (m : ℕ) (old new : NodeState) (nodes : Nodes)
    → get m nodes ≡ some old
    → new.in_flight ≤ old.in_flight
    → new.node_id ≡ old.node_id
    → Shrinks nodes (put m new nodes)
put-Shrinks m old new nodes known le same = record {
  distinct = put-Distinct m new nodes;
  flights = λ n st at. elim (Bool-cases (m == n)) [
    | inl p ↦
        let here : m ≡ n = (nat_eqb_iff m n).0 p in
        let is_new : some new ≡ some st =
          sym (ap (λ (b : Bool). if b then some new else get n nodes) p)
          ∙ sym (get-put m n new nodes)
          ∙ at in
        let is : new ≡ st = cc in
        (
          old,
          subst (λ k. get k nodes ≡ some old) here known,
          subst (λ s. s.in_flight ≤ old.in_flight) is le,
          subst (λ s. s.node_id ≡ old.node_id) is same,
        )
    | inr p ↦ (
      st,
      sym (ap (λ (b : Bool). if b then some new else get n nodes) p)
          ∙ sym (get-put m n new nodes)
          ∙ at,
      omega arith,
      refl,
    )
  ];
}

pub set_in_flight-Shrinks :
    (m : ℕ) (nodes : Nodes) → Shrinks nodes (set_in_flight (λ k. k - 1) m nodes)
unfolding set_in_flight
set_in_flight-Shrinks m nodes = split (get m nodes) refl
  where
    split :
        (o : Option NodeState)
        → get m nodes ≡ o
        → Shrinks nodes (elim o [
          | none ↦ nodes
          | some st ↦ put m (record st { in_flight = st.in_flight - 1 }) nodes
        ])
    split none h = Shrinks-refl nodes
    split (some st) h =
        put-Shrinks m st (record st { in_flight = st.in_flight - 1 }) nodes h (omega arith) refl

-- Since a world `v`.
