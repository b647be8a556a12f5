-- ===== src/Scheduler/Load.antt =====
-- The load that `run` of orchestrator/scheduler.py puts on each node: `in_flight`.
use split_inference.Base.{
  or_raise-ok, ℕ, ◌+◌, ◌-◌, ◌≡◌, refl, sym, ap, ◌∙◌, subst, inl, inr, Bool, true, false, Option,
  none, some, List, [], ◌∷◌, arith, if◌then◌else◌, nat_eqb_iff, Bool-cases, Option-cases, ◌==◌,
  nat_eq, string_eq, pair_eq, key_error, Result, ok, err, or_raise, bind-ok, ok-injective,
}
use split_inference.Base.Exec.{Exec}
use split_inference.Base.Dict.{get, put, get-put}
use split_inference.Wire.Struct.{Bytes}
use split_inference.Config.Types.{Config}
use split_inference.Reassembly.State.{Addr, Reassembler}
use split_inference.Registry.Table.{NodeState, Nodes, never, mark_lost}
use split_inference.Scheduler.World.{Task, Row, World, send_ctrl, ctrl_addr, set_in_flight}
use split_inference.Scheduler.Handle.{
  on_reassembler, keep_nodes, lose_node, send_packet, release, log_request, suspend,
}

-- 1 for the node itself.
abbrev pub one_if : ℕ → ℕ → ℕ
one_if n m = if m == n then 1 else 0

abbrev pub of_ids : ℕ → List ℕ → ℕ
of_ids n [] = 0
of_ids n (m ∷ ms) = one_if n m + of_ids n ms

abbrev pub of_tasks : ℕ → List Task → ℕ
of_tasks n [] = 0
of_tasks n (t ∷ ts) = one_if n t.node_id + of_tasks n ts

-- The tasks of a node that have been created: not started, suspended, and dead before their `try`.
abbrev pub load : ℕ → World → ℕ
load n w = of_ids n w.created + of_tasks n w.tasks + of_ids n w.dead

-- Every node's `in_flight` is its load, `extra` aside.
unfoldable pub Balanced : (ℕ → ℕ) → World → Type 0
Balanced extra w =
    (n : ℕ) (st : NodeState) → get n w.nodes ≡ some st → st.in_flight ≡ load n w + extra n

abbrev altered : (ℕ → ℕ) → Option NodeState → Option NodeState
altered f none = none
altered f (some st) = some (record st { in_flight = f st.in_flight })

module _ (f : ℕ → ℕ) (m n : ℕ) (nodes : Nodes) where
  set_in_flight_unknown : get m nodes ≡ none → set_in_flight f m nodes ≡ nodes
  unfolding set_in_flight
  set_in_flight_unknown missing = rw (missing, set_in_flight) refl

  set_in_flight_known :
      (old : NodeState)
      → get m nodes ≡ some old
      → set_in_flight f m nodes ≡ put m (record old { in_flight = f old.in_flight }) nodes
  unfolding set_in_flight
  set_in_flight_known old known = rw (known, set_in_flight) refl

  get-set_in_flight :
      get n (set_in_flight f m nodes) ≡ (if m == n then altered f (get n nodes) else get n nodes)
  get-set_in_flight = elim (Option-cases (get m nodes)) [
    | inl missing ↦ rw (set_in_flight_unknown missing) (elim (Bool-cases (m == n)) [
      | inl p ↦ let same : m ≡ n = (nat_eqb_iff m n).0 p in rw (p, ← same, missing) refl
      | inr p ↦ rw (p) refl
    ])
    | inr (old, known) ↦
        rw
          (
            set_in_flight_known old known,
            get-put m n (record old { in_flight = f old.in_flight }) nodes,
          )
          (elim (Bool-cases (m == n)) [
            | inl p ↦ let same : m ≡ n = (nat_eqb_iff m n).0 p in rw (p, ← same, known) refl
            | inr p ↦ rw (p) refl
          ])
  ]

abbrev in_flight_or : ℕ → Option NodeState → ℕ
in_flight_or default none = default
in_flight_or default (some st) = st.in_flight

picked :
    (f : ℕ → ℕ) (b : Bool) (o : Option NodeState) (st : NodeState)
    → (if b then altered f o else o) ≡ some st
    → (old : NodeState) × (o ≡ some old)
      × (st.in_flight ≡ (if b then f old.in_flight else old.in_flight))
picked f true none st h = cc
picked f true (some old) st h = (old, refl, ap (in_flight_or 0) (sym h))
picked f false o st h = (st, h, refl)

pub flight-set_in_flight :
    (f : ℕ → ℕ) (m n : ℕ) (nodes : Nodes) (st : NodeState)
    → get n (set_in_flight f m nodes) ≡ some st
    → (old : NodeState) × (get n nodes ≡ some old)
      × (st.in_flight ≡ (if m == n then f old.in_flight else old.in_flight))
flight-set_in_flight f m n nodes st h =
    picked f (m == n) (get n nodes) st (sym (get-set_in_flight f m n nodes) ∙ h)

-- The same `in_flight` of every node, and the same load.
pub record Keeps (w w' : World) : Type 0 where
  pub flights :
      (n : ℕ) (st : NodeState)
      → get n w'.nodes ≡ some st
      → (old : NodeState) × (get n w.nodes ≡ some old) × (st.in_flight ≡ old.in_flight)
  pub loads : (n : ℕ) → load n w' ≡ load n w

pub Keeps-refl : (w : World) → Keeps w w
Keeps-refl w = record { flights = λ n st h. (st, h, refl); loads = λ n. refl }

pub Balanced-Keeps :
    (extra : ℕ → ℕ) (w w' : World) → Balanced extra w → Keeps w w' → Balanced extra w'
unfolding Balanced
Balanced-Keeps extra w w' b k n st h =
    let (old, known, same) = k.flights n st h in
    same ∙ b n old known ∙ ap (λ l. l + extra n) (sym (k.loads n))

pub on_reassembler-Keeps :
    {A : Type 0} (m : Exec Reassembler A) (v w : World) → Keeps v w → Keeps v (on_reassembler m w).1
unfolding on_reassembler
on_reassembler-Keeps m v w k = record { flights = k.flights; loads = k.loads }

pub send_packet-Keeps :
    (node_id : ℕ) (r : Result Bytes) (v w : World) → Keeps v w → Keeps v (send_packet node_id r w).1
unfolding send_packet
send_packet-Keeps node_id (err e) v w k = k
send_packet-Keeps node_id (ok d) v w k = to (ctrl_addr node_id w)
  where
    to : (a : Option Addr) → Keeps v (send_ctrl a d w)
    to none = k
    to (some a) = record { flights = k.flights; loads = k.loads }

pub log_request-Keeps : (row : Row) (w : World) → Keeps w (log_request row w)
unfolding log_request
log_request-Keeps row w = record { flights = λ n st h. (st, h, refl); loads = λ n. refl }

pub release-Balanced :
    (cfg : Config) (now m : ℕ) (w : World)
    → Balanced (λ n. one_if n m) w
    → Balanced (λ n. 0) (release cfg now m w)
unfolding release Balanced
release-Balanced cfg now m w b n st h =
    let (old, known, same) = flight-set_in_flight (λ k. k - 1) m n w.nodes st h in
    same ∙ drop_one (m == n) _ (load n w) (b n old known)
  where
    drop_one :
        (c : Bool) (k l : ℕ) → k ≡ l + (if c then 1 else 0) → (if c then k - 1 else k) ≡ l + 0
    drop_one true k l e = omega arith
    drop_one false k l e = omega arith

add_in_middle : (a b c d : ℕ) → b + c + d + a ≡ b + (a + c) + d + 0
add_in_middle a b c d = omega arith

pub suspend-Balanced :
    (t : Task) (w : World) → Balanced (λ n. one_if n t.node_id) w → Balanced (λ n. 0) (suspend t w)
unfolding Balanced
suspend-Balanced t w b n st h =
    b n st h
    ∙ add_in_middle (one_if n t.node_id) (of_ids n w.created) (of_tasks n w.tasks) (of_ids n w.dead)

pub put_flights :
    (m : ℕ) (old new : NodeState) (nodes : Nodes) (n : ℕ) (st : NodeState)
    → get m nodes ≡ some old
    → new.in_flight ≡ old.in_flight
    → get n (put m new nodes) ≡ some st
    → (first : NodeState) × (get n nodes ≡ some first) × (st.in_flight ≡ first.in_flight)
put_flights m old new nodes n st known same at = elim (Bool-cases (m == n)) [
  | inl p ↦
      let here : m ≡ n = (nat_eqb_iff m n).0 p in
      (
        old,
        subst (λ k. get k nodes ≡ some old) here known,
        flights_of (
              sym (ap (λ (b : Bool). if b then some new else get n nodes) p)
              ∙ sym (get-put m n new nodes)
              ∙ at)
            ∙ same,
      )
  | inr p ↦ (
    st,
    sym (ap (λ (b : Bool). if b then some new else get n nodes) p)
        ∙ sym (get-put m n new nodes)
        ∙ at,
    refl,
  )
]
  where
    flights_of : {a b : NodeState} → some a ≡ some b → b.in_flight ≡ a.in_flight
    flights_of {a} {b} h = ap (in_flight_or 0) (sym h)

mark_lost-flights :
    (node_id : ℕ) (nodes nodes' : Nodes)
    → mark_lost node_id nodes ≡ ok nodes'
    → (n : ℕ) (st : NodeState) → get n nodes' ≡ some st
    → (old : NodeState) × (get n nodes ≡ some old) × (st.in_flight ≡ old.in_flight)
unfolding mark_lost
mark_lost-flights node_id nodes nodes' h n st at =
    let (old, known, h') = bind-ok (or_raise key_error (get node_id nodes)) _ h in
    put_flights node_id old (record old { last_hb = never; was_lost = true }) nodes n st
      (or_raise-ok key_error (get node_id nodes) known) refl
      (subst (λ m. get n m ≡ some st) (sym (ok-injective h')) at)

lost_kept :
    (node_id : ℕ) (v w : World)
    → Keeps v w
    → (r : Result Nodes) → mark_lost node_id w.nodes ≡ r
    → Keeps v (keep_nodes r w).1
lost_kept node_id v w k (err e) h = k
lost_kept node_id v w k (ok nodes) h = record {
  flights = λ n st at.
      let (old, known, same) = mark_lost-flights node_id w.nodes nodes h n st at in
      let (first, known', same') = k.flights n old known in (first, known', same ∙ same');
  loads = k.loads;
}

pub lose_node-Keeps : (node_id : ℕ) (v w : World) → Keeps v w → Keeps v (lose_node node_id w).1
unfolding lose_node
lose_node-Keeps node_id v w k = lost_kept node_id v w k (mark_lost node_id w.nodes) refl
