-- ===== src/Scheduler/Passes.antt =====
-- What a pass of `run` and the start of its tasks do to the load, orchestrator/scheduler.py.
use split_inference.Base.{
  ℕ, suc, ◌+◌, String, ◌≡◌, refl, sym, ap, ◌∙◌, subst, Bool, true, false, Option, none, some, List,
  [], ◌∷◌, ◌++◌, arith, ltb, if◌then◌else◌, ◌==◌, nat_eq, string_eq, pair_eq, Result, ok, err,
  ok-injective,
}
use split_inference.Base.Exec.{Exec, ◌>>=◌, lift, continue, continue_post}
use split_inference.Base.Dict.{get_or, get}
use split_inference.Config.Cuts.{cut_index}
use split_inference.Config.Types.{Config}
use split_inference.Reassembly.Receive.{start}
use split_inference.Registry.Table.{NodeState}
use split_inference.Scheduler.World.{Task, World, satisfied}
use split_inference.Scheduler.Handle.{
  on_reassembler, choose_cut, register, admit, admitted, begin, create_unless, offer_work,
  offer_all,
}
use split_inference.Scheduler.Load.{
  one_if, of_ids, of_tasks, load, Balanced, Keeps, Balanced-Keeps, Keeps-refl, flight-set_in_flight,
}
use split_inference.Scheduler.Segments.{try_assign-Balanced}

of_ids-middle :
    (n m : ℕ) (before after : List ℕ)
    → of_ids n (before ++ m ∷ after) ≡ of_ids n (before ++ after) + one_if n m
of_ids-middle n m [] after = omega arith
of_ids-middle n m (k ∷ before) after = omega (arith, of_ids-middle n m before after)

of_tasks-middle :
    (n : ℕ) (t : Task) (before after : List Task)
    → of_tasks n (before ++ t ∷ after) ≡ of_tasks n (before ++ after) + one_if n t.node_id
of_tasks-middle n t [] after = omega arith
of_tasks-middle n t (k ∷ before) after = omega (arith, of_tasks-middle n t before after)

pub resume-Balanced :
    (w : World) (t : Task) (before after : List Task)
    → w.tasks ≡ before ++ t ∷ after
    → Balanced (λ n. 0) w
    → Balanced (λ n. one_if n t.node_id) (record w { tasks = before ++ after })
unfolding Balanced
resume-Balanced w t before after e b n st h =
    b n st h ∙ omega (arith, ap (of_tasks n) e, of_tasks-middle n t before after)

pub create-Balanced :
    (w : World) (m : ℕ) (before after : List ℕ)
    → w.created ≡ before ++ m ∷ after
    → Balanced (λ n. 0) w
    → Balanced (λ n. one_if n m) (record w { created = before ++ after })
unfolding Balanced
create-Balanced w m before after e b n st h =
    b n st h ∙ omega (arith, ap (of_ids n) e, of_ids-middle n m before after)

die-Balanced :
    (m : ℕ) (v w : World)
    → Balanced (λ n. one_if n m) v
    → Keeps v w
    → Balanced (λ n. 0) (record w { dead = m ∷ w.dead })
unfolding Balanced
die-Balanced m v w b k n st h = Balanced-Keeps (λ n. one_if n m) v w b k n st h ∙ omega arith

-- What `admit` answers is a task of the node, and it keeps the load.
record IsAdmitted (m : ℕ) (v : World) (r : Result Task × World) : Type 0 where
  same : (t : Task) → r.0 ≡ ok t → t.node_id ≡ m
  keeps : Keeps v r.1

continue-IsAdmitted :
    {A : Type 0} (m : ℕ) (v : World) (r : Result A) (w : World) (f : A → Exec World Task)
    → Keeps v w
    → ((a : A) (u : World) → Keeps v u → IsAdmitted m v (f a u))
    → IsAdmitted m v (continue r f w)
continue-IsAdmitted m v (ok a) w f k h = h a w k
continue-IsAdmitted m v (err e) w f k h = record { same = λ t g. cc; keeps = k }

choose_cut-Keeps : (m : ℕ) (w : World) → Keeps w (choose_cut m w).1
unfolding choose_cut
choose_cut-Keeps m w = record { flights = λ n old h. (old, h, refl); loads = λ n. refl }

register-IsAdmitted :
    (cfg : Config) (now m : ℕ) (st : NodeState) (arm : String) (i : ℕ) (v w : World)
    → Keeps v w
    → IsAdmitted m v (register cfg now m st arm i w)
unfolding register on_reassembler start
register-IsAdmitted cfg now m st arm i v w k = record {
  same = λ t g. ap (λ (t : Task). t.node_id) (sym (ok-injective g));
  keeps = record { flights = k.flights; loads = k.loads };
}

admit-IsAdmitted :
    (cfg : Config) (now m : ℕ) (st : NodeState) (w : World) → IsAdmitted m w (admit cfg now m st w)
unfolding admit
admit-IsAdmitted cfg now m st w =
    let (cut, u) = choose_cut m w in
    continue-IsAdmitted m w cut u (λ arm. lift (cut_index cfg arm) >>= register cfg now m st arm)
      (choose_cut-Keeps m w)
      (λ arm x k.
        continue-IsAdmitted m w (cut_index cfg arm) x (register cfg now m st arm) k
          (λ i y k'. register-IsAdmitted cfg now m st arm i w y k'))

admitted-Balanced :
    (cfg : Config) (now m : ℕ) (v : World) (r : Result Task) (w : World)
    → Balanced (λ n. one_if n m) v
    → IsAdmitted m v (r, w)
    → Balanced (λ n. 0) (admitted cfg now m (r, w))
admitted-Balanced cfg now m v (err e) w b a = die-Balanced m v w b a.keeps
admitted-Balanced cfg now m v (ok t) w b a =
    try_assign-Balanced cfg now cfg.protocol.assign_max_retries t w (
      subst (λ k. Balanced (λ n. one_if n k) w) (sym (a.same t refl))
        (Balanced-Keeps _ v w b a.keeps))

pub begun-Balanced :
    (cfg : Config) (now m : ℕ) (w : World)
    → Balanced (λ n. one_if n m) w
    → Balanced (λ n. 0) (begin cfg now m w)
unfolding begin
begun-Balanced cfg now m w b = split (get m w.nodes)
  where
    split :
        (o : Option NodeState)
        → Balanced
            (λ n. 0)
            (elim o [
              | none ↦ record w { dead = m ∷ w.dead }
              | some st ↦ admitted cfg now m (admit cfg now m st w)
            ])
    split none = die-Balanced m w w b (Keeps-refl w)
    split (some st) =
        let (r, u) = admit cfg now m st w in
        admitted-Balanced cfg now m w r u b (admit-IsAdmitted cfg now m st w)

create-one :
    (b : Bool) (k l : ℕ) → k ≡ l + 0 → (if b then suc k else k) ≡ l + (if b then 1 else 0) + 0
create-one true k l h = omega arith
create-one false k l h = omega arith

of_ids-last : (n m : ℕ) (ms : List ℕ) → of_ids n (ms ++ m ∷ []) ≡ of_ids n ms + one_if n m
of_ids-last n m [] = omega arith
of_ids-last n m (k ∷ ms) = omega (arith, of_ids-last n m ms)

create_unless-Balanced :
    (m : ℕ) (r : Result Bool) (w : World)
    → Balanced (λ n. 0) w
    → Balanced (λ n. 0) (create_unless m r w).1
unfolding Balanced
create_unless-Balanced m (err e) w b = b
create_unless-Balanced m (ok true) w b = b
create_unless-Balanced m (ok false) w b = λ n st h.
    let (old, known, same) = flight-set_in_flight suc m n w.nodes st h in
    same
    ∙ create-one (m == n) old.in_flight (load n w) (b n old known)
    ∙ omega (arith, of_ids-last n m w.created)

offer_work-Balanced :
    (now m : ℕ) (w : World) → Balanced (λ n. 0) w → Balanced (λ n. 0) (offer_work now m w).1
unfolding offer_work
offer_work-Balanced now m w b = split (ltb now (get_or m 0 w.next_ok_time))
  where
    split :
        (c : Bool)
        → Balanced (λ n. 0) (if c then (ok tt, w) else create_unless m (satisfied w m) w).1
    split true = b
    split false = create_unless-Balanced m (satisfied w m) w b

pub offer_all-Balanced :
    (now : ℕ) (sts : List NodeState) (w : World)
    → Balanced (λ n. 0) w
    → Balanced (λ n. 0) (offer_all now sts w).1
unfolding offer_all
offer_all-Balanced now [] w b = b
offer_all-Balanced now (st ∷ sts) w b =
    continue_post (Balanced (λ n. 0)) (offer_work now st.node_id w).0 (λ _. offer_all now sts)
      (offer_work now st.node_id w).1 (offer_work-Balanced now st.node_id w b)
      (λ _ _.
        offer_all-Balanced now sts (offer_work now st.node_id w).1
          (offer_work-Balanced now st.node_id w b))
