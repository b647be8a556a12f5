-- ===== src/Policy/Sweep.antt =====
-- What a sweep of orchestrator/policy.py dispatches: equal blocks of every cut, one node at a time.
use split_inference.Base.{
  ℕ, zero, suc, ◌+◌, ◌-◌, ◌*◌, ◌/◌, ◌≤◌, ◌<◌, min, String, ◌≡◌, refl, sym, ap, ◌∙◌, subst, Bool,
  true, false, Option, none, some, List, [], ◌∷◌, ◌++◌, map, arith, leb, nat_eqb_iff, nat_eq,
  string_eq, pair_eq, ==-false, index_error, Result, ok, err, or_raise, ok-injective, ◌>>=◌, length,
  get_elem?, replicate, All, lt_of_get_elem?, range_from, range_from-append, map-range_from_const,
}
use mathlib.Core.Path.{ap₂}
use mathlib.Core.List.{map-append}
use native.Mathlib.Nat.{
  mul-zero, mul-suc, mul_comm, add-zero, add-suc, suc-add, zero-add, div-lt_iff_lt-mul,
  div-eq_of_lt-le, mul-le-mul_right, zero-mul,
}
use split_inference.Base.Dict.{get, get_or, get-put_self}
use split_inference.Policy.Choice.{
  Sweep, sweep_done, first_open, active, is_node, cut_at, sweep_select, wants, sweep,
}

-- `n` dispatches to one node: the cuts chosen, and the policy after them.
pub selects : ℕ → ℕ → Sweep → List (Result String) × Sweep
selects zero node_id p = ([], p)
selects (suc n) node_id p =
    let (cut, p') = sweep_select node_id p in
    let (cuts, p'') = selects n node_id p' in (cut ∷ cuts, p'')

-- Blocks of `r` for each cut.
abbrev pub blocks : ℕ → List String → List (Result String)
blocks r [] = []
blocks r (c ∷ cs) = replicate r (ok c) ++ blocks r cs

-- The cut of the `i`-th dispatch is the one that stands at `i / r` in the node's list.
cut_at-lookup :
    (r : ℕ) (cuts : List String) (i : ℕ)
    → 0 < r
    → i < r * length cuts
    → cut_at r cuts i ≡ or_raise index_error (get_elem? cuts (i / r))
unfolding cut_at
cut_at-lookup r cuts i p h =
    let inside : i / r < length cuts =
      (div-lt_iff_lt-mul p).1 (omega (arith, mul_comm r (length cuts))) in
    let small : min (i / r) (length cuts - 1) ≡ i / r = omega arith in
    rw (==-false r 0 (λ e. omega arith), small)

cut_at_block :
    (r : ℕ) (cuts : List String) (j : ℕ) (c : String) (i : ℕ)
    → 0 < r
    → get_elem? cuts j ≡ some c
    → j * r ≤ i
    → i < j * r + r
    → cut_at r cuts i ≡ ok c
cut_at_block r cuts j c i p at lo hi =
    let row : suc j * r ≤ length cuts * r = mul-le-mul_right r (lt_of_get_elem? cuts j c at) in
    let next : suc j * r ≡ j * r + r = grind arith in
    let quotient : i / r ≡ j = div-eq_of_lt-le r lo (grind arith) in
    cut_at-lookup r cuts i p (omega (arith, mul_comm r (length cuts))) ∙ rw (quotient, at)

blocks-eq_map :
    (r k : ℕ) (cuts : List String) (f : ℕ → Result String)
    → ((j : ℕ) (c : String)
        → get_elem? cuts j ≡ some c
        → (i : ℕ) → (k + j) * r ≤ i
        → i < (k + j) * r + r
        → f i ≡ ok c)
    → map f (range_from (k * r) (r * length cuts)) ≡ blocks r cuts
blocks-eq_map r k [] f h = rw (mul-zero r)
blocks-eq_map r k (c ∷ cs) f h =
    let count : r * length (c ∷ cs) ≡ r + r * length cs = omega (arith, mul-suc r (length cs)) in
    let follows : k * r + r ≡ suc k * r = grind arith in
    let block : map f (range_from (k * r) r) ≡ replicate r (ok c) =
      map-range_from_const f (ok c) (k * r) r
        (λ i lo hi. h zero c refl i (rw (add-zero k) lo) (rw (add-zero k) hi)) in
    let rest : map f (range_from (suc k * r) (r * length cs)) ≡ blocks r cs =
      blocks-eq_map r (suc k) cs f (λ j d g i lo hi.
        h (suc j) d g i (rw (add-suc k j, ← suc-add k j) lo)
          (rw (add-suc k j, ← suc-add k j) hi)) in
    rw (
      count,
      range_from-append (k * r) r (r * length cs),
      follows,
      map-append f (range_from (k * r) r) (range_from (suc k * r) (r * length cs)),
      block,
      rest,
    )

-- Where a sweep stands with one node: its cuts, and how many dispatches it has had.
pub record Tracks (p : Sweep) (node_id : ℕ) (cuts : List String) (i : ℕ) : Type 0 where
  pub listed : get node_id p.cuts_by_node ≡ some cuts
  pub counted : get_or node_id 0 p.count ≡ i

sweep_select-Tracks :
    (p : Sweep) (node_id : ℕ) (cuts : List String) (i : ℕ)
    → Tracks p node_id cuts i
    → ((sweep_select node_id p).0 ≡ cut_at p.reqs_per_cut cuts i)
      × ((sweep_select node_id p).1.reqs_per_cut ≡ p.reqs_per_cut)
      × Tracks (sweep_select node_id p).1 node_id cuts (suc i)
unfolding sweep_select
sweep_select-Tracks p node_id cuts i t = (
  rw (t.listed, t.counted),
  refl,
  record {
    listed = t.listed;
    counted =
        rw (get-put_self node_id (get_or node_id 0 p.count + 1) p.count, get_or)
          (omega (arith, t.counted));
  },
)

selects-Tracks :
    (n : ℕ) (p : Sweep) (node_id : ℕ) (cuts : List String) (i : ℕ)
    → Tracks p node_id cuts i
    → ((selects n node_id p).0 ≡ map (cut_at p.reqs_per_cut cuts) (range_from i n))
      × ((selects n node_id p).1.reqs_per_cut ≡ p.reqs_per_cut)
      × Tracks (selects n node_id p).1 node_id cuts (i + n)
unfolding selects
selects-Tracks zero p node_id cuts i t = (refl, refl, rw (add-zero i) t)
selects-Tracks (suc n) p node_id cuts i t =
    let (cut, same, t') = sweep_select-Tracks p node_id cuts i t in
    let (rest, same', t'') = selects-Tracks n (sweep_select node_id p).1 node_id cuts (suc i) t' in
    (
      ap₂ (λ c cs. c ∷ cs) cut
          (rest ∙ ap (λ (r : ℕ). map (cut_at r cuts) (range_from (suc i) n)) same),
      same' ∙ same,
      rw (add-suc i n, ← suc-add i n) t'',
    )

-- A sweep with a positive `reqs_per_cut` that starts on a node dispatches each of its cuts, in
-- order, exactly `reqs_per_cut` times, and is done with the node then and not before.
pub sweep_blocks :
    (p : Sweep) (node_id : ℕ) (cuts : List String)
    → 0 < p.reqs_per_cut
    → Tracks p node_id cuts 0
    → ((selects (p.reqs_per_cut * length cuts) node_id p).0 ≡ blocks p.reqs_per_cut cuts)
      × ((n : ℕ)
          → sweep_done (selects n node_id p).1 node_id ≡ ok (leb (p.reqs_per_cut * length cuts) n))
unfolding sweep_done
sweep_blocks p node_id cuts h t =
    let r = p.reqs_per_cut in
    (
      (selects-Tracks (r * length cuts) p node_id cuts 0 t).0
          ∙ subst (λ a. map (cut_at r cuts) (range_from a (r * length cuts)) ≡ blocks r cuts)
              (zero-mul r)
              (blocks-eq_map r 0 cuts (cut_at r cuts) (λ j c g i lo hi.
                cut_at_block r cuts j c i h g (rw zero-add at lo) (rw zero-add at hi))),
      λ n.
          let (_, same, t') = selects-Tracks n p node_id cuts 0 t in
          rw (t'.listed, t'.counted, same, zero-add n),
    )

-- The node that a sweep measures: every node before it is done, it is not.
pub record IsFirstOpen (p : Sweep) (ns : List ℕ) (n : ℕ) : Type 0 where
  pub before : List ℕ
  pub after : List ℕ
  pub order : ns ≡ before ++ n ∷ after
  pub finished : All (λ m. sweep_done p m ≡ ok true) before
  pub unfinished : sweep_done p n ≡ ok false

some-is : {m n : ℕ} {e e' : Result (Option ℕ)} → e ≡ ok (some m) → e' ≡ ok (some n) → e ≡ e' → m ≡ n
some-is h h' g = cc

first_open-IsFirstOpen :
    (p : Sweep) (ns : List ℕ) (n : ℕ) → first_open p ns ≡ ok (some n) → IsFirstOpen p ns n
unfolding first_open
first_open-IsFirstOpen p [] n h = cc
first_open-IsFirstOpen p (m ∷ ns) n h =
    split (sweep_done p m) refl (first_open-IsFirstOpen p ns n) h
  where
    split :
        (r : Result Bool)
        → sweep_done p m ≡ r
        → (first_open p ns ≡ ok (some n) → IsFirstOpen p ns n)
        → elim r [ err e ↦ err e | ok true ↦ first_open p ns | ok false ↦ ok (some m) ]
          ≡ ok (some n)
        → IsFirstOpen p (m ∷ ns) n
    split (err e) s rec h = cc
    split (ok true) s rec h =
        let o = rec h in
        record {
          before = m ∷ o.before;
          after = o.after;
          order = ap (λ xs. m ∷ xs) o.order;
          finished = (s, o.finished);
          unfinished = o.unfinished;
        }
    split (ok false) s rec h = record {
      before = [];
      after = ns;
      order = ap (λ k. k ∷ ns) (some-is refl refl h);
      finished = tt;
      unfinished = rw (← some-is refl refl h, s);
    }

is_node-wanted :
    (n : ℕ) (o : Result (Option ℕ)) → (o >>= λ m. ok (is_node n m)) ≡ ok true → o ≡ ok (some n)
is_node-wanted n (err e) h = cc
is_node-wanted n (ok none) h = cc
is_node-wanted n (ok (some m)) h =
    ap (λ k. ok (some k)) (sym ((nat_eqb_iff n m).0 (ok-injective h)))

-- A sweep wants a node only if it is the first of the order that is not done.
pub wants-IsFirstOpen : (p : Sweep) (n : ℕ) → wants (sweep p) n ≡ ok true → IsFirstOpen p p.order n
unfolding wants
wants-IsFirstOpen p n h = first_open-IsFirstOpen p p.order n (is_node-wanted n (active p) h)
