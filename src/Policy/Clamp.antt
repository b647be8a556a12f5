-- ===== src/Policy/Clamp.antt =====
-- `clamp` of orchestrator/policy.py: the cut that a tier runs in place of an infeasible one.
use split_inference.Base.{
  true-ne-false, or_raise-ok, ℕ, ◌≤◌, String, ◌≡◌, refl, sym, ap, ◌∙◌, subst, ◌⊎◌, inl, inr, Bool,
  true, false, some, List, [], ◌∷◌, arith, leb, if◌then◌else◌, leb→le, Bool-cases, ◌==◌, nat_eq,
  string_eq, pair_eq, ==-refl, index_error, ok, or_raise, bind-ok, ok-injective, ◌>>=◌, get_elem?,
}
use split_inference.Config.Types.{Config}
use split_inference.Config.Cuts.{cut_index, cuts_for_tier}
use split_inference.Policy.Choice.{up_to, deepest, deepest_or, contains, clamp}
use split_inference.Policy.Deepest.{In, deepest-IsDeepest}

choose :
    (b : Bool) (x : ℕ × String) (rest cs : List (ℕ × String))
    → ok (if b then x ∷ rest else rest) ≡ ok cs
    → ((b ≡ true) × (x ∷ rest ≡ cs)) ⊎ ((b ≡ false) × (rest ≡ cs))
choose true x rest cs h = inl (refl, ok-injective h)
choose false x rest cs h = inr (refl, ok-injective h)

not_leb : (a b : ℕ) → a ≤ b → leb a b ≡ false → ⊥
not_leb a b le h = ground arith

contains-here : (a : String) (xs : List String) → contains a (a ∷ xs) ≡ true
contains-here a xs = rw (==-refl a) refl

contains-there :
    (a x : String) (xs : List String) → contains a xs ≡ true → contains a (x ∷ xs) ≡ true
contains-there a x xs h = elim (Bool-cases (x == a)) [
  | inl p ↦ rw (p) refl
  | inr p ↦ rw (p, h) refl
]

contains-cases :
    (a x : String) (xs : List String)
    → contains a (x ∷ xs) ≡ true
    → (x ≡ a) ⊎ (contains a xs ≡ true)
contains-cases a x xs h = elim (Bool-cases (x == a)) [
  | inl p ↦ inl ((string_eq.beq_iff x a).0 p)
  | inr p ↦ inr (rw (p) at h)
]

up_to-In :
    (cfg : Config) (wanted : ℕ) (fs : List String) (cs : List (ℕ × String))
    → up_to cfg wanted fs ≡ ok cs
    → (j : ℕ) (d : String) → In j d cs
    → (contains d fs ≡ true) × (cut_index cfg d ≡ ok j) × (j ≤ wanted)
unfolding up_to
up_to-In cfg wanted [] cs h j d e = absurd (subst (In j d) (sym (ok-injective h)) e)
up_to-In cfg wanted (f ∷ fs) cs h j d e =
    let (i, at, h') = bind-ok (cut_index cfg f) _ h in
    let (rest, more, last) = bind-ok (up_to cfg wanted fs) _ h' in
    let later : In j d rest
        → (contains d (f ∷ fs) ≡ true) × (cut_index cfg d ≡ ok j) × (j ≤ wanted) =
      λ x.
        let (a, b, c) = up_to-In cfg wanted fs rest more j d x in (contains-there d f fs a, b, c) in
    elim (choose (leb i wanted) (i, f) rest cs last) [
      | inl (small, whole) ↦ elim (subst (In j d) (sym whole) e) [
        | inl (e1, e2) ↦ (
          subst (λ z. contains z (f ∷ fs) ≡ true) (sym e2) (contains-here f fs),
          subst (λ z. cut_index cfg z ≡ ok j) (sym e2) (at ∙ ap ok (sym e1)),
          subst (λ z. z ≤ wanted) (sym e1) (leb→le i wanted small),
        )
        | inr x ↦ later x
      ]
      | inr (_, whole) ↦ later (subst (In j d) (sym whole) e)
    ]

up_to_complete :
    (cfg : Config) (wanted : ℕ) (fs : List String) (cs : List (ℕ × String))
    → up_to cfg wanted fs ≡ ok cs
    → (j : ℕ) (d : String) → contains d fs ≡ true
    → cut_index cfg d ≡ ok j
    → j ≤ wanted
    → In j d cs
unfolding up_to
up_to_complete cfg wanted [] cs h j d e at le = cc
up_to_complete cfg wanted (f ∷ fs) cs h j d e at le =
    let (i, at', h') = bind-ok (cut_index cfg f) _ h in
    let (rest, more, last) = bind-ok (up_to cfg wanted fs) _ h' in
    let index : f ≡ d → i ≡ j = λ same. ok-injective (sym at' ∙ ap (cut_index cfg) same ∙ at) in
    elim (choose (leb i wanted) (i, f) rest cs last) [
      | inl (small, whole) ↦ subst (In j d) whole (elim (contains-cases d f fs e) [
        | inl same ↦ inl (sym (index same), sym same)
        | inr later ↦ inr (up_to_complete cfg wanted fs rest more j d later at le)
      ])
      | inr (big, whole) ↦ subst (In j d) whole (elim (contains-cases d f fs e) [
        | inl same ↦
            let here : i ≡ j = index same in
            let small : i ≤ wanted = subst (λ k. k ≤ wanted) (sym here) le in
            absurd (not_leb i wanted small big)
        | inr later ↦ up_to_complete cfg wanted fs rest more j d later at le
      ])
    ]

-- What `clamp` promises of the cut it answers for `cut`, in a tier whose cuts are `fs`.
pub record IsClamped (cfg : Config) (fs : List String) (cut answer : String) : Type 0 where
  pub feasible : contains answer fs ≡ true
  pub kept : contains cut fs ≡ true → answer ≡ cut
  pub deepest_before :
      contains cut fs ≡ false
      → (wanted : ℕ) → cut_index cfg cut ≡ ok wanted
      → (j : ℕ) (d : String) → contains d fs ≡ true
      → cut_index cfg d ≡ ok j
      → j ≤ wanted
      → (i : ℕ) × (cut_index cfg answer ≡ ok i) × (j ≤ i) × (i ≤ wanted)

head-contains : (fs : List String) (c : String) → get_elem? fs 0 ≡ some c → contains c fs ≡ true
head-contains [] c h = cc
head-contains (f ∷ fs) c h =
    subst (λ z. contains z (f ∷ fs) ≡ true) (option-injective h) (contains-here f fs)
  where
    option-injective : {a b : String} → some a ≡ some b → a ≡ b
    option-injective h = cc

-- The answer among the candidates.
pick-IsClamped :
    (cfg : Config) (fs : List String) (cut default : String) (wanted : ℕ) (cs : List (ℕ × String))
    → contains cut fs ≡ false
    → cut_index cfg cut ≡ ok wanted
    → contains default fs ≡ true
    → up_to cfg wanted fs ≡ ok cs
    → IsClamped cfg fs cut (deepest_or default cs)
pick-IsClamped cfg fs cut default wanted [] out at first all = record {
  feasible = first;
  kept = λ h. absurd (true-ne-false h out);
  deepest_before = λ _ w at' j d e i le.
      let same : wanted ≡ w = ok-injective (sym at ∙ at') in
      absurd (up_to_complete cfg wanted fs [] all j d e i (rw (same) le));
}
pick-IsClamped cfg fs cut default wanted ((k, c) ∷ cs) out at first all =
    let best = deepest-IsDeepest k c cs in
    let (e, i, le) =
      up_to-In cfg wanted fs ((k, c) ∷ cs) all best.index (deepest (k, c) cs) best.entry in
    record {
      feasible = e;
      kept = λ h. absurd (true-ne-false h out);
      deepest_before = λ _ w at' j d e' i' le'.
          let same : wanted ≡ w = ok-injective (sym at ∙ at') in
          (
            best.index,
            i,
            best.top j d (up_to_complete cfg wanted fs ((k, c) ∷ cs) all j d e' i' (rw (same) le')),
            rw (← same) le,
          );
    }

-- If `clamp` answers a cut, it is one of the tier; it is the cut asked for if the tier has it,
-- else the deepest cut of the tier at or before it if there is one.
pub clamp-IsClamped :
    (cfg : Config) (tier cut answer : String) (fs : List String)
    → cuts_for_tier cfg tier ≡ ok fs
    → clamp cfg tier cut ≡ ok answer
    → IsClamped cfg fs cut answer
unfolding clamp
clamp-IsClamped cfg tier cut answer fs known h =
    let (fs', known', h') = bind-ok (cuts_for_tier cfg tier) _ h in
    let same : fs' ≡ fs = ok-injective (sym known' ∙ known) in
    subst (λ gs. IsClamped cfg gs cut answer) same (split fs' (contains cut fs') refl h')
  where
    split :
        (gs : List String) (b : Bool)
        → contains cut gs ≡ b
        → (if b
            then ok cut
            else cut_index cfg cut >>= λ wanted.
                or_raise index_error (get_elem? gs 0) >>= λ default.
                up_to cfg wanted gs >>= λ cs. ok (deepest_or default cs))
          ≡ ok answer
        → IsClamped cfg gs cut answer
    split gs true e h = subst (IsClamped cfg gs cut) (ok-injective h) (record {
      feasible = e;
      kept = λ _. refl;
      deepest_before = λ out. absurd (true-ne-false e out);
    })
    split gs false e h =
        let (wanted, at, h1) = bind-ok (cut_index cfg cut) _ h in
        let (default, first, h2) = bind-ok (or_raise index_error (get_elem? gs 0)) _ h1 in
        let (cs, all, h3) = bind-ok (up_to cfg wanted gs) _ h2 in
        subst (IsClamped cfg gs cut) (ok-injective h3) (
          pick-IsClamped cfg gs cut default wanted cs e at
            (head-contains gs default (or_raise-ok index_error (get_elem? gs 0) first)) all)
