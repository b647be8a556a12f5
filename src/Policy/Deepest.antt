-- ===== src/Policy/Deepest.antt =====
-- The deepest cut that `clamp` of orchestrator/policy.py picks.
use split_inference.Base.{
  ℕ, ◌≤◌, ◌<◌, String, ◌≡◌, refl, sym, ap, subst, ◌⊎◌, inl, inr, Bool, true, false, List, [], ◌∷◌,
  arith, ltb, if◌then◌else◌, ltb→lt, Bool-cases, nat_eq, string_eq, pair_eq,
}
use split_inference.Policy.Choice.{deepest}

-- An entry of a list of indexed cuts.
abbrev pub In : ℕ → String → List (ℕ × String) → Type 0
In i c [] = ⊥
In i c ((j, d) ∷ cs) = ((i ≡ j) × (c ≡ d)) ⊎ In i c cs

deepest-deeper :
    (i j : ℕ) (c d : String) (cs : List (ℕ × String))
    → ltb i j ≡ true
    → deepest (i, c) ((j, d) ∷ cs) ≡ deepest (j, d) cs
unfolding deepest
deepest-deeper i j c d cs h = ap (λ (b : Bool). deepest (if b then (j, d) else (i, c)) cs) h

deepest-kept :
    (i j : ℕ) (c d : String) (cs : List (ℕ × String))
    → ltb i j ≡ false
    → deepest (i, c) ((j, d) ∷ cs) ≡ deepest (i, c) cs
unfolding deepest
deepest-kept i j c d cs h = ap (λ (b : Bool). deepest (if b then (j, d) else (i, c)) cs) h

deepest_self : (i : ℕ) (c : String) → deepest (i, c) [] ≡ c
unfolding deepest
deepest_self i c = refl

-- An entry that no entry is deeper than.
pub record IsDeepest (cs : List (ℕ × String)) (c : String) : Type 0 where
  pub index : ℕ
  pub entry : In index c cs
  pub top : (j : ℕ) (d : String) → In j d cs → j ≤ index

pub deepest-IsDeepest :
    (i : ℕ) (c : String) (cs : List (ℕ × String)) → IsDeepest ((i, c) ∷ cs) (deepest (i, c) cs)
deepest-IsDeepest i c [] = subst (IsDeepest ((i, c) ∷ [])) (sym (deepest_self i c)) (record {
  index = i;
  entry = inl (refl, refl);
  top = λ j d h. elim h [ inl (e, _) ↦ omega arith | inr x ↦ elim x [ ] ];
})
deepest-IsDeepest i c ((j, d) ∷ cs) = elim (Bool-cases (ltb i j)) [
  | inl deeper ↦
      let best = deepest-IsDeepest j d cs in
      let a : j ≤ best.index = best.top j d (inl (refl, refl)) in
      let b : i < j = ltb→lt i j deeper in
      subst (IsDeepest ((i, c) ∷ (j, d) ∷ cs)) (sym (deepest-deeper i j c d cs deeper)) (record {
        index = best.index;
        entry = inr best.entry;
        top = λ j' d' h. elim h [ inl (e, _) ↦ omega arith | inr x ↦ best.top j' d' x ];
      })
  | inr kept ↦
      let best = deepest-IsDeepest i c cs in
      let a : i ≤ best.index = best.top i c (inl (refl, refl)) in
      let b : j ≤ i = ground arith in
      subst (IsDeepest ((i, c) ∷ (j, d) ∷ cs)) (sym (deepest-kept i j c d cs kept)) (record {
        index = best.index;
        entry = elim best.entry [ inl e ↦ inl e | inr x ↦ inr (inr x) ];
        top = λ j' d' h. elim h [
          | inl e ↦ best.top j' d' (inl e)
          | inr (inl (e, _)) ↦ omega arith
          | inr (inr x) ↦ best.top j' d' (inr x)
        ];
      })
]

-- A conditional entry.
