-- ===== src/Slicer/Crossing.antt =====
-- Which tensors `crossing_tensors` of slicer/slice.py answers.
use split_inference.Base.{
  ℕ, ◌≡◌, refl, sym, ap, ◌∙◌, subst, ◌⊎◌, inl, inr, Bool, true, false, ◌&&◌, ◌||◌, List, [], ◌∷◌,
  arith, if◌then◌else◌, nat_eqb, nat_eqb_iff, Bool-cases, nat_eq, string_eq, pair_eq, ok, bind-ok,
  ok-injective, keep_if, true-ne-false,
}
use split_inference.Slicer.Graph.{
  Model, is_const, member, produced, consumed_later, crossing, keep_variable, insert, sorted_set,
  crossing_tensors,
}

member-insert : (t n : ℕ) (ns : List ℕ) → member t (insert n ns) ≡ (nat_eqb t n || member t ns)
unfolding insert
member-insert t n [] = refl
member-insert t n (m ∷ ms) = ground (arith, member-insert t n ms, nat_eqb_iff n m)

pub member-sorted_set : (t : ℕ) (ns : List ℕ) → member t (sorted_set ns) ≡ member t ns
unfolding sorted_set
member-sorted_set t [] = refl
member-sorted_set t (n ∷ ns) =
    member-insert t n (sorted_set ns) ∙ ap (λ b. nat_eqb t n || b) (member-sorted_set t ns)

member-keep_if :
    (p : ℕ → Bool) (t : ℕ) (ns : List ℕ) → member t (keep_if p ns) ≡ (member t ns && p t)
member-keep_if p t [] = refl
member-keep_if p t (n ∷ ns) = elim (Bool-cases (nat_eqb t n)) [
  | inl q ↦
      let same = (nat_eqb_iff t n).0 q in
      rw (← same) (ground (arith, member-keep_if p t ns, nat_eqb_iff t t))
  | inr q ↦ ground (arith, member-keep_if p t ns)
]

-- The tensors produced before the boundary and consumed after it.
member-crossing :
    (m : Model) (c t : ℕ)
    → member t (crossing m c) ≡ (member t (produced m c) && member t (consumed_later m c))
member-crossing m c t =
    member-sorted_set t (keep_if (λ u. member u (consumed_later m c)) (produced m c))
    ∙ member-keep_if (λ u. member u (consumed_later m c)) t (produced m c)

-- What is kept of a list: its members that are not constant.
keep_variable-member :
    (m : Model) (t : ℕ) (ts xs : List ℕ)
    → keep_variable m ts ≡ ok xs
    → member t xs ≡ true
    → (member t ts ≡ true) × (is_const m t ≡ ok false)
unfolding keep_variable
keep_variable-member m t [] xs h at =
    absurd (true-ne-false at (ap (member t) (sym (ok-injective h))))
keep_variable-member m t (u ∷ ts) xs h at =
    let (c, tested, h') = bind-ok (is_const m u) _ h in
    let (rest, more, last) = bind-ok (keep_variable m ts) _ h' in
    split c tested rest more (ok-injective last) (keep_variable-member m t ts rest more)
  where
    split :
        (c : Bool)
        → is_const m u ≡ ok c
        → (rest : List ℕ) → keep_variable m ts ≡ ok rest
        → (if c then rest else u ∷ rest) ≡ xs
        → (member t rest ≡ true → (member t ts ≡ true) × (is_const m t ≡ ok false))
        → (member t (u ∷ ts) ≡ true) × (is_const m t ≡ ok false)
    split true tested rest more same ih =
        let (old, var) = ih (ap (member t) same ∙ at) in (ground arith, var)
    split false tested rest more same ih = elim (Bool-cases (nat_eqb t u)) [
      | inl p ↦ (rw p, subst (λ v. is_const m v ≡ ok false) (sym ((nat_eqb_iff t u).0 p)) tested)
      | inr p ↦
          let (old, var) = ih (ap (λ b. b || member t rest) (sym p) ∙ ap (member t) same ∙ at) in
          (ground arith, var)
    ]

-- A listed tensor is constant, or it is kept.
keep_variable-cases :
    (m : Model) (t : ℕ) (ts xs : List ℕ)
    → keep_variable m ts ≡ ok xs
    → member t ts ≡ true
    → (is_const m t ≡ ok true) ⊎ (member t xs ≡ true)
unfolding keep_variable
keep_variable-cases m t [] xs h at = cc
keep_variable-cases m t (u ∷ ts) xs h at =
    let (c, tested, h') = bind-ok (is_const m u) _ h in
    let (rest, more, last) = bind-ok (keep_variable m ts) _ h' in
    split c tested rest (ok-injective last) (keep_variable-cases m t ts rest more)
  where
    split :
        (c : Bool)
        → is_const m u ≡ ok c
        → (rest : List ℕ) → (if c then rest else u ∷ rest) ≡ xs
        → (member t ts ≡ true → (is_const m t ≡ ok true) ⊎ (member t rest ≡ true))
        → (is_const m t ≡ ok true) ⊎ (member t xs ≡ true)
    split true tested rest same ih = elim (Bool-cases (nat_eqb t u)) [
      | inl p ↦ inl (subst (λ v. is_const m v ≡ ok true) (sym ((nat_eqb_iff t u).0 p)) tested)
      | inr p ↦ elim (ih (ap (λ b. b || member t ts) (sym p) ∙ at)) [
        | inl const ↦ inl const
        | inr old ↦ inr (ap (member t) (sym same) ∙ old)
      ]
    ]
    split false tested rest same ih = elim (Bool-cases (nat_eqb t u)) [
      | inl p ↦ inr (ap (member t) (sym same) ∙ ap (λ b. b || member t rest) p)
      | inr p ↦ elim (ih (ap (λ b. b || member t ts) (sym p) ∙ at)) [
        | inl const ↦ inl const
        | inr old ↦ inr (ap (member t) (sym same) ∙ ap (λ b. b || member t rest) p ∙ old)
      ]
    ]

and-true : (a b : Bool) → (a && b) ≡ true → (a ≡ true) × (b ≡ true)
and-true true b h = (refl, h)
and-true false b h = cc

module _ (m : Model) (c : ℕ) (xs : List ℕ) (known : crossing_tensors m c ≡ ok xs) where
  -- What crosses a boundary is produced before it, consumed after it and not constant.
  pub crosses_only :
      (t : ℕ)
      → member t xs ≡ true
      → (member t (produced m c) ≡ true)
        × (member t (consumed_later m c) ≡ true)
        × (is_const m t ≡ ok false)
  unfolding crossing_tensors
  crosses_only t at =
      let (in_both, var) = keep_variable-member m t (crossing m c) xs known at in
      let (before, after) = and-true _ _ (sym (member-crossing m c t) ∙ in_both) in
      (before, after, var)

  -- What is produced before it and consumed after it is constant, or it crosses.
  pub crosses_all :
      (t : ℕ)
      → member t (produced m c) ≡ true
      → member t (consumed_later m c) ≡ true
      → (is_const m t ≡ ok true) ⊎ (member t xs ≡ true)
  unfolding crossing_tensors
  crosses_all t before after =
      keep_variable-cases m t (crossing m c) xs known
        (member-crossing m c t ∙ rw (before, after) refl)
