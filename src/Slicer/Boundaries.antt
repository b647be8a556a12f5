-- ===== src/Slicer/Boundaries.antt =====
-- The candidates of slicer/slice.py are the boundaries that one tensor crosses.
use split_inference.Base.{
  ℕ, String, ◌≡◌, refl, sym, ap, ◌∙◌, subst, ◌≢◌, ◌↔◌, ◌⊎◌, inl, inr, Bool, true, false, Option,
  some, List, [], ◌∷◌, ◌++◌, arith, if◌then◌else◌, nat_eqb, nat_eqb_iff, Bool-cases, nat_eq,
  string_eq, pair_eq, index_error, ok, or_raise, bind-ok, ok-injective, get_elem?, true-ne-false,
}
use split_inference.Slicer.Graph.{
  Model, member, is_const, produced, consumed_later, crossing_tensors,
}
use split_inference.Slicer.Crossing.{crosses_only, crosses_all}
use split_inference.Slicer.Candidates.{
  Candidate, tensor_info, op_name, add_candidate, candidates_from, find_candidate,
}

-- The candidate at a boundary.
pub record IsCandidate (m : Model) (bop : ℕ) (c : Candidate) : Type 0 where
  pub boundary : c.boundary_op ≡ bop
  pub crossing : crossing_tensors m bop ≡ ok (c.crossing_tensor ∷ [])
  pub described : tensor_info m c.crossing_tensor ≡ ok c.info

module _ (names : ℕ → Option String) (m : Model) where
  add_candidate-IsCandidate :
      (bop x : ℕ) (found : List Candidate)
      → crossing_tensors m bop ≡ ok (x ∷ [])
      → add_candidate names m bop (x ∷ []) ≡ ok found
      → (c : Candidate) × (found ≡ c ∷ []) × (c.crossing_tensor ≡ x) × IsCandidate m bop c
  unfolding add_candidate
  add_candidate-IsCandidate bop x found known h =
      let (info, described, h1) = bind-ok (tensor_info m x) _ h in
      let (op, at, h2) = bind-ok (or_raise index_error (get_elem? m.operators bop)) _ h1 in
      let (name, called, last) = bind-ok (op_name names m op) _ h2 in
      (
        record { boundary_op = bop; op = name; crossing_tensor = x; info = info },
        sym (ok-injective last),
        refl,
        record { boundary = refl; crossing = known; described = described },
      )

  -- What is found at a boundary, or that nothing is.
  add_candidate-cases :
      (bop : ℕ) (xs : List ℕ) (found : List Candidate)
      → crossing_tensors m bop ≡ ok xs
      → add_candidate names m bop xs ≡ ok found
      → ((found ≡ []) × ((x : ℕ) → xs ≢ x ∷ []))
        ⊎ ((c : Candidate) × (found ≡ c ∷ []) × IsCandidate m bop c)
  unfolding add_candidate
  add_candidate-cases bop [] found known h = inl (sym (ok-injective h), λ x e. cc)
  add_candidate-cases bop (x ∷ (y ∷ xs)) found known h = inl (sym (ok-injective h), λ z e. cc)
  add_candidate-cases bop (x ∷ []) found known h =
      let (c, one, _, is) = add_candidate-IsCandidate bop x found known h in inr (c, one, is)

  -- What is found under a boundary is its candidate.
  pub find_candidate-IsCandidate :
      (bops : List ℕ) (cs : List Candidate) (bop : ℕ) (c : Candidate)
      → candidates_from names m bops ≡ ok cs
      → find_candidate bop cs ≡ some c
      → IsCandidate m bop c
  unfolding candidates_from
  find_candidate-IsCandidate [] cs bop c h at =
      let none_left = ap (find_candidate bop) (ok-injective h) ∙ at in cc
  find_candidate-IsCandidate (b ∷ bops) cs bop c h at =
      let (xs, known, h1) = bind-ok (crossing_tensors m b) _ h in
      let (found, added, h2) = bind-ok (add_candidate names m b xs) _ h1 in
      let (rest, more, last) = bind-ok (candidates_from names m bops) _ h2 in
      let in_both = ap (find_candidate bop) (ok-injective last) ∙ at in
      elim (add_candidate-cases b xs found known added) [
        | inl (nothing, _) ↦
            find_candidate-IsCandidate bops rest bop c more
              (ap (λ l. find_candidate bop (l ++ rest)) (sym nothing) ∙ in_both)
        | inr (d, one, is) ↦
            first d is rest (find_candidate-IsCandidate bops rest bop c more)
              (ap (λ l. find_candidate bop (l ++ rest)) (sym one) ∙ in_both)
      ]
    where
      first :
          (d : Candidate)
          → IsCandidate m b d
          → (rest : List Candidate) → (find_candidate bop rest ≡ some c → IsCandidate m bop c)
          → (if nat_eqb d.boundary_op bop then some d else find_candidate bop rest) ≡ some c
          → IsCandidate m bop c
      first d is rest later at = elim (Bool-cases (nat_eqb d.boundary_op bop)) [
        | inl p ↦
            let same : d ≡ c = cc in
            subst (IsCandidate m bop) same (
              subst (λ n. IsCandidate m n d) (sym is.boundary ∙ (nat_eqb_iff d.boundary_op bop).0 p)
                is)
        | inr p ↦
            later (ap (λ (t : Bool). if t then some d else find_candidate bop rest) (sym p) ∙ at)
      ]

-- The one tensor that is an input or written before the boundary, is read or an output after it, and
-- is not constant.
abbrev pub CrossesAlone : Model → ℕ → ℕ → Type 0
CrossesAlone m bop x =
    (t : ℕ)
    → ((member t (produced m bop) ≡ true)
        × (member t (consumed_later m bop) ≡ true)
        × (is_const m t ≡ ok false))
      ↔ (t ≡ x)

pub single-CrossesAlone :
    (m : Model) (bop x : ℕ) → crossing_tensors m bop ≡ ok (x ∷ []) → CrossesAlone m bop x
single-CrossesAlone m bop x known t = (
  λ (before, later, var). elim (crosses_all m bop (x ∷ []) known t before later) [
    | inl const ↦ absurd (true-ne-false refl (ok-injective (sym const ∙ var)))
    | inr at ↦ ground (arith, nat_eqb_iff t x)
  ],
  λ same. crosses_only m bop (x ∷ []) known t (rw ((nat_eqb_iff t x).1 same) refl),
)
