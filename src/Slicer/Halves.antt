-- ===== src/Slicer/Halves.antt =====
-- The head and the tail of a model that slicer/slice.py cuts, one after the other.
use split_inference.Base.{
  ℕ, zero, suc, ◌+◌, ◌≡◌, refl, sym, ap, ◌∙◌, subst, inl, inr, true, false, Option, none, some,
  List, [], ◌∷◌, map, arith, nat_eqb_iff, Bool-cases, nat_eq, string_eq, pair_eq, ok, length,
  get_elem?, take, drop, take-append-drop, true-ne-false,
}
use mathlib.Core.Path.{ap₂}
use split_inference.Slicer.Graph.{
  Model, member, outputs_of, produced, consumed_later, crossing_tensors,
}
use split_inference.Slicer.Build.{op_slice, build_submodel}
use split_inference.Slicer.Renaming.{build_submodel-IsSubmodel}
use split_inference.Slicer.Crossing.{crosses_only, crosses_all}
use split_inference.Slicer.Run.{
  Kernels, Interpreter, view, write, write_all, value_of, seen, run, results,
}
use split_inference.Slicer.Faithful.{results-submodel}
use split_inference.Slicer.Agreement.{
  Agree, run-Agree, run-untouched, run-append, constant-Agree, member-neither, write_all-untouched,
  member-right,
}

abbrev pub nth : {V : Type 0} → V → List V → ℕ → V
nth default [] i = default
nth default (v ∷ vs) zero = v
nth default (v ∷ vs) (suc i) = nth default vs i

take-length : {A : Type 0} (xs : List A) → take (length xs) xs ≡ xs
take-length [] = refl
take-length (x ∷ xs) = ap (λ t. x ∷ t) (take-length xs)

module _ (k : Kernels) (m : Model) (b x first : ℕ) (known : crossing_tensors m b ≡ ok (x ∷ []))
    (one_input : m.inputs ≡ first ∷ []) where
  open k use {Value, blank}

  value_of_idem :
      (t : ℕ) (v : Value)
      → value_of k (view m t) (value_of k (view m t) v) ≡ value_of k (view m t) v
  value_of_idem t v = split (view m t).0 (view m t).1
    where
      split :
          (p : Option _) (o : Option _)
          → value_of k (p, o) (value_of k (p, o) v) ≡ value_of k (p, o) v
      split p none = refl
      split p (some []) = refl
      split p (some (y ∷ ys)) = refl

  -- The memory that the operators before the boundary leave, and that in which those after it start.
  abbrev after_head : (ℕ → Value) → ℕ → Value
  after_head xs = run k m (take (b + 1) m.operators) (write_all (first ∷ []) xs (λ t. blank))

  abbrev before_tail : (ℕ → Value) → ℕ → Value
  before_tail ys = write_all (x ∷ []) ys (λ t. blank)

  is_crossing : (t : ℕ) → member t (x ∷ []) ≡ true → t ≡ x
  is_crossing t at = ground (arith, nat_eqb_iff t x)

  crossing_agrees :
      (xs : ℕ → Value) → Agree k m x (after_head xs) (before_tail (λ i. seen k m (after_head xs) x))
  crossing_agrees xs = rw ((nat_eqb_iff x x).1 refl) (sym (value_of_idem x (after_head xs x)))

  -- A tensor that the head does not produce is blank in both.
  unwritten_agrees :
      (xs ys : ℕ → Value) (t : ℕ)
      → member t (produced m b) ≡ false
      → Agree k m t (after_head xs) (before_tail ys)
  unwritten_agrees xs ys t never =
      let (not_in, not_out) =
        member-neither t m.inputs (outputs_of (take (b + 1) m.operators)) never in
      let head =
        run-untouched k m (take (b + 1) m.operators) (write_all (first ∷ []) xs (λ t. blank)) t
          not_out
        ∙ write_all-untouched k m (first ∷ []) xs (λ t. blank) t
            (ap (member t) (sym one_input) ∙ not_in) in
      let tail =
        write_all-untouched k m (x ∷ []) ys (λ t. blank) t
          (elim (Bool-cases (member t (x ∷ []))) [
            | inl at ↦ absurd (
                true-ne-false
                  (ap (λ u. member u (produced m b)) (is_crossing t at)
                    ∙ (crosses_only m b (x ∷ []) known x (rw ((nat_eqb_iff x x).1 refl) refl)).0)
                  never)
            | inr out ↦ out
          ]) in
      ap (value_of k (view m t)) (head ∙ sym tail)

  boundary_agrees :
      (xs : ℕ → Value) (t : ℕ)
      → member t (consumed_later m b) ≡ true
      → Agree k m t (after_head xs) (before_tail (λ i. seen k m (after_head xs) x))
  boundary_agrees xs t later = elim (Bool-cases (member t (produced m b))) [
    | inl before ↦ elim (crosses_all m b (x ∷ []) known t before later) [
      | inl const ↦
          constant-Agree k m t (after_head xs) (before_tail (λ i. seen k m (after_head xs) x)) const
      | inr at ↦
          subst (λ u. Agree k m u (after_head xs) (before_tail (λ i. seen k m (after_head xs) x)))
            (sym (is_crossing t at)) (crossing_agrees xs)
    ]
    | inr never ↦ unwritten_agrees xs (λ i. seen k m (after_head xs) x) t never
  ]

  seen_all-Agree :
      (one other : ℕ → Value) (ts : List ℕ)
      → ((t : ℕ) → member t ts ≡ true → Agree k m t one other)
      → map (seen k m one) ts ≡ map (seen k m other) ts
  seen_all-Agree one other [] agree = refl
  seen_all-Agree one other (t ∷ ts) agree =
      ap₂ (λ v vs. v ∷ vs) (agree t (rw ((nat_eqb_iff t t).1 refl) refl))
        (seen_all-Agree one other ts (λ u at. agree u (member-right u (t ∷ []) ts at)))

  halves_results :
      (xs : ℕ → Value)
      → map
          (seen k m
            (run k m (drop (b + 1) m.operators) (before_tail (λ i. seen k m (after_head xs) x))))
          m.outputs
        ≡ results k m xs
  halves_results xs =
      let T = drop (b + 1) m.operators in
      let whole : run k m m.operators (write_all m.inputs xs (λ t. blank))
          ≡ run k m T (after_head xs) =
        ap₂ (λ ops ins. run k m ops (write_all ins xs (λ t. blank)))
          (sym (take-append-drop (b + 1) m.operators)) one_input
        ∙ run-append k m (take (b + 1) m.operators) T (write_all (first ∷ []) xs (λ t. blank)) in
      sym (
        seen_all-Agree (run k m T (after_head xs))
          (run k m T (before_tail (λ i. seen k m (after_head xs) x))) m.outputs
          (run-Agree k m T m.outputs (after_head xs) (before_tail (λ i. seen k m (after_head xs) x))
            (boundary_agrees xs)))
      ∙ ap (λ memory. map (seen k m memory) m.outputs) (sym whole)

  pub invoke-halves :
      (i : Interpreter k) (head tail : Model) (xs : ℕ → Value)
      → get_elem? m.buffers 0 ≡ some []
      → build_submodel m 0 (b + 1) (first ∷ []) (x ∷ []) ≡ ok head
      → build_submodel m (b + 1) (length m.operators) (x ∷ []) m.outputs ≡ ok tail
      → i.invoke tail (nth blank (i.invoke head xs)) ≡ i.invoke m xs
  invoke-halves i head tail xs empty built_head built_tail =
      let ys = nth blank (i.invoke head xs) in
      let y : i.invoke head xs ≡ seen k m (after_head xs) x ∷ [] =
        i.in_order head xs
        ∙ results-submodel k m head 0 (b + 1) (first ∷ []) (x ∷ []) xs
            (build_submodel-IsSubmodel m 0 (b + 1) (first ∷ []) (x ∷ []) head empty built_head) in
      let slice : op_slice m (b + 1) (length m.operators) ≡ drop (b + 1) m.operators =
        ap (drop (b + 1)) (take-length m.operators) in
      i.in_order tail ys
      ∙ results-submodel k m tail (b + 1) (length m.operators) (x ∷ []) m.outputs ys (
          build_submodel-IsSubmodel m (b + 1) (length m.operators) (x ∷ []) m.outputs tail empty
            built_tail)
      ∙ ap₂ (λ ops (v : Value). map (seen k m (run k m ops (write x v (λ t. blank)))) m.outputs)
          slice (ap (λ vs. nth blank vs 0) y)
      ∙ halves_results xs
      ∙ sym (i.in_order m xs)
