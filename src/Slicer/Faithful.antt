-- ===== src/Slicer/Faithful.antt =====
-- A submodel of slicer/slice.py computes, under its own numbers of tensors, what the operators of its
-- slice compute in the model.
use split_inference.Base.{
  ℕ, zero, suc, ◌≡◌, refl, sym, ap, ◌∙◌, subst, inl, inr, none, some, List, [], ◌∷◌, map, nat_eqb,
  nat_eqb_iff, Bool-cases, nat_eq, string_eq, pair_eq, get_elem?, get_elem?-map, true-ne-false,
}
use mathlib.Core.Path.{ap₂}
use split_inference.Base.Int.{ℤ, pos, negsuc}
use split_inference.Slicer.Graph.{Op, Model}
use split_inference.Slicer.Build.{op_slice}
use split_inference.Slicer.Pools.{named, some-injective}
use split_inference.Slicer.Kept.{AreDistinct, get_elem?-injective}
use split_inference.Slicer.Renaming.{meaning, holds, IsSubmodel}
use split_inference.Slicer.Run.{
  Kernels, view, write, write_all, value_of, seen, read, outcome, run, results,
}

get_elem?-map_inv :
    {A B : Type 0} (f : A → B) (xs : List A) (i : ℕ) (y : B)
    → get_elem? (map f xs) i ≡ some y
    → (x : A) × (get_elem? xs i ≡ some x) × (f x ≡ y)
get_elem?-map_inv f [] i y h = cc
get_elem?-map_inv f (x ∷ xs) zero y h = (x, refl, cc)
get_elem?-map_inv f (x ∷ xs) (suc i) y h = get_elem?-map_inv f xs i y h

module _ (k : Kernels) (m sub : Model) (keep : List ℕ) (distinct : AreDistinct keep)
    (tensors : map (λ t. holds sub.buffers (some t)) sub.tensors
      ≡ map (λ old. holds m.buffers (get_elem? m.tensors old)) keep) where
  open k use {Value, kernel}

  view-kept : (n t : ℕ) → get_elem? keep n ≡ some t → view sub n ≡ view m t
  view-kept n t at =
      let here = get_elem?-map (λ old. holds m.buffers (get_elem? m.tensors old)) keep n t at in
      let (u, found, same) =
        get_elem?-map_inv (λ t. holds sub.buffers (some t)) sub.tensors n (view m t)
          (ap (λ vs. get_elem? vs n) tensors ∙ here) in
      ap (holds sub.buffers) found ∙ same

  -- The memory of the submodel holds what the model's holds of the kept tensors.
  abbrev pub Follows : (ℕ → Value) → (ℕ → Value) → Type 0
  Follows inner outer = (n t : ℕ) → get_elem? keep n ≡ some t → inner n ≡ outer t

  pub seen-kept :
      (inner outer : ℕ → Value) (n t : ℕ)
      → Follows inner outer
      → get_elem? keep n ≡ some t
      → seen k sub inner n ≡ seen k m outer t
  seen-kept inner outer n t follows at = ap₂ (value_of k) (view-kept n t at) (follows n t at)

  reads-kept :
      (inner outer : ℕ → Value) (ns ts : List ℤ)
      → Follows inner outer
      → map (named (get_elem? keep)) ns ≡ map (named some) ts
      → map (read k sub inner) ns ≡ map (read k m outer) ts
  reads-kept inner outer [] [] follows same = refl
  reads-kept inner outer [] (t ∷ ts) follows same = cc
  reads-kept inner outer (n ∷ ns) [] follows same = cc
  reads-kept inner outer (pos n ∷ ns) (pos t ∷ ts) follows same =
      let at : get_elem? keep n ≡ some t = cc in
      ap₂ (λ o os. some o ∷ os)
        (ap₂ (λ p v. (p, v)) (ap (λ p. p.0) (view-kept n t at))
          (seen-kept inner outer n t follows at))
        (reads-kept inner outer ns ts follows (cc))
  reads-kept inner outer (pos n ∷ ns) (negsuc t ∷ ts) follows same = cc
  reads-kept inner outer (negsuc n ∷ ns) (pos t ∷ ts) follows same = cc
  reads-kept inner outer (negsuc n ∷ ns) (negsuc t ∷ ts) follows same =
      ap (λ os. none ∷ os) (reads-kept inner outer ns ts follows (cc))

  payloads-kept :
      (ns ts : List ℕ)
      → map (get_elem? keep) ns ≡ map some ts
      → map (λ n. (view sub n).0) ns ≡ map (λ t. (view m t).0) ts
  payloads-kept [] [] same = refl
  payloads-kept [] (t ∷ ts) same = cc
  payloads-kept (n ∷ ns) [] same = cc
  payloads-kept (n ∷ ns) (t ∷ ts) same =
      ap₂ (λ o os. o ∷ os) (ap (λ p. p.0) (view-kept n t (cc))) (payloads-kept ns ts (cc))

  write-Follows :
      (inner outer : ℕ → Value) (n t : ℕ) (v : Value)
      → Follows inner outer
      → get_elem? keep n ≡ some t
      → Follows (write n v inner) (write t v outer)
  write-Follows inner outer n t v follows at i u at' = elim (Bool-cases (nat_eqb n i)) [
    | inl p ↦
        let same : t ≡ u =
          some-injective (sym at ∙ ap (get_elem? keep) ((nat_eqb_iff n i).0 p) ∙ at') in
        rw (p, (nat_eqb_iff t u).1 same) refl
    | inr p ↦ elim (Bool-cases (nat_eqb t u)) [
      | inl q ↦
          let other = (nat_eqb_iff t u).0 q in
          let same = get_elem?-injective keep n i u distinct (at ∙ ap some other) at' in
          absurd (true-ne-false ((nat_eqb_iff n i).1 same) p)
      | inr q ↦ rw (p, q) (follows i u at')
    ]
  ]

  pub write_all-Follows :
      (ns ts : List ℕ) (v : ℕ → Value) (inner outer : ℕ → Value)
      → Follows inner outer
      → map (get_elem? keep) ns ≡ map some ts
      → Follows (write_all ns v inner) (write_all ts v outer)
  write_all-Follows [] [] v inner outer follows same = follows
  write_all-Follows [] (t ∷ ts) v inner outer follows same = cc
  write_all-Follows (n ∷ ns) [] v inner outer follows same = cc
  write_all-Follows (n ∷ ns) (t ∷ ts) v inner outer follows same =
      write_all-Follows ns ts (λ i. v (suc i)) (write n (v 0) inner) (write t (v 0) outer)
        (write-Follows inner outer n t (v 0) follows (cc)) (cc)

  pub run-Follows :
      (os ops : List Op) (inner outer : ℕ → Value)
      → Follows inner outer
      → map (meaning sub.operator_codes (get_elem? keep)) os
        ≡ map (meaning m.operator_codes some) ops
      → Follows (run k sub os inner) (run k m ops outer)
  unfolding run
  run-Follows [] [] inner outer follows same = follows
  run-Follows [] (op ∷ ops) inner outer follows same = cc
  run-Follows (o ∷ os) [] inner outer follows same = cc
  run-Follows (o ∷ os) (op ∷ ops) inner outer follows same =
      let code : get_elem? sub.operator_codes o.opcode_index
          ≡ get_elem? m.operator_codes op.opcode_index =
        cc in
      let ins : map (named (get_elem? keep)) o.inputs ≡ map (named some) op.inputs = cc in
      let outs : map (get_elem? keep) o.outputs ≡ map some op.outputs = cc in
      let computed : outcome k sub o inner ≡ outcome k m op outer = λ i.
        kernel (code i) (reads-kept inner outer o.inputs op.inputs follows ins i)
          (payloads-kept o.outputs op.outputs outs i) in
      run-Follows os ops (write_all o.outputs (outcome k sub o inner) inner)
        (write_all op.outputs (outcome k m op outer) outer)
        (subst
          (λ v.
            Follows (write_all o.outputs (outcome k sub o inner) inner)
              (write_all op.outputs v outer))
          computed
          (write_all-Follows o.outputs op.outputs (outcome k sub o inner) inner outer follows outs))
        (cc)

  pub seen_all-kept :
      (ns ts : List ℕ) (inner outer : ℕ → Value)
      → Follows inner outer
      → map (get_elem? keep) ns ≡ map some ts
      → map (seen k sub inner) ns ≡ map (seen k m outer) ts
  seen_all-kept [] [] inner outer follows same = refl
  seen_all-kept [] (t ∷ ts) inner outer follows same = cc
  seen_all-kept (n ∷ ns) [] inner outer follows same = cc
  seen_all-kept (n ∷ ns) (t ∷ ts) inner outer follows same =
      ap₂ (λ o os. o ∷ os) (seen-kept inner outer n t follows (cc))
        (seen_all-kept ns ts inner outer follows (cc))

-- The results of a submodel are those of its slice, run in the model.
pub results-submodel :
    (k : Kernels) (m sub : Model) (op_lo op_hi : ℕ) (ins outs : List ℕ) (xs : ℕ → k.Value)
    → IsSubmodel m op_lo op_hi ins outs sub
    → results k sub xs
      ≡ map (seen k m (run k m (op_slice m op_lo op_hi) (write_all ins xs (λ t. k.blank)))) outs
results-submodel k m sub op_lo op_hi ins outs xs s =
    seen_all-kept k m sub s.keep s.distinct s.tensors sub.outputs outs _ _
      (run-Follows k m sub s.keep s.distinct s.tensors sub.operators (op_slice m op_lo op_hi) _ _
        (write_all-Follows k m sub s.keep s.distinct s.tensors sub.inputs ins xs (λ t. k.blank)
          (λ t. k.blank) (λ n t at. refl) s.inputs)
        s.operators)
      s.outputs
