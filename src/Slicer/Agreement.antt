-- ===== src/Slicer/Agreement.antt =====
-- Two memories that agree on what the operators read give the same values, for the models of
-- slicer/slice.py.
use split_inference.Base.{
  ℕ, suc, ◌≡◌, refl, sym, ap, ◌∙◌, subst, inl, inr, Bool, true, false, ◌||◌, Option, none, some,
  List, [], ◌∷◌, ◌++◌, map, if◌then◌else◌, nat_eqb, nat_eqb_iff, Bool-cases, nat_eq, string_eq,
  pair_eq, index_error, ok, or_raise, bind-ok, ◌>>=◌, get_elem?, true-ne-false, or_raise-ok,
}
use mathlib.Core.Path.{ap₂}
use split_inference.Base.Int.{ℤ, pos, negsuc}
use split_inference.Wire.Struct.{Bytes}
use split_inference.Slicer.Graph.{
  Op, Model, given, is_const, nonempty, member, inputs_of, outputs_of,
}
use split_inference.Slicer.Kept.{member-append}
use split_inference.Slicer.Run.{Kernels, view, write, write_all, seen, read, outcome, run}

or-left : (a b : Bool) → a ≡ true → (a || b) ≡ true
or-left true b h = refl
or-left false b h = cc

or-right : (a b : Bool) → b ≡ true → (a || b) ≡ true
or-right true b h = refl
or-right false b h = h

or-false : (a b : Bool) → (a || b) ≡ false → (a ≡ false) × (b ≡ false)
or-false true b h = cc
or-false false b h = (refl, h)

pub member-left : (t : ℕ) (xs ys : List ℕ) → member t xs ≡ true → member t (xs ++ ys) ≡ true
member-left t xs ys h = member-append t xs ys ∙ or-left (member t xs) (member t ys) h

pub member-right : (t : ℕ) (xs ys : List ℕ) → member t ys ≡ true → member t (xs ++ ys) ≡ true
member-right t xs ys h = member-append t xs ys ∙ or-right (member t xs) (member t ys) h

pub member-neither :
    (t : ℕ) (xs ys : List ℕ)
    → member t (xs ++ ys) ≡ false
    → (member t xs ≡ false) × (member t ys ≡ false)
member-neither t xs ys h = or-false (member t xs) (member t ys) (sym (member-append t xs ys) ∙ h)

full_buffer :
    (c : Bool) (o : Option Bytes)
    → (if c then ok false else (or_raise index_error o >>= λ b. ok (nonempty b))) ≡ ok true
    → (b : ℕ) × (bs : Bytes) × (o ≡ some (b ∷ bs))
full_buffer true o h = cc
full_buffer false none h = cc
full_buffer false (some []) h = cc
full_buffer false (some (b ∷ bs)) h = (b, bs, refl)

module _ (k : Kernels) (m : Model) where
  open k use {Value, kernel}

  abbrev pub Agree : ℕ → (ℕ → Value) → (ℕ → Value) → Type 0
  Agree t one other = seen k m one t ≡ seen k m other t

  reads-Agree :
      (one other : ℕ → Value) (is : List ℤ)
      → ((t : ℕ) → member t (given is) ≡ true → Agree t one other)
      → map (read k m one) is ≡ map (read k m other) is
  reads-Agree one other [] agree = refl
  reads-Agree one other (negsuc t ∷ is) agree =
      ap (λ os. none ∷ os) (reads-Agree one other is agree)
  reads-Agree one other (pos t ∷ is) agree =
      ap₂ (λ v os. some ((view m t).0, v) ∷ os)
        (agree t (or-left (nat_eqb t t) _ ((nat_eqb_iff t t).1 refl)))
        (reads-Agree one other is
          (λ u at. agree u (or-right (nat_eqb u t) (member u (given is)) at)))

  write-Agree :
      (one other : ℕ → Value) (t o : ℕ) (v : Value)
      → Agree t one other
      → Agree t (write o v one) (write o v other)
  write-Agree one other t o v agree = elim (Bool-cases (nat_eqb o t)) [
    | inl p ↦ rw p refl
    | inr p ↦ rw p agree
  ]

  write_all-Agree :
      (os : List ℕ) (v : ℕ → Value) (one other : ℕ → Value) (t : ℕ)
      → Agree t one other
      → Agree t (write_all os v one) (write_all os v other)
  write_all-Agree [] v one other t agree = agree
  write_all-Agree (o ∷ os) v one other t agree =
      write_all-Agree os (λ i. v (suc i)) (write o (v 0) one) (write o (v 0) other) t
        (write-Agree one other t o (v 0) agree)

  pub run-Agree :
      (ops : List Op) (outs : List ℕ) (one other : ℕ → Value)
      → ((t : ℕ) → member t (outs ++ inputs_of ops) ≡ true → Agree t one other)
      → (t : ℕ) → member t outs ≡ true
      → Agree t (run k m ops one) (run k m ops other)
  unfolding run
  run-Agree [] outs one other agree t at = agree t (member-left t outs [] at)
  run-Agree (op ∷ ops) outs one other agree t at =
      let computed : outcome k m op one ≡ outcome k m op other = λ i.
        kernel (get_elem? m.operator_codes op.opcode_index)
          (reads-Agree one other op.inputs
            (λ u in_op. agree u (
              member-right u outs (given op.inputs ++ inputs_of ops)
                (member-left u (given op.inputs) (inputs_of ops) in_op)))
            i)
          (map (λ u. (view m u).0) op.outputs) in
      run-Agree ops outs (write_all op.outputs (outcome k m op one) one)
        (write_all op.outputs (outcome k m op other) other)
        (λ u in_rest. elim (Bool-cases (member u outs)) [
          | inl out ↦
              written op one other computed u
                (agree u (member-left u outs (given op.inputs ++ inputs_of ops) out))
          | inr inner ↦ written op one other computed u (
              agree u (
                member-right u outs (given op.inputs ++ inputs_of ops) (
                  member-right u (given op.inputs) (inputs_of ops) (
                    ap (λ b. b || member u (inputs_of ops)) (sym inner)
                    ∙ sym (member-append u outs (inputs_of ops))
                    ∙ in_rest))))
        ])
        t at
    where
      written :
          (op : Op) (one other : ℕ → Value)
          → outcome k m op one ≡ outcome k m op other
          → (u : ℕ) → Agree u one other
          → Agree u
              (write_all op.outputs (outcome k m op one) one)
              (write_all op.outputs (outcome k m op other) other)
      written op one other computed u agree =
          subst
            (λ v.
              Agree u (write_all op.outputs (outcome k m op one) one)
                (write_all op.outputs v other))
            computed (write_all-Agree op.outputs (outcome k m op one) one other u agree)

  pub write_all-untouched :
      (os : List ℕ) (v memory : ℕ → Value) (t : ℕ)
      → member t os ≡ false
      → write_all os v memory t ≡ memory t
  write_all-untouched [] v memory t out = refl
  write_all-untouched (o ∷ os) v memory t out =
      let (ne, rest) = or-false (nat_eqb t o) (member t os) out in
      write_all-untouched os (λ i. v (suc i)) (write o (v 0) memory) t rest
      ∙ elim (Bool-cases (nat_eqb o t)) [
        | inl p ↦ absurd (true-ne-false ((nat_eqb_iff t o).1 (sym ((nat_eqb_iff o t).0 p))) ne)
        | inr p ↦ rw p refl
      ]

  pub run-untouched :
      (ops : List Op) (memory : ℕ → Value) (t : ℕ)
      → member t (outputs_of ops) ≡ false
      → run k m ops memory t ≡ memory t
  unfolding run
  run-untouched [] memory t out = refl
  run-untouched (op ∷ ops) memory t out =
      let (here, later) = member-neither t op.outputs (outputs_of ops) out in
      run-untouched ops (write_all op.outputs (outcome k m op memory) memory) t later
      ∙ write_all-untouched op.outputs (outcome k m op memory) memory t here

  pub run-append :
      (xs ys : List Op) (memory : ℕ → Value)
      → run k m (xs ++ ys) memory ≡ run k m ys (run k m xs memory)
  unfolding run
  run-append [] ys memory = refl
  run-append (x ∷ xs) ys memory =
      run-append xs ys (write_all x.outputs (outcome k m x memory) memory)

  -- A constant tensor is seen alike in every memory.
  pub constant-Agree : (t : ℕ) (one other : ℕ → Value) → is_const m t ≡ ok true → Agree t one other
  unfolding is_const
  constant-Agree t one other const =
      let (u, found, h) = bind-ok (or_raise index_error (get_elem? m.tensors t)) _ const in
      let (b, bs, full) = full_buffer (nat_eqb u.buffer 0) (get_elem? m.buffers u.buffer) h in
      rw (or_raise-ok index_error (get_elem? m.tensors t) found, full) refl
