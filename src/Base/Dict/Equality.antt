-- ===== src/Base/Dict/Equality.antt =====
-- Python's `==` of two dictionaries, which does not look at the order.
use Prim.Native.Nat.{suc, ◌<◌}
use mathlib.Core.Path.{◌≡◌, refl, sym, ap, ◌∙◌}
use mathlib.Core.Logic.{inl, inr}
use mathlib.Core.Bool.{Bool, true, false, ◌&&◌}
use mathlib.Core.Option.{Option, none, some}
use mathlib.Core.List.{List, [], ◌∷◌}
use native.Mathlib.Omega.{arith}
use split_inference.Base.Tests.{
  Eq, ◌==◌, if◌then◌else◌, ==-refl, nat_eqb, nat_eqb_iff, Bool-cases, Option-cases,
}
use split_inference.Base.Lists.{length}
use split_inference.Base.Dict.Defs.{Dict, get, put, remove, get-remove, Distinct, put-Distinct}

module _ {ℓ κ} {K : Type ℓ} {V : Type κ} ⦃e : Eq K⦄ where
  -- {k: v for k, v in …}
  unfoldable pub to_dict : List (K × V) → Dict K V → Dict K V
  to_dict [] m = m
  to_dict ((k, v) ∷ items) m = to_dict items (put k v m)

  pub to_dict-Distinct :
      (items : List (K × V)) (m : Dict K V) → Distinct m → Distinct (to_dict items m)
  unfolding to_dict
  to_dict-Distinct [] m d = d
  to_dict-Distinct ((k, v) ∷ items) m d = to_dict-Distinct items (put k v m) (put-Distinct k v m d)

  remove-absent : (j : K) (m : Dict K V) → get j m ≡ none → length (remove j m) ≡ length m
  unfolding get remove
  remove-absent j [] h = refl
  remove-absent j ((i, u) ∷ m) h = ground (arith, remove-absent j m)

  length-remove :
      (j : K) (v : V) (m : Dict K V)
      → Distinct m
      → get j m ≡ some v
      → length m ≡ suc (length (remove j m))
  unfolding get remove
  length-remove j v [] d h = cc
  length-remove j v ((i, u) ∷ m) d h =
      ground (arith, e.beq_iff i j, remove-absent j m, length-remove j v m d.1)

  remove-Distinct : (j : K) (m : Dict K V) → Distinct m → Distinct (remove j m)
  unfolding get remove
  remove-Distinct j [] d = tt
  remove-Distinct j ((i, u) ∷ m) d = elim (Bool-cases (i == j)) [
    | inl p ↦ rw p (remove-Distinct j m d.1)
    | inr p ↦ rw p (ground (arith, get-remove j i m, d.0), remove-Distinct j m d.1)
  ]

  -- A dictionary with a key more than another that it extends is longer.
  length-lt-length :
      (m n : Dict K V) (k : K) (w : V)
      → Distinct m
      → Distinct n
      → ((j : K) (v : V) → get j m ≡ some v → get j n ≡ some v)
      → get k m ≡ none
      → get k n ≡ some w
      → length m < length n
  unfolding get
  length-lt-length [] [] k w d d' sub out at = cc
  length-lt-length [] (x ∷ n) k w d d' sub out at = omega arith
  length-lt-length ((j, v) ∷ m) n k w d d' sub out at =
      let here : get j n ≡ some v = sub j v (rw (==-refl j) refl) in
      let smaller = length-remove j v n d' here in
      let other : (j == k) ≡ false = not_here (j == k) out in
      let rest =
        length-lt-length m (remove j n) k w d.1 (remove-Distinct j n d')
          (λ i u inner. kept i u inner) (absent (j == k) out)
          (get-remove j k n ∙ ap (λ (b : Bool). if b then none else get k n) other ∙ at) in
      omega arith
    where
      not_here : (b : Bool) → (if b then some v else get k m) ≡ none → b ≡ false
      not_here true h = cc
      not_here false h = refl

      absent : (b : Bool) → (if b then some v else get k m) ≡ none → get k m ≡ none
      absent true h = cc
      absent false h = h

      kept : (i : K) (u : V) → get i m ≡ some u → get i (remove j n) ≡ some u
      kept i u inner = elim (Bool-cases (j == i)) [
        | inl p ↦
            let same : j ≡ i = (e.beq_iff j i).0 p in
            let missing : none ≡ some u = sym d.0 ∙ ap (λ x. get x m) same ∙ inner in cc
        | inr p ↦
            get-remove j i n
            ∙ ap (λ (b : Bool). if b then none else get i n) p
            ∙ sub i u (ap (λ (b : Bool). if b then some v else get i m) p ∙ inner)
      ]

and-both : (a b : Bool) → (a && b) ≡ true → (a ≡ true) × (b ≡ true)
and-both true b h = (refl, h)
and-both false b h = cc

module _ {κ} {V : Type κ} ⦃f : Eq V⦄ where
  unfoldable pub holds_item : V → Option V → Bool
  holds_item v none = false
  holds_item v (some w) = v == w

  item_of : (v : V) (o : Option V) → holds_item v o ≡ true → o ≡ some v
  unfolding holds_item
  item_of v none h = cc
  item_of v (some w) h = ap some (sym ((f.beq_iff v w).0 h))

module _ {ℓ κ} {K : Type ℓ} {V : Type κ} ⦃e : Eq K⦄ ⦃f : Eq V⦄ where
  unfoldable pub all_in : Dict K V → Dict K V → Bool
  all_in [] n = true
  all_in ((k, v) ∷ m) n = holds_item v (get k n) && all_in m n

  unfoldable pub dict_eqb : Dict K V → Dict K V → Bool
  dict_eqb m n = nat_eqb (length m) (length n) && all_in m n

  all_in-get :
      (m n : Dict K V) (k : K) (v : V) → all_in m n ≡ true → get k m ≡ some v → get k n ≡ some v
  unfolding get all_in
  all_in-get [] n k v all at = cc
  all_in-get ((j, u) ∷ m) n k v all at =
      let (first, rest) = and-both (holds_item u (get j n)) (all_in m n) all in
      elim (Bool-cases (j == k)) [
        | inl p ↦
            let same : j ≡ k = (e.beq_iff j k).0 p in
            ap (λ x. get x n) (sym same)
            ∙ item_of u (get j n) first
            ∙ sym (ap (λ (b : Bool). if b then some u else get k m) p)
            ∙ at
        | inr p ↦
            all_in-get m n k v rest (sym (ap (λ (b : Bool). if b then some u else get k m) p) ∙ at)
      ]

  pub dict_eqb-get :
      (m n : Dict K V) (k : K) → Distinct m → Distinct n → dict_eqb m n ≡ true → get k m ≡ get k n
  unfolding dict_eqb
  dict_eqb-get m n k d d' same =
      let (long, all) = and-both (nat_eqb (length m) (length n)) (all_in m n) same in
      elim (Option-cases (get k m)) [
        | inr (v, at) ↦ at ∙ sym (all_in-get m n k v all at)
        | inl out ↦ elim (Option-cases (get k n)) [
          | inl out' ↦ out ∙ sym out'
          | inr (w, at) ↦
              let more = length-lt-length m n k w d d' (λ j v h. all_in-get m n j v all h) out at in
              absurd (omega (arith, (nat_eqb_iff (length m) (length n)).0 long))
        ]
      ]
