-- ===== src/Slicer/Pools.antt =====
-- The renaming of tensors and the pools of copies of `build_submodel`, slicer/slice.py.
use split_inference.Base.{
  or_raise-ok, ℕ, zero, suc, ◌≡◌, refl, sym, ap, ◌∙◌, subst, inl, inr, Bool, Option, none, some,
  List, [], ◌∷◌, ◌++◌, map, arith, if◌then◌else◌, nat_eqb_iff, Bool-cases, ◌==◌, nat_eq, string_eq,
  pair_eq, key_error, index_error, ok, err, or_raise, bind-ok, ok-injective, length, get_elem?,
  get_elem?-append_left, get_elem?-snoc,
}
use mathlib.Core.Path.{ap₂}
use split_inference.Base.Int.{ℤ, pos, negsuc}
use split_inference.Base.Dict.{get, put, get-put}
use split_inference.Slicer.Build.{position, rename, rename_inputs, Pool, intern}

get_elem?-position :
    (t : ℕ) (ks : List ℕ) (i : ℕ) → position t ks ≡ some i → get_elem? ks i ≡ some t
unfolding position
get_elem?-position t [] i h = cc
get_elem?-position t (k ∷ ks) zero h = ground (arith, nat_eqb_iff k t)
get_elem?-position t (k ∷ ks) (suc i) h = ground (arith, get_elem?-position t ks i)

pub rename_lem :
    (keep ts ns : List ℕ) → rename keep ts ≡ ok ns → map (get_elem? keep) ns ≡ map some ts
unfolding rename
rename_lem keep [] ns h = ap (map (get_elem? keep)) (sym (ok-injective h))
rename_lem keep (t ∷ ts) ns h =
    let (n, at, h') = bind-ok (or_raise key_error (position t keep)) _ h in
    let (rest, more, last) = bind-ok (rename keep ts) _ h' in
    ap (map (get_elem? keep)) (sym (ok-injective last))
    ∙ ap₂ (λ o os. o ∷ os)
        (get_elem?-position t keep n (or_raise-ok key_error (position t keep) at))
        (rename_lem keep ts rest more)

-- An input of an operator: left out, or a tensor under the given names.
abbrev pub named : (ℕ → Option ℕ) → ℤ → Option (Option ℕ)
named f (pos i) = some (f i)
named f (negsuc i) = none

pub rename_inputs_lem :
    (keep : List ℕ) (ts ns : List ℤ)
    → rename_inputs keep ts ≡ ok ns
    → map (named (get_elem? keep)) ns ≡ map (named some) ts
unfolding rename_inputs
rename_inputs_lem keep [] ns h = ap (map (named (get_elem? keep))) (sym (ok-injective h))
rename_inputs_lem keep (negsuc t ∷ ts) ns h =
    let (rest, more, last) = bind-ok (rename_inputs keep ts) _ h in
    ap (map (named (get_elem? keep))) (sym (ok-injective last))
    ∙ ap (λ os. none ∷ os) (rename_inputs_lem keep ts rest more)
rename_inputs_lem keep (pos t ∷ ts) ns h =
    let (n, at, h') = bind-ok (or_raise key_error (position t keep)) _ h in
    let (rest, more, last) = bind-ok (rename_inputs keep ts) _ h' in
    ap (map (named (get_elem? keep))) (sym (ok-injective last))
    ∙ ap₂ (λ o os. some o ∷ os)
        (get_elem?-position t keep n (or_raise-ok key_error (position t keep) at))
        (rename_inputs_lem keep ts rest more)

abbrev pub Extends : {A : Type 0} → List A → List A → Type 0
Extends {A} xs ys = (i : ℕ) (a : A) → get_elem? xs i ≡ some a → get_elem? ys i ≡ some a

pub some-injective : {m n : ℕ} → some m ≡ some n → m ≡ n
some-injective h = cc

module _ {A : Type 0} (source : List A) where
  -- Every place of a pool holds the entry of the source.
  pub record IsCopy (p : Pool A) : Type 0 where
    pub copied :
        (old new : ℕ)
        → get old p.places ≡ some new
        → (a : A) × (get_elem? source old ≡ some a) × (get_elem? p.entries new ≡ some a)

  pub record IsInterned (old : ℕ) (p : Pool A) (q : ℕ × Pool A) : Type 0 where
    pub sound : IsCopy q.1
    pub extends : Extends p.entries q.1.entries
    pub entry : (a : A) × (get_elem? source old ≡ some a) × (get_elem? q.1.entries q.0 ≡ some a)

  added-IsCopy :
      (old : ℕ) (a : A) (p : Pool A)
      → get_elem? source old ≡ some a
      → IsCopy p
      → IsCopy
          (record { places = put old (length p.entries) p.places; entries = p.entries ++ a ∷ [] })
  added-IsCopy old a p at c = record {
    copied = λ j new h. elim (Bool-cases (old == j)) [
      | inl p' ↦
          let same : old ≡ j = (nat_eqb_iff old j).0 p' in
          let place = some-injective (
            sym (ap (λ (b : Bool). if b then some (length p.entries) else get j p.places) p')
            ∙ sym (get-put old j (length p.entries) p.places)
            ∙ h) in
          (
            a,
            subst (λ k. get_elem? source k ≡ some a) same at,
            subst (λ k. get_elem? (p.entries ++ a ∷ []) k ≡ some a) place
                (get_elem?-snoc p.entries a),
          )
      | inr p' ↦
          let (b, from, to) = c.copied j new (
            sym (ap (λ (b : Bool). if b then some (length p.entries) else get j p.places) p')
            ∙ sym (get-put old j (length p.entries) p.places)
            ∙ h) in
          (b, from, get_elem?-append_left p.entries (a ∷ []) new b to)
    ];
  }

  pub intern-IsInterned :
      (old : ℕ) (p : Pool A) (q : ℕ × Pool A)
      → IsCopy p
      → intern source old p ≡ ok q
      → IsInterned old p q
  unfolding intern
  intern-IsInterned old p q c h = split (get old p.places) (get_elem? source old) refl refl h
    where
      split :
          (g : Option ℕ) (e : Option A)
          → get old p.places ≡ g
          → get_elem? source old ≡ e
          → elim g [
            | some new ↦ ok (new, p)
            | none ↦ elim e [
              | none ↦ err index_error
              | some a ↦ ok (
                length p.entries,
                record {
                  places = put old (length p.entries) p.places;
                  entries = p.entries ++ a ∷ [];
                },
              )
            ]
          ]
            ≡ ok q
          → IsInterned old p q
      split (some new) e g e' h =
          subst (IsInterned old p) (ok-injective h)
            (record { sound = c; extends = λ i a at. at; entry = c.copied old new g })
      split none none g e' h = cc
      split none (some a) g e' h = subst (IsInterned old p) (ok-injective h) (record {
        sound = added-IsCopy old a p e' c;
        extends = λ i b at. get_elem?-append_left p.entries (a ∷ []) i b at;
        entry = (a, e', get_elem?-snoc p.entries a);
      })
