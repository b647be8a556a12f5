-- ===== src/Training/Labels.antt =====
-- The labels of `load_split`, model/train.py.
use split_inference.Base.{
  elem, ℕ, max, String, ◌≡◌, refl, ap, ◌∙◌, Bool, true, false, ◌&&◌, ◌||◌, Option, none, some, List,
  [], ◌∷◌, map, arith, if◌then◌else◌, nat_eqb, nat_eqb_iff, ◌==◌, nat_eq, string_eq, pair_eq,
  keep_if,
}
use split_inference.Base.Dict.{Dict, get, get_or, put, get-put}
use split_inference.Training.Dataset.{Category, Annotation, Coco, person_ids, label, load_split}

-- Some category of persons has this identifier.
abbrev pub is_person : List Category → ℕ → Bool
is_person [] i = false
is_person (c ∷ cs) i = ((c.name == "person") && nat_eqb c.id i) || is_person cs i

-- Some annotation of the image is of a person.
abbrev pub shows_person : List Category → List Annotation → ℕ → Bool
shows_person cs [] i = false
shows_person cs (a ∷ anns) i =
    (nat_eqb a.image_id i && is_person cs a.category_id) || shows_person cs anns i

abbrev pub bit : Bool → ℕ
bit b = if b then 1 else 0

elem-person_ids : (cs : List Category) (i : ℕ) → elem i (person_ids cs) ≡ is_person cs i
elem-person_ids [] i = refl
elem-person_ids (c ∷ cs) i = split (c.name == "person") (elem-person_ids cs i)
  where
    split :
        (b : Bool)
        → elem i (person_ids cs) ≡ is_person cs i
        → elem i (
            map
              (λ (d : Category). d.id)
              (if b
                then c ∷ keep_if (λ d. d.name == "person") cs
                else keep_if (λ d. d.name == "person") cs))
          ≡ ((b && nat_eqb c.id i) || is_person cs i)
    split true h = ap (λ x. nat_eqb c.id i || x) h
    split false h = h

get_or-put :
    (k j v : ℕ) (d : Dict ℕ ℕ) → get_or j 0 (put k v d) ≡ (if nat_eqb k j then v else get_or j 0 d)
get_or-put k j v d =
    ap (λ (o : Option ℕ). elim o [ none ↦ 0 | some w ↦ w ]) (get-put k j v d) ∙ split (nat_eqb k j)
  where
    split :
        (b : Bool)
        → elim (if b then some v else get j d) as (λ _. ℕ) [ none ↦ 0 | some w ↦ w ]
          ≡ (if b then v else get_or j 0 d)
    split true = refl
    split false = refl

step :
    (same person rest : Bool) (old own : ℕ)
    → (same ≡ true → own ≡ old)
    → max (if same then max own (bit person) else old) (bit rest)
      ≡ max old (bit ((same && person) || rest))
step true true true old own h = let e : own ≡ old = h refl in omega arith
step true true false old own h = let e : own ≡ old = h refl in omega arith
step true false true old own h = let e : own ≡ old = h refl in omega arith
step true false false old own h = let e : own ≡ old = h refl in omega arith
step false true rest old own h = refl
step false false rest old own h = refl

label-get_or :
    (cs : List Category) (anns : List Annotation) (d : Dict ℕ ℕ) (i : ℕ)
    → get_or i 0 (label (person_ids cs) anns d) ≡ max (get_or i 0 d) (bit (shows_person cs anns i))
unfolding label
label-get_or cs [] d i = omega arith
label-get_or cs (a ∷ anns) d i =
    label-get_or cs anns _ i
    ∙ ap (λ x. max x (bit (shows_person cs anns i))) (get_or-put a.image_id i _ d)
    ∙ ap
        (λ (b : Bool).
          max (if nat_eqb a.image_id i then max (get_or a.image_id 0 d) (bit b) else get_or i 0 d)
            (bit (shows_person cs anns i)))
        (elem-person_ids cs a.category_id)
    ∙ step (nat_eqb a.image_id i) (is_person cs a.category_id) (shows_person cs anns i)
        (get_or i 0 d) (get_or a.image_id 0 d)
        (λ p. ap (λ j. get_or j 0 d) ((nat_eqb_iff a.image_id i).0 p))

map-ext : {A B : Type 0} (f g : A → B) (xs : List A) → ((x : A) → f x ≡ g x) → map f xs ≡ map g xs
map-ext f g [] h = refl
map-ext f g (x ∷ xs) h = ap (λ y. y ∷ map f xs) (h x) ∙ ap (λ ys. g x ∷ ys) (map-ext f g xs h)

-- `load_split` gives every image of the file, in order, its path and the label 1 if some
-- annotation of the image is of a category called person, and 0 otherwise.
pub load_split-IsLabelled :
    (join : String → String → String) (images_dir : String) (d : Coco)
    → load_split join images_dir d
      ≡ map
          (λ im.
            (join images_dir im.file_name, bit (shows_person d.categories d.annotations im.id)))
          d.images
unfolding load_split get
load_split-IsLabelled join images_dir d = map-ext _ _ d.images (λ im.
    ap (λ y. (join images_dir im.file_name, y))
      (label-get_or d.categories d.annotations [] im.id ∙ omega arith))
