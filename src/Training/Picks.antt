-- ===== src/Training/Picks.antt =====
-- What `pick` of model/train.py draws from the items of one label.
use split_inference.Base.{
  ℕ, suc, ◌-◌, ◌/◌, ◌≤◌, ◌<◌, ◌≡◌, refl, ap, ◌∙◌, Bool, true, false, List, [], ◌∷◌, ◌++◌,
  if◌then◌else◌, nat_eqb, nat_eq, string_eq, pair_eq, value_error, index_error, ok, err, or_raise,
  ◌>>=◌, length, keep_if, All, get_elem?_lt, All-get_elem?,
}
use split_inference.Preflight.Distinct.{has, All-has}
use split_inference.Training.Dataset.{Item, Choice, items_at, pick, labelled}

-- What numpy promises of `choice` without replacement: `k` indices of the pool, or a ValueError if
-- the pool is too small.
pub record IsChoice {Rng : Type 0} (choice : Choice Rng) : Type 0 where
  pub drawn :
      (n k : ℕ) (rng : Rng)
      → k ≤ n
      → (is : List ℕ) × (rng' : Rng) × (choice n k rng ≡ ok (is, rng'))
        × (length is ≡ k)
        × All (λ i. i < n) is
  pub refused : (n k : ℕ) (rng : Rng) → n < k → choice n k rng ≡ err value_error

-- Half of the items show a person, and all are of the training set.
pub record IsStratified (n : ℕ) (train_items items : List Item) : Type 0 where
  pub size : length items ≡ n
  pub persons : length (labelled 1 items) ≡ n / 2
  pub others : length (labelled 0 items) ≡ n - n / 2
  pub members : All (λ it. has it train_items ≡ true) items

All-keep_if :
    {A : Type 0} (P : A → Type 0) (p : A → Bool) (xs : List A)
    → All P xs
    → All (λ x. P x × (p x ≡ true)) (keep_if p xs)
All-keep_if P p [] h = tt
All-keep_if P p (x ∷ xs) h = split (p x) refl (All-keep_if P p xs h.1)
  where
    split :
        (b : Bool)
        → p x ≡ b
        → All (λ y. P y × (p y ≡ true)) (keep_if p xs)
        → All (λ y. P y × (p y ≡ true)) (if b then x ∷ keep_if p xs else keep_if p xs)
    split true q rest = ((h.0, q), rest)
    split false q rest = rest

items_at-All :
    (P : Item → Type 0) (pool : List Item) (is : List ℕ)
    → All P pool
    → All (λ i. i < length pool) is
    → (xs : List Item) × (items_at pool is ≡ ok xs) × (length xs ≡ length is) × All P xs
unfolding items_at
items_at-All P pool [] a h = ([], refl, refl, tt)
items_at-All P pool (i ∷ is) a h =
    let (x, at) = get_elem?_lt pool i h.0 in
    let (xs, rest, long, within) = items_at-All P pool is a h.1 in
    (
      x ∷ xs,
      ap (λ o. or_raise index_error o >>= λ y. items_at pool is >>= λ ys. ok (y ∷ ys)) at
          ∙ ap (λ r. r >>= λ ys. ok (x ∷ ys)) rest,
      ap suc long,
      (All-get_elem? P pool i x a at, within),
    )

pub pick-All :
    {Rng : Type 0} (choice : Choice Rng) (c : IsChoice choice) (P : Item → Type 0)
    (pool : List Item) (k : ℕ) (rng : Rng)
    → All P pool
    → k ≤ length pool
    → (xs : List Item) × (rng' : Rng) × (pick choice pool k rng ≡ ok (xs, rng'))
      × (length xs ≡ k)
      × All P xs
unfolding pick
pick-All choice c P pool k rng a h =
    let (is, rng', drawn, long, below) = c.drawn (length pool) k rng h in
    let (xs, found, same, within) = items_at-All P pool is a below in
    (
      xs,
      rng',
      ap (λ r. r >>= λ d. items_at pool d.0 >>= λ ys. ok (ys, d.1)) drawn
          ∙ ap (λ r. r >>= λ ys. ok (ys, rng')) found,
      same ∙ long,
      within,
    )

pub pick-refused :
    {Rng : Type 0} (choice : Choice Rng) (c : IsChoice choice) (pool : List Item) (k : ℕ)
    (rng : Rng)
    → length pool < k
    → pick choice pool k rng ≡ err value_error
unfolding pick
pick-refused choice c pool k rng h =
    ap (λ r. r >>= λ d. items_at pool d.0 >>= λ ys. ok (ys, d.1)) (c.refused (length pool) k rng h)

-- What is known of an item picked among those with a label.
abbrev pub Picked : ℕ → List Item → Item → Type 0
Picked y items it = (has it items ≡ true) × (nat_eqb it.1 y ≡ true)

pub labelled-Picked : (y : ℕ) (items : List Item) → All (Picked y items) (labelled y items)
labelled-Picked y items =
    All-keep_if (λ it. has it items ≡ true) (λ it. nat_eqb it.1 y) items (All-has items)

pub kept_all :
    {A : Type 0} (p : A → Bool) (xs : List A) → All (λ x. p x ≡ true) xs → keep_if p xs ≡ xs
kept_all p [] h = refl
kept_all p (x ∷ xs) h =
    ap (λ (b : Bool). if b then x ∷ keep_if p xs else keep_if p xs) h.0
    ∙ ap (λ ys. x ∷ ys) (kept_all p xs h.1)

pub kept_none :
    {A : Type 0} (p : A → Bool) (xs : List A) → All (λ x. p x ≡ false) xs → keep_if p xs ≡ []
kept_none p [] h = refl
kept_none p (x ∷ xs) h =
    ap (λ (b : Bool). if b then x ∷ keep_if p xs else keep_if p xs) h.0 ∙ kept_none p xs h.1

pub keep_if-append :
    {A : Type 0} (p : A → Bool) (xs ys : List A)
    → keep_if p (xs ++ ys) ≡ keep_if p xs ++ keep_if p ys
keep_if-append p [] ys = refl
keep_if-append p (x ∷ xs) ys = split (p x) (keep_if-append p xs ys)
  where
    split :
        (b : Bool)
        → keep_if p (xs ++ ys) ≡ keep_if p xs ++ keep_if p ys
        → (if b then x ∷ keep_if p (xs ++ ys) else keep_if p (xs ++ ys))
          ≡ (if b then x ∷ keep_if p xs else keep_if p xs) ++ keep_if p ys
    split true h = ap (λ zs. x ∷ zs) h
    split false h = h
