-- ===== src/Preflight/Distinct.antt =====
-- Sets as the queries of scripts/preflight.py use them: membership, and SELECT DISTINCT.
use split_inference.Base.{
  ◌≤◌, ◌≡◌, refl, sym, ◌∙◌, subst, ◌⊎◌, inl, inr, Bool, true, false, ◌||◌, List, [], ◌∷◌, arith,
  if◌then◌else◌, Eq, ◌==◌, nat_eq, string_eq, pair_eq, ==-refl, length, All, true-ne-false, All-imp,
}

abbrev pub has {ℓ} : {A : Type ℓ} → ⦃e : Eq A⦄ → A → List A → Bool
has x [] = false
has x (y ∷ ys) = (x == y) || has x ys

-- Each value once, where it is last.
abbrev pub distinct {ℓ} : {A : Type ℓ} → ⦃e : Eq A⦄ → List A → List A
distinct [] = []
distinct (x ∷ xs) = let rest = distinct xs in if has x xs then rest else x ∷ rest

or_true : (a b : Bool) → (a || b) ≡ true → (a ≡ true) ⊎ (b ≡ true)
or_true true b h = inl refl
or_true false b h = inr h

pub or_left : (a b : Bool) → a ≡ true → (a || b) ≡ true
or_left a b h = rw h refl

pub or_right : (a b : Bool) → b ≡ true → (a || b) ≡ true
or_right true b h = refl
or_right false b h = h

module _ {ℓ} {A : Type ℓ} ⦃e : Eq A⦄ where
  -- Each member of a list is had by it.
  pub All-has : (xs : List A) → All (λ x. has x xs ≡ true) xs
  All-has [] = tt
  All-has (x ∷ xs) = (
    or_left (x == x) (has x xs) (==-refl x),
    All-imp (λ y. has y xs ≡ true) (λ y. has y (x ∷ xs) ≡ true) xs (All-has xs)
        (λ y h. or_right (y == x) (has y xs) h),
  )

  pub has-All {κ} : (P : A → Type κ) (x : A) (xs : List A) → has x xs ≡ true → All P xs → P x
  has-All P x [] h a = absurd (true-ne-false h refl)
  has-All P x (y ∷ ys) h a = elim (or_true (x == y) (has x ys) h) [
    | inl p ↦ subst P (sym ((e.beq_iff x y).0 p)) a.0
    | inr q ↦ has-All P x ys q a.1
  ]

  pub has-distinct : (x : A) (xs : List A) → has x xs ≡ true → has x (distinct xs) ≡ true
  has-distinct x [] h = h
  has-distinct x (y ∷ ys) h =
      split (has y ys) refl (λ p. has-distinct y ys p) (λ q. has-distinct x ys q)
        (or_true (x == y) (has x ys) h)
    where
      split :
          (b : Bool)
          → has y ys ≡ b
          → (has y ys ≡ true → has y (distinct ys) ≡ true)
          → (has x ys ≡ true → has x (distinct ys) ≡ true)
          → ((x == y) ≡ true) ⊎ (has x ys ≡ true)
          → has x (if b then distinct ys else y ∷ distinct ys) ≡ true
      split true p same rest (inl q) =
          subst (λ z. has z (distinct ys) ≡ true) (sym ((e.beq_iff x y).0 q)) (same p)
      split true p same rest (inr q) = rest q
      split false p same rest (inl q) = or_left (x == y) (has x (distinct ys)) q
      split false p same rest (inr q) = or_right (x == y) (has x (distinct ys)) (rest q)

  -- Two members of a list that is no longer than one are equal.
  pub has_same : (x y : A) (zs : List A) → length zs ≤ 1 → has x zs ≡ true → has y zs ≡ true → x ≡ y
  has_same x y [] small h k = absurd (true-ne-false h refl)
  has_same x y (z ∷ []) small h k = elim (or_true (x == z) false h) [
    | inr q ↦ absurd (true-ne-false q refl)
    | inl p ↦ elim (or_true (y == z) false k) [
      | inr q ↦ absurd (true-ne-false q refl)
      | inl q ↦ (e.beq_iff x z).0 p ∙ sym ((e.beq_iff y z).0 q)
    ]
  ]
  has_same x y (z ∷ w ∷ zs) small h k = absurd (omega arith)
