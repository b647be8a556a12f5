-- ===== src/Preflight/Cleared.antt =====
-- Gates of scripts/preflight.py that report nothing.
use split_inference.Base.{
  ◌≡◌, refl, Bool, true, false, List, [], ◌∷◌, ◌++◌, map, arith, if◌then◌else◌, nat_eq, string_eq,
  pair_eq, length, concat, keep_if, All,
}
use split_inference.Preflight.Gates.{Failure}

pub append-none : {A : Type 0} (xs ys : List A) → xs ++ ys ≡ [] → (xs ≡ []) × (ys ≡ [])
append-none [] ys h = (refl, h)
append-none (x ∷ xs) ys h = cc

pub concat-none : {A : Type 0} (xss : List (List A)) → concat xss ≡ [] → All (λ xs. xs ≡ []) xss
concat-none [] h = tt
concat-none (xs ∷ xss) h =
    let (here, rest) = append-none xs (concat xss) h in (here, concat-none xss rest)

-- A gate that reports nothing has passed its test.
pub cleared :
    (c : Bool) (fs : List Failure) (f : Failure) → (if c then [] else f ∷ fs) ≡ [] → c ≡ true
cleared true fs f h = refl
cleared false fs f h = cc

pub raised : (c : Bool) (f : Failure) → (if c then f ∷ [] else []) ≡ [] → c ≡ false
raised true f h = cc
raised false f h = refl

pub keep_if-none :
    {A : Type 0} (p : A → Bool) (xs : List A)
    → length (keep_if p xs) ≡ 0
    → All (λ x. p x ≡ false) xs
keep_if-none p [] h = tt
keep_if-none p (x ∷ xs) h = split (p x) refl (keep_if-none p xs) h
  where
    split :
        (b : Bool)
        → p x ≡ b
        → (length (keep_if p xs) ≡ 0 → All (λ y. p y ≡ false) xs)
        → length (if b then x ∷ keep_if p xs else keep_if p xs) ≡ 0
        → (p x ≡ false) × All (λ y. p y ≡ false) xs
    split true q rec k = absurd (omega arith)
    split false q rec k = (q, rec k)

pub All-map :
    {A B : Type 0} (P : B → Type 0) (f : A → B) (xs : List A)
    → All P (map f xs)
    → All (λ x. P (f x)) xs
All-map P f [] h = tt
All-map P f (x ∷ xs) h = (h.0, All-map P f xs h.1)
