-- ===== src/Base/Ranges.antt =====
-- Ranges of indices, and membership in lists of indices.
use Prim.Native.Nat.{ℕ, zero, suc, ◌+◌, ◌≤◌, ◌<◌}
use mathlib.Core.Path.{◌≡◌, refl, ap, subst}
use mathlib.Core.Bool.{Bool, true, false, ◌||◌}
use mathlib.Core.List.{List, [], ◌∷◌, ◌++◌, map}
use mathlib.Core.Logic.{inl, inr}
use split_inference.Base.Tests.{nat_eqb, nat_eqb_iff, Bool-cases}
use native.Mathlib.Omega.{arith}
use native.Mathlib.Nat.{zero-add, suc-add, add-zero, add-suc}
use split_inference.Base.Lists.{length, replicate, keep_if, All}

abbrev pub elem : ℕ → List ℕ → Bool
elem j [] = false
elem j (i ∷ is) = nat_eqb i j || elem j is

abbrev pub range_from : ℕ → ℕ → List ℕ
range_from a zero = []
range_from a (suc n) = a ∷ range_from (suc a) n

-- `range(n)`
abbrev pub range : ℕ → List ℕ
range n = range_from 0 n

pub length-range_from : (a n : ℕ) → length (range_from a n) ≡ n
length-range_from a zero = refl
length-range_from a (suc n) = ap suc (length-range_from (suc a) n)

-- Two tests that agree on a range keep the same numbers of it.
pub keep_if-range_from :
    (p q : ℕ → Bool) (a n : ℕ)
    → ((i : ℕ) → a ≤ i → i < a + n → p i ≡ q i)
    → keep_if p (range_from a n) ≡ keep_if q (range_from a n)
keep_if-range_from p q a zero h = refl
keep_if-range_from p q a (suc n) h =
    ground
      (arith, h a, keep_if-range_from p q (suc a) n (λ i lo hi. h i (omega arith) (omega arith)))

pub All-range_from {κ} :
    (P : ℕ → Type κ) (a n : ℕ) → ((i : ℕ) → a ≤ i → i < a + n → P i) → All P (range_from a n)
All-range_from P a zero h = tt
All-range_from P a (suc n) h = (
  h a (omega arith) (omega arith),
  All-range_from P (suc a) n (λ i lo hi. h i (omega arith) (omega arith)),
)

-- What an index in a list satisfies.
pub All-elem : (P : ℕ → Type 0) (is : List ℕ) (j : ℕ) → All P is → elem j is ≡ true → P j
All-elem P [] j h e = cc
All-elem P (i ∷ is) j h e = elim (Bool-cases (nat_eqb i j)) [
  | inl same ↦ subst P ((nat_eqb_iff i j).0 same) h.0
  | inr other ↦ All-elem P is j h.1 (rw other at e)
]

pub keep_if-All {κ} :
    {A : Type κ} (p : A → Bool) (xs : List A) → All (λ x. p x ≡ true) (keep_if p xs)
keep_if-All p [] = tt
keep_if-All p (x ∷ xs) = ground (arith, keep_if-All p xs)

pub range_from-append : (a m n : ℕ) → range_from a (m + n) ≡ range_from a m ++ range_from (a + m) n
range_from-append a zero n = rw (zero-add n, add-zero a)
range_from-append a (suc m) n =
    rw (suc-add m n, add-suc a m, ← suc-add a m) (ap (λ t. a ∷ t) (range_from-append (suc a) m n))

pub map-range_from_const {κ} :
    {B : Type κ} (f : ℕ → B) (b : B) (a n : ℕ)
    → ((i : ℕ) → a ≤ i → i < a + n → f i ≡ b)
    → map f (range_from a n) ≡ replicate n b
map-range_from_const f b a zero h = refl
map-range_from_const f b a (suc n) h = rw (h a (omega arith) (omega arith)) (
    ap (λ t. b ∷ t)
      (map-range_from_const f b (suc a) n (λ i lo hi. h i (omega arith) (omega arith))))
