-- ===== src/Slicer/Kept.antt =====
-- The tensors that `build_submodel` of slicer/slice.py keeps are distinct.
use split_inference.Base.{
  ℕ, zero, suc, ◌≡◌, refl, ap, inl, inr, true, false, ◌||◌, some, List, [], ◌∷◌, ◌++◌, arith,
  nat_eqb_iff, Bool-cases, nat_eq, string_eq, pair_eq, get_elem?,
}
use split_inference.Slicer.Graph.{member}
use split_inference.Slicer.Build.{see}

abbrev pub AreDistinct : List ℕ → Type 0
AreDistinct [] = Unit {0}
AreDistinct (t ∷ ts) = (member t ts ≡ false) × AreDistinct ts

pub member-get_elem? : (ts : List ℕ) (i t : ℕ) → get_elem? ts i ≡ some t → member t ts ≡ true
member-get_elem? [] i t h = cc
member-get_elem? (u ∷ ts) zero t h = ground (arith, nat_eqb_iff t u)
member-get_elem? (u ∷ ts) (suc i) t h = ground (arith, member-get_elem? ts i t h)

pub get_elem?-injective :
    (ts : List ℕ) (i j t : ℕ)
    → AreDistinct ts
    → get_elem? ts i ≡ some t
    → get_elem? ts j ≡ some t
    → i ≡ j
get_elem?-injective [] i j t d h k = cc
get_elem?-injective (u ∷ ts) zero zero t d h k = refl
get_elem?-injective (u ∷ ts) zero (suc j) t d h k = ground (arith, member-get_elem? ts j t k, d.0)
get_elem?-injective (u ∷ ts) (suc i) zero t d h k = ground (arith, member-get_elem? ts i t h, d.0)
get_elem?-injective (u ∷ ts) (suc i) (suc j) t d h k = ap suc (get_elem?-injective ts i j t d.1 h k)

pub member-append : (t : ℕ) (xs ys : List ℕ) → member t (xs ++ ys) ≡ (member t xs || member t ys)
member-append t [] ys = refl
member-append t (x ∷ xs) ys = ground (arith, member-append t xs ys)

snoc-AreDistinct :
    (ts : List ℕ) (t : ℕ) → AreDistinct ts → member t ts ≡ false → AreDistinct (ts ++ t ∷ [])
snoc-AreDistinct [] t d new = (refl, tt)
snoc-AreDistinct (u ∷ ts) t d new = (
  ground (arith, member-append u ts (t ∷ []), nat_eqb_iff u t, nat_eqb_iff t u, d.0),
  snoc-AreDistinct ts t d.1 (ground arith),
)

pub see-AreDistinct : (keep ts : List ℕ) → AreDistinct keep → AreDistinct (see keep ts)
unfolding see
see-AreDistinct keep [] d = d
see-AreDistinct keep (t ∷ ts) d = elim (Bool-cases (member t keep)) [
  | inl old ↦ rw old (see-AreDistinct keep ts d)
  | inr new ↦ rw new (see-AreDistinct (keep ++ t ∷ []) ts (snoc-AreDistinct keep t d new))
]
