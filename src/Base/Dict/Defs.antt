-- ===== src/Base/Dict/Defs.antt =====
-- The operations of a dictionary and their laws.
use Prim.Native.Nat.{suc}
use mathlib.Core.Path.{◌≡◌, refl, sym}
use mathlib.Core.Logic.{◌≢◌}
use mathlib.Core.Bool.{Bool, true, false}
use mathlib.Core.Option.{Option, none, some}
use mathlib.Core.List.{List, [], ◌∷◌}
use native.Mathlib.Omega.{arith}
use split_inference.Base.Tests.{Eq, ◌==◌, if◌then◌else◌, ==-refl, ==-false}
use split_inference.Base.Lists.{length}

abbrev pub Dict {ℓ κ} : Type ℓ → Type κ → Type (ℓ ⊔ κ)
Dict K V = List (K × V)

module _ {ℓ κ} {K : Type ℓ} {V : Type κ} ⦃e : Eq K⦄ where
  -- d.get(k)
  unfoldable pub get : K → Dict K V → Option V
  get k [] = none
  get k ((j, v) ∷ m) = if j == k then some v else get k m

  -- k in d
  abbrev pub has : K → Dict K V → Bool
  has k m = elim (get k m) [ none ↦ false | some v ↦ true ]

  -- d.get(k, default)
  abbrev pub get_or : K → V → Dict K V → V
  get_or k d m = elim (get k m) [ none ↦ d | some v ↦ v ]

  -- d[k] = v
  unfoldable pub put : K → V → Dict K V → Dict K V
  put k v [] = (k, v) ∷ []
  put k v ((j, w) ∷ m) = if j == k then (j, v) ∷ m else (j, w) ∷ put k v m

  -- d.pop(k, None)
  unfoldable pub remove : K → Dict K V → Dict K V
  remove k [] = []
  remove k ((j, w) ∷ m) = let rest = remove k m in if j == k then rest else (j, w) ∷ rest

  pub get-put :
      (k j : K) (v : V) (m : Dict K V) → get j (put k v m) ≡ (if k == j then some v else get j m)
  unfolding get put
  get-put k j v [] = refl
  get-put k j v ((i, w) ∷ m) =
      ground (arith, e.beq_iff i k, e.beq_iff i j, e.beq_iff k j, get-put k j v m)

  pub get-put_self : (k : K) (v : V) (m : Dict K V) → get k (put k v m) ≡ some v
  get-put_self k v m = rw (get-put, ==-refl k)

  pub get-remove :
      (k j : K) (m : Dict K V) → get j (remove k m) ≡ (if k == j then none else get j m)
  unfolding get remove
  get-remove k j [] = ground arith
  get-remove k j ((i, w) ∷ m) =
      ground (arith, e.beq_iff i k, e.beq_iff i j, e.beq_iff k j, get-remove k j m)

  pub get-remove_self : (k : K) (m : Dict K V) → get k (remove k m) ≡ none
  get-remove_self k m = rw (get-remove, ==-refl k)

  pub get-put_ne : (k j : K) (v : V) (m : Dict K V) → j ≢ k → get j (put k v m) ≡ get j m
  get-put_ne k j v m h = rw (get-put, ==-false k j (λ p. h (sym p)))

  pub get-remove_ne : (k j : K) (m : Dict K V) → j ≢ k → get j (remove k m) ≡ get j m
  get-remove_ne k j m h = rw (get-remove, ==-false k j (λ p. h (sym p)))

  pub length-put :
      (k : K) (v : V) (m : Dict K V)
      → length (put k v m) ≡ (if has k m then length m else suc (length m))
  unfolding get put
  length-put k v [] = refl
  length-put k v ((j, w) ∷ m) = ground (arith, length-put k v m)

  -- No key stands twice.
  abbrev pub Distinct : Dict K V → Type κ
  Distinct [] = Unit
  Distinct ((k, v) ∷ m) = (get k m ≡ none) × Distinct m

  pub put-Distinct : (k : K) (v : V) (m : Dict K V) → Distinct m → Distinct (put k v m)
  unfolding get put
  put-Distinct k v [] d = (refl, tt)
  put-Distinct k v ((j, w) ∷ m) d =
      ground (arith, get-put k j v m, e.beq_iff j k, e.beq_iff k j, put-Distinct k v m d.1)

pub ruleset dict_laws = (get-put, get-remove)
