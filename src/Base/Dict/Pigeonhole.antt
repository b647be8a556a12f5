-- ===== src/Base/Dict/Pigeonhole.antt =====
-- A dictionary with `n` distinct keys below `n` has every key below `n`.
use Prim.Native.Nat.{ℕ, zero, suc, ◌+◌, ◌≤◌, ◌<◌}
use mathlib.Core.Path.{◌≡◌, refl}
use mathlib.Core.Bool.{true}
use mathlib.Core.Option.{none}
use mathlib.Core.List.{[], ◌∷◌}
use native.Mathlib.Omega.{arith}
use split_inference.Base.Tests.{nat_eq, ltb, if◌then◌else◌}
use split_inference.Base.Lists.{length}
use split_inference.Base.Dict.Defs.{Dict, get, has, put, Distinct}

module _ {κ} {V : Type κ} where
  abbrev pub Below : ℕ → Dict ℕ V → Type 0
  Below n [] = Unit {0}
  Below n ((k, v) ∷ m) = (k < n) × Below n m

  pub put-Below : (n k : ℕ) (v : V) (m : Dict ℕ V) → k < n → Below n m → Below n (put k v m)
  unfolding put
  put-Below n k v [] h b = (h, tt)
  put-Below n k v ((j, w) ∷ m) h b = ground (arith, put-Below n k v m h b.1)

  -- How many of the numbers below `n` are keys.
  present : ℕ → Dict ℕ V → ℕ
  present zero m = 0
  present (suc n) m = present n m + (if has n m then 1 else 0)

  present-le : (n : ℕ) (m : Dict ℕ V) → present n m ≤ n
  unfolding present
  present-le zero m = omega arith
  present-le (suc n) m = ground (arith, present-le n m)

present-empty {κ} : (V : Type κ) (n : ℕ) → present {V = V} n [] ≡ 0
unfolding present get
present-empty V zero = refl
present-empty V (suc n) = ground (arith, present-empty V n)

module _ {κ} {V : Type κ} where
  present-cons :
      (n k : ℕ) (v : V) (m : Dict ℕ V)
      → get k m ≡ none
      → present n ((k, v) ∷ m) ≡ present n m + (if ltb k n then 1 else 0)
  unfolding present get
  present-cons zero k v m h = ground arith
  present-cons (suc n) k v m h = ground (arith, present-cons n k v m h)

  present-length : (n : ℕ) (m : Dict ℕ V) → Distinct m → Below n m → present n m ≡ length m
  present-length n [] d b = present-empty V n
  present-length n ((k, v) ∷ m) d b =
      ground (arith, present-cons n k v m d.0, present-length n m d.1 b.1)

  full_has : (n i : ℕ) (m : Dict ℕ V) → n ≤ present n m → i < n → has i m ≡ true
  unfolding present
  full_has zero i m h lt = absurd (omega arith)
  full_has (suc n) i m h lt = ground (arith, present-le n m, full_has n i m)

  pub covers :
      (n i : ℕ) (m : Dict ℕ V) → Distinct m → Below n m → length m ≡ n → i < n → has i m ≡ true
  covers n i m d b full lt = full_has n i m (omega (arith, present-length n m d b)) lt

module _ {κ} {V : Type κ} where
  present_all : (n : ℕ) (m : Dict ℕ V) → ((i : ℕ) → i < n → has i m ≡ true) → present n m ≡ n
  unfolding present
  present_all zero m h = refl
  present_all (suc n) m h =
      ground (arith, h n (omega arith), present_all n m (λ i lt. h i (omega arith)))

  -- Conversely, keys below `n` that cover all of them are `n` in number.
  pub length_of_covers :
      (n : ℕ) (m : Dict ℕ V)
      → Distinct m
      → Below n m
      → ((i : ℕ) → i < n → has i m ≡ true)
      → length m ≡ n
  length_of_covers n m d b h = omega (arith, present-length n m d b, present_all n m h)

  -- There are at most `n` of them.
  pub length-le-bound : (n : ℕ) (m : Dict ℕ V) → Distinct m → Below n m → length m ≤ n
  length-le-bound n m d b = omega (arith, present-length n m d b, present-le n m)
