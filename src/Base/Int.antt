-- ===== src/Base/Int.antt =====
-- Signed integers over the native numbers: `negsuc n` is -(n + 1).
use Prim.Native.Nat.{ℕ, suc, ◌+◌, ◌-◌}
use mathlib.Core.Path.{◌≡◌}
use native.Mathlib.Omega.{arith}
use mathlib.Core.Bool.{Bool, true, false}
use split_inference.Base.Tests.{leb, if◌then◌else◌}

pub data ℤ : Type 0 where
  pos : ℕ → ℤ
  negsuc : ℕ → ℤ

abbrev pub is_neg : ℤ → Bool
is_neg (pos n) = false
is_neg (negsuc n) = true

-- The integer a - b.
abbrev pub minus : ℕ → ℕ → ℤ
minus a b = if leb b a then pos (a - b) else negsuc (b - a - 1)

-- An integer is the difference of these two.
abbrev pub positive : ℤ → ℕ
positive (pos n) = n
positive (negsuc n) = 0

abbrev pub negative : ℤ → ℕ
negative (pos n) = 0
negative (negsuc n) = suc n

pub minus_parts : (a b : ℕ) → positive (minus a b) + b ≡ negative (minus a b) + a
minus_parts a b = ground arith
