-- ===== src/Wire/Struct/Endian.antt =====
-- Byte strings and unsigned little-endian numbers.
use native.Mathlib.Nat.{pow-suc}
use split_inference.Base.{
  ℕ, zero, suc, ◌+◌, ◌*◌, ◌/◌, ◌%◌, ◌^◌, ◌<◌, ◌≡◌, refl, ap, List, [], ◌∷◌, arith, length, All,
}

abbrev pub Bytes : Type 0
Bytes = List ℕ

-- Each number is a byte.
abbrev pub IsBytes : Bytes → Type 0
IsBytes = All (λ b. b < 256)

-- The `w` low bytes of a number, the lowest first.
unfoldable pub to_le : ℕ → ℕ → Bytes
to_le zero n = []
to_le (suc w) n = n % 256 ∷ to_le w (n / 256)

unfoldable pub from_le : Bytes → ℕ
from_le [] = 0
from_le (b ∷ bs) = b + 256 * from_le bs

pub length-to_le : (w n : ℕ) → length (to_le w n) ≡ w
unfolding to_le
length-to_le zero n = refl
length-to_le (suc w) n = ap suc (length-to_le w (n / 256))

pub to_le-IsBytes : (w n : ℕ) → IsBytes (to_le w n)
unfolding to_le
to_le-IsBytes zero n = tt
to_le-IsBytes (suc w) n = (omega arith, to_le-IsBytes w (n / 256))

pub from_le-to_le : (w n : ℕ) → n < 256 ^ w → from_le (to_le w n) ≡ n
unfolding to_le from_le
from_le-to_le zero n h = omega arith
from_le-to_le (suc w) n h =
    omega (arith, pow-suc 256 w, from_le-to_le w (n / 256) (omega (arith, pow-suc 256 w)))

pub from_le-lt : (bs : Bytes) → IsBytes bs → from_le bs < 256 ^ length bs
unfolding from_le
from_le-lt [] h = omega arith
from_le-lt (b ∷ bs) h = omega (arith, pow-suc 256 (length bs), from_le-lt bs h.1, h.0)

pub to_le-from_le : (bs : Bytes) → IsBytes bs → to_le (length bs) (from_le bs) ≡ bs
unfolding to_le from_le
to_le-from_le [] h = refl
to_le-from_le (b ∷ bs) h =
    let low : (b + 256 * from_le bs) % 256 ≡ b = omega (arith, h.0) in
    let high : (b + 256 * from_le bs) / 256 ≡ from_le bs = omega (arith, h.0) in
    rw (low, high, to_le-from_le bs h.1)
