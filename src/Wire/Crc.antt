-- ===== src/Wire/Crc.antt =====
-- `zlib.crc32`, with which a tensor's trailer is made and checked: CRC-32/ISO-HDLC, bit by bit.
use Prim.Native.Nat.{bit_xor}
use split_inference.Base.{
  ℕ, zero, suc, ◌/◌, ◌%◌, ◌≡◌, refl, [], ◌∷◌, if◌then◌else◌, nat_eqb, nat_eq, string_eq, pair_eq,
}
use split_inference.Wire.Struct.{Bytes}

-- One bit: shift right, and fold in the reflected polynomial if a one fell out.
crc_bit : ℕ → ℕ
crc_bit c = if nat_eqb (c % 2) 1 then bit_xor (c / 2) 0xEDB88320 else c / 2

crc_bits : ℕ → ℕ → ℕ
crc_bits zero c = c
crc_bits (suc n) c = crc_bits n (crc_bit c)

crc_bytes : ℕ → Bytes → ℕ
crc_bytes c [] = c
crc_bytes c (b ∷ bs) = crc_bytes (crc_bits 8 (bit_xor c b)) bs

unfoldable pub crc32 : Bytes → ℕ
unfolding crc_bit crc_bits crc_bytes
crc32 bs = bit_xor (crc_bytes 0xFFFFFFFF bs) 0xFFFFFFFF

-- The check value of the algorithm, on the digits 1 to 9.
check_value : crc32 (0x31 ∷ 0x32 ∷ 0x33 ∷ 0x34 ∷ 0x35 ∷ 0x36 ∷ 0x37 ∷ 0x38 ∷ 0x39 ∷ []) ≡ 0xCBF43926
unfolding crc32
check_value = refl
