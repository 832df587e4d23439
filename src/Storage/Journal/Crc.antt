-- ===== src/Storage/Journal/Crc.antt =====
-- `crc32` and `align4` of src/storage/journal.rs.
use omniportal.Base.{
  ℕ, zero, suc, ◌+◌, ◌-◌, ◌*◌, ◌/◌, ◌%◌, ◌^◌, ◌≤◌, ◌<◌, ◌≡◌, List, [], ◌∷◌, bit_and, bit_xor, arith,
}
use omniportal.Base.Bytes.{add32, sub32}

-- One round of the inner loop.
crc32_bit : ℕ → ℕ
crc32_bit crc = let mask = sub32 0 (bit_and crc 1) in bit_xor (crc / 2) (bit_and 0xedb88320 mask)

crc32_bits : ℕ → ℕ → ℕ
unfolding crc32_bit
crc32_bits zero crc = crc
crc32_bits (suc n) crc = crc32_bits n (crc32_bit crc)

crc32_bytes : ℕ → List ℕ → ℕ
unfolding crc32_bits
crc32_bytes crc [] = crc
crc32_bytes crc (byte ∷ bytes) = crc32_bytes (crc32_bits 8 (bit_xor crc byte)) bytes

-- `!crc` on 32 bits is `0xffff_ffff - crc`.
unfoldable pub crc32 : List ℕ → ℕ
unfolding crc32_bytes
crc32 bytes = 0xffffffff - crc32_bytes 0xffffffff bytes

-- `(value + 3) & !3`; clearing the low two bits is rounding down to a multiple of 4.
unfoldable pub align4 : ℕ → ℕ
align4 value = add32 value 3 / 4 * 4

pub crc32-lt : (bytes : List ℕ) → crc32 bytes < 2 ^ 32
unfolding crc32
crc32-lt bytes = omega arith

-- Below the wrap-around, the result is the least multiple of 4 that is not smaller.
pub align4_bounds :
    (value : ℕ)
    → value + 3 < 2 ^ 32
    → (value ≤ align4 value) × (align4 value < value + 4) × (align4 value % 4 ≡ 0)
unfolding align4
align4_bounds value h = omega arith
