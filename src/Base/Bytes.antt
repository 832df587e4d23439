-- ===== src/Base/Bytes.antt =====
-- Machine words: the wrap-around of `u8` and `u32`, and their little-endian bytes.
use omniportal.Base.{
  ℕ, ◌+◌, ◌-◌, ◌*◌, ◌/◌, ◌%◌, ◌^◌, ◌<◌, min, ◌≡◌, List, [], ◌∷◌, Bool, true, false, ◌&&◌, refl,
  ==_refl, ◌==◌, arith, get_or,
}

-- `wrapping_add` of the two widths; `u32` sums of a release build wrap in the same way.
abbrev pub add8 : ℕ → ℕ → ℕ
add8 a b = (a + b) % 2 ^ 8

abbrev pub add32 : ℕ → ℕ → ℕ
add32 a b = (a + b) % 2 ^ 32

abbrev pub sub32 : ℕ → ℕ → ℕ
sub32 a b = (a + 2 ^ 32 - b) % 2 ^ 32

-- `saturating_add` and `saturating_mul` on `u32`.
abbrev pub saturating_add32 : ℕ → ℕ → ℕ
saturating_add32 a b = min (a + b) 0xffff_ffff

abbrev pub saturating_mul32 : ℕ → ℕ → ℕ
saturating_mul32 a b = min (a * b) 0xffff_ffff

abbrev pub from_bool : Bool → ℕ
from_bool true = 1
from_bool false = 0

-- `u32::to_le_bytes` and `u16::to_le_bytes`.
unfoldable pub to_le_bytes : ℕ → List ℕ
to_le_bytes n = n % 256 ∷ n / 256 % 256 ∷ n / 65536 % 256 ∷ n / 16777216 % 256 ∷ []

unfoldable pub to_le_bytes16 : ℕ → List ℕ
to_le_bytes16 n = n % 256 ∷ n / 256 % 256 ∷ []

-- `u32::from_le_bytes` and `u16::from_le_bytes` of an array's first bytes.
unfoldable pub from_le_bytes : List ℕ → ℕ
from_le_bytes bs =
    get_or bs 0 0 + 256 * get_or bs 1 0 + 65536 * get_or bs 2 0 + 16777216 * get_or bs 3 0

unfoldable pub from_le_bytes16 : List ℕ → ℕ
from_le_bytes16 bs = get_or bs 0 0 + 256 * get_or bs 1 0

pub from_le_bytes-to_le_bytes : (n : ℕ) → n < 2 ^ 32 → from_le_bytes (to_le_bytes n) ≡ n
unfolding from_le_bytes to_le_bytes
from_le_bytes-to_le_bytes n h = omega arith

pub from_le_bytes16-to_le_bytes16 : (n : ℕ) → n < 2 ^ 16 → from_le_bytes16 (to_le_bytes16 n) ≡ n
unfolding from_le_bytes16 to_le_bytes16
from_le_bytes16-to_le_bytes16 n h = omega arith

-- `==` on byte slices.
abbrev pub bytes_eq : List ℕ → List ℕ → Bool
bytes_eq [] [] = true
bytes_eq [] (b ∷ bs) = false
bytes_eq (a ∷ cs) [] = false
bytes_eq (a ∷ cs) (b ∷ bs) = (a == b) && bytes_eq cs bs

pub bytes_eq_refl : (bs : List ℕ) → bytes_eq bs bs ≡ true
bytes_eq_refl [] = refl
bytes_eq_refl (b ∷ bs) = rw (==_refl b, bytes_eq_refl bs)

pub bytes_eq_sound : (cs bs : List ℕ) → bytes_eq cs bs ≡ true → cs ≡ bs
bytes_eq_sound [] [] h = refl
bytes_eq_sound [] (b ∷ bs) h = cc
bytes_eq_sound (a ∷ cs) [] h = cc
bytes_eq_sound (a ∷ cs) (b ∷ bs) h = ground (arith, bytes_eq_sound cs bs)
