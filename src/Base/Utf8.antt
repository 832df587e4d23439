-- ===== src/Base/Utf8.antt =====
-- `core::str::from_utf8`: the bytes of a text, if they are well-formed UTF-8.
pub mod Laws
use omniportal.Base.{
  ℕ, zero, suc, List, [], ◌∷◌, Bool, true, false, ◌&&◌, Option, none, some, ltb, leb, ◌==◌,
  if◌then◌else◌,
}

-- The bytes that follow a first byte: how many, and the range of the first of them.
pub record Follow : Type 0 where
  pub count : ℕ
  pub low : ℕ
  pub high : ℕ

follow : ℕ → ℕ → ℕ → Option Follow
follow n lo hi = some (record { count = n; low = lo; high = hi })

pub utf8_first : ℕ → Option Follow
unfolding follow
utf8_first b =
    if ltb b 0x80
    then follow 0 0x80 0xbf
    else if ltb b 0xc2
    then none
    else if ltb b 0xe0
    then follow 1 0x80 0xbf
    else if b == 0xe0
    then follow 2 0xa0 0xbf
    else if b == 0xed
    then follow 2 0x80 0x9f
    else if ltb b 0xf0
    then follow 2 0x80 0xbf
    else if b == 0xf0
    then follow 3 0x90 0xbf
    else if ltb b 0xf4
    then follow 3 0x80 0xbf
    else if b == 0xf4
    then follow 3 0x80 0x8f
    else none

utf8_rest : ℕ → ℕ → ℕ → List ℕ → Bool
unfolding utf8_first
utf8_rest zero lo hi [] = true
utf8_rest (suc n) lo hi [] = false
utf8_rest zero lo hi (b ∷ bs) = elim (utf8_first b) [
  | none ↦ false
  | some f ↦ utf8_rest f.count f.low f.high bs
]
utf8_rest (suc n) lo hi (b ∷ bs) = elim (leb lo b && leb b hi) [
  | true ↦ utf8_rest n 0x80 0xbf bs
  | false ↦ false
]

unfoldable pub is_utf8 : List ℕ → Bool
unfolding utf8_rest
is_utf8 bs = utf8_rest 0 0x80 0xbf bs

unfoldable pub from_utf8 : List ℕ → Option (List ℕ)
from_utf8 bs = if is_utf8 bs then some bs else none
