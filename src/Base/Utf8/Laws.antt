-- ===== src/Base/Utf8/Laws.antt =====
-- Texts of characters below 256.
use omniportal.Base.{ℕ, ◌<◌, ◌≡◌, inl, inr, List, ◌++◌, ltb, arith, Bool-cases}
use omniportal.Base.Ascii.{char_utf8}
use omniportal.Base.Utf8.{is_utf8, utf8_rest, utf8_first, follow}

-- A character below 256 in front does not matter.
pub is_utf8-char_utf8 : (c : ℕ) (bs : List ℕ) → c < 256 → is_utf8 (char_utf8 c ++ bs) ≡ is_utf8 bs
unfolding is_utf8 utf8_rest utf8_first follow char_utf8
is_utf8-char_utf8 c bs h = elim (Bool-cases (ltb c 128)) [
  | inl e ↦ ground (arith, e)
  | inr e ↦ ground (arith, e)
]
