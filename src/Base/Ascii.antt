-- ===== src/Base/Ascii.antt =====
-- Texts as their bytes: the literals of the source, and the tests and searches of `str`.
use Prim.Native.String.{String}
use Prim.Native.String as S
use Prim.Native.Char.{code}
use omniportal.Base.{
  ℕ, ◌+◌, ◌-◌, ◌*◌, ◌/◌, ◌%◌, List, [], ◌∷◌, ◌&&◌, Option, none, some, ltb, leb, ◌==◌,
  if◌then◌else◌,
}

-- The bytes of an ASCII literal.
abbrev pub ascii : String → List ℕ
ascii S.[] = []
ascii (S.◌∷◌ ch rest) = code ch ∷ ascii rest

-- `str.split(c)` for an ASCII character: at least one part.
unfoldable pub split_on : ℕ → List ℕ → List (List ℕ)
split_on c [] = [] ∷ []
split_on c (b ∷ bs) = let rest = split_on c bs in if b == c then [] ∷ rest else extend b rest
  where
    extend : ℕ → List (List ℕ) → List (List ℕ)
    extend b [] = (b ∷ []) ∷ []
    extend b (part ∷ parts) = (b ∷ part) ∷ parts

-- `str.split_once(c)`.
unfoldable pub split_once : ℕ → List ℕ → Option (List ℕ × List ℕ)
split_once c [] = none
split_once c (b ∷ bs) =
    let rest = split_once c bs in
    if b == c
    then some ([], bs)
    else elim rest [ none ↦ none | some (key, value) ↦ some (b ∷ key, value) ]

-- `str.strip_prefix(prefix)`.
unfoldable pub strip_prefix : List ℕ → List ℕ → Option (List ℕ)
strip_prefix [] bs = some bs
strip_prefix (p ∷ ps) [] = none
strip_prefix (p ∷ ps) (b ∷ bs) = let rest = strip_prefix ps bs in if p == b then rest else none

-- A digit of the radix, in either case.
unfoldable pub to_digit : ℕ → ℕ → Option ℕ
to_digit radix b =
    let digit =
      if leb b'0' b && leb b b'9'
      then b - b'0'
      else if leb b'a' b && leb b b'z'
      then b - b'a' + 10
      else if leb b'A' b && leb b b'Z'
      then b - b'A' + 10
      else radix in
    if ltb digit radix then some digit else none

unfoldable pub digits : ℕ → ℕ → List ℕ → Option ℕ
unfolding to_digit
digits radix n [] = some n
digits radix n (b ∷ bs) = elim (to_digit radix b) [
  | none ↦ none
  | some d ↦ digits radix (n * radix + d) bs
]

abbrev unsigned : List ℕ → List ℕ
unsigned [] = []
unsigned (b ∷ bs) = if b == b'+' then bs else b ∷ bs

-- `from_str_radix` of an unsigned type with numbers below `limit`: a sign `+` and then one digit at
-- least.
unfoldable pub from_str_radix : ℕ → ℕ → List ℕ → Option ℕ
unfolding digits
from_str_radix limit radix bs = elim (unsigned bs) [
  | [] ↦ none
  | b ∷ rest ↦ elim (digits radix 0 (b ∷ rest)) [
    | none ↦ none
    | some n ↦ if ltb n limit then some n else none
  ]
]

-- The character with a code below 256, in UTF-8.
unfoldable pub char_utf8 : ℕ → List ℕ
char_utf8 c = if ltb c 128 then c ∷ [] else (192 + c / 64) ∷ (128 + c % 64) ∷ []
