-- ===== src/Storage/Forms/Encoded.antt =====
-- Forms as a browser encodes them, and what src/storage/forms.rs reads in them.
use omniportal.Base.{
  ℕ, ◌/◌, ◌%◌, ◌<◌, ◌≡◌, List, [], ◌∷◌, ◌++◌, Bool, false, Option, none, some, ◌==◌, if◌then◌else◌,
}
use omniportal.Base.All.{All}
use omniportal.Base.Bytes.{bytes_eq}
use omniportal.Storage.Json.{hex_digit}

abbrev pub IsAscii : List ℕ → Type 0
IsAscii = All (λ b. b < 128)

-- No byte of the text is `c`.
abbrev pub Without : ℕ → List ℕ → Type 0
Without c = All (λ b. (b == c) ≡ false)

-- A field's name has no separator in it; it is not escaped.
abbrev pub IsName : List ℕ → Type 0
IsName name = Without b'=' name × Without b'&' name

-- The escaping of a form: a space is a `+`, a byte that is not plain is escaped.
unfoldable pub form_encode : (ℕ → Bool) → List ℕ → List ℕ
form_encode plain [] = []
form_encode plain (b ∷ bs) =
    let rest = form_encode plain bs in
    if b == b' '
    then b'+' ∷ rest
    else if plain b
    then b ∷ rest
    else b'%' ∷ hex_digit (b / 16) ∷ hex_digit (b % 16) ∷ rest

abbrev pub field : (ℕ → Bool) → List ℕ × List ℕ → List ℕ
field plain (name, value) = name ++ b'=' ∷ form_encode plain value

-- The fields, with `&` between them.
unfoldable pub form : (ℕ → Bool) → List (List ℕ × List ℕ) → List ℕ
form plain [] = []
form plain (f ∷ []) = field plain f
form plain (f ∷ g ∷ fs) = field plain f ++ b'&' ∷ form plain (g ∷ fs)

-- The value of the first field of that name.
unfoldable pub lookup : List ℕ → List (List ℕ × List ℕ) → Option (List ℕ)
lookup name [] = none
lookup name ((name', value) ∷ fs) =
    let rest = lookup name fs in if bytes_eq name' name then some value else rest

-- A name without separators, and an ASCII value.
abbrev pub IsField : List ℕ × List ℕ → Type 0
IsField f = IsName f.0 × IsAscii f.1
