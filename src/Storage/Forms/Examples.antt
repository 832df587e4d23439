-- ===== src/Storage/Forms/Examples.antt =====
-- Parameters on which the theorems on src/storage/forms.rs apply.
use omniportal.Base.{none}
use omniportal.Base.{ℕ, ◌<◌, ◌^◌, ◌≡◌, refl, List, [], ◌∷◌, true, some, arith}
use omniportal.Base.Ascii.{ascii}
use omniportal.Storage.Forms.{decode_hex_bytes, percent_decode, query_param, parse_u32}
use omniportal.Storage.Forms.Hex.{decode_hex_bytes-hex_bytes}
use omniportal.Storage.Forms.Params.{All-bytes}
use omniportal.Storage.Json.{hex_bytes}
use omniportal.Storage.Forms.Encoded.{form, form_encode}
use omniportal.Storage.Forms.Numbers.{value_of, numeral, parse_u32-numeral}
use omniportal.Base.{Bool, leb}

abbrev small_image : List ℕ
small_image = 0 ∷ 127 ∷ 255 ∷ []

decode_hex_bytes-hex_bytes_example : decode_hex_bytes (hex_bytes small_image) ≡ some small_image
decode_hex_bytes-hex_bytes_example =
    decode_hex_bytes-hex_bytes small_image (All-bytes small_image refl)

-- An `é` that a browser has escaped comes out as two characters.
abbrev accent : List ℕ
accent = ascii "n=%C3%A9"

abbrev two_characters : List ℕ
two_characters = 0xc3 ∷ 0x83 ∷ 0xc2 ∷ 0xa9 ∷ []

accent_read : query_param accent (ascii "n") ≡ some two_characters
unfolding query_param omniportal.Storage.Forms.find_param omniportal.Base.Ascii.split_on
    omniportal.Base.Ascii.split_once percent_decode
accent_read = refl

-- `n=a b%26&id=7`: the value holds a space and an escaped `&`.
abbrev letters : ℕ → Bool
letters b = leb b'0' b

abbrev two_fields : List (List ℕ × List ℕ)
two_fields = (ascii "n", ascii "a b&") ∷ (ascii "id", ascii "7") ∷ []

two_fields_text : form letters two_fields ≡ ascii "n=a+b%26&id=7"
unfolding form form_encode omniportal.Storage.Json.hex_digit
two_fields_text = refl

parse_u32-numeral_example : parse_u32 (numeral true (15 ∷ 0 ∷ [])) ≡ some 240
unfolding value_of
parse_u32-numeral_example = parse_u32-numeral true 15 (0 ∷ []) (omega arith, (omega arith, tt))

decimal_too_large : parse_u32 (ascii "4294967296") ≡ none
unfolding parse_u32
decimal_too_large = refl

hex_read : parse_u32 (ascii "0xFFffFFff") ≡ some 4294967295
unfolding parse_u32
hex_read = refl
