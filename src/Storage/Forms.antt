-- ===== src/Storage/Forms.antt =====
-- src/storage/forms.rs: the parameters of a query or a form. A `&str` or a `String` is its bytes.
pub mod Examples
pub mod Hex
pub mod Params
pub mod Encoded
pub mod Numbers
use omniportal.Base.{
  ℕ, zero, suc, ◌+◌, ◌-◌, ◌*◌, ◌%◌, ◌^◌, List, [], ◌∷◌, ◌++◌, Bool, true, false, ◌&&◌, not, Option,
  none, some, ltb, leb, ◌==◌, if◌then◌else◌, length,
}
use omniportal.Base.Bytes.{bytes_eq}
use omniportal.Base.Result.{Result, ok, err}
use omniportal.Base.Ascii.{ascii, split_on, split_once, strip_prefix, from_str_radix, char_utf8}
use omniportal.Domain.{GameLine}
use omniportal.Storage.Table.{StorageError, bad_request}

unfoldable pub hex_nibble : ℕ → Option ℕ
hex_nibble byte =
    if leb b'0' byte && leb byte b'9'
    then some (byte - b'0')
    else if leb b'a' byte && leb byte b'f'
    then some (byte - b'a' + 10)
    else if leb b'A' byte && leb byte b'F'
    then some (byte - b'A' + 10)
    else none

-- `high << 4 | low`, for two nibbles.
abbrev pub hex_byte : ℕ → ℕ → ℕ
hex_byte high low = high * 16 + low

abbrev pub nibbles : ℕ → ℕ → Option ℕ
nibbles h l = elim (hex_nibble h) [
  | none ↦ none
  | some high ↦ elim (hex_nibble l) [ none ↦ none | some low ↦ some (hex_byte high low) ]
]

-- `percent_decode`: the bytes of an escape, and every byte that stands for itself, become the
-- character with that code. An escape needs two bytes behind the `%`; a `%` before two bytes that
-- are no hexadecimal digits is left out.
unfoldable pub percent_decode : List ℕ → List ℕ
unfolding hex_nibble char_utf8
percent_decode [] = []
percent_decode (b ∷ h ∷ l ∷ rest) =
    let short = percent_decode rest in
    let long = percent_decode (h ∷ l ∷ rest) in
    if b == b'+'
    then b' ' ∷ long
    else if b == b'%'
    then elim (nibbles h l) [ none ↦ long | some c ↦ char_utf8 c ++ short ]
    else char_utf8 b ++ long
percent_decode (b ∷ bs) =
    let long = percent_decode bs in if b == b'+' then b' ' ∷ long else char_utf8 b ++ long

-- The loop over the pairs.
unfoldable pub find_param : List ℕ → List (List ℕ) → Option (List ℕ)
unfolding split_once percent_decode
find_param name [] = none
find_param name (pair ∷ pairs) =
    let rest = find_param name pairs in
    elim (split_once b'=' pair) [
      | none ↦ rest
      | some (key, value) ↦ if bytes_eq key name then some (percent_decode value) else rest
    ]

unfoldable pub query_param : List ℕ → List ℕ → Option (List ℕ)
unfolding find_param split_on
query_param query name = find_param name (split_on b'&' query)

unfoldable pub parse_u32 : List ℕ → Option ℕ
unfolding strip_prefix from_str_radix
parse_u32 value = elim (strip_prefix (ascii "0x") value) [
  | some hex ↦ from_str_radix (2 ^ 32) 16 hex
  | none ↦ from_str_radix (2 ^ 32) 10 value
]

abbrev game_of : List ℕ → Result StorageError (Option GameLine)
game_of game =
    if bytes_eq game []
    then ok none
    else if bytes_eq game (ascii "skylanders")
    then ok (some GameLine.skylanders)
    else if bytes_eq game (ascii "infinity")
    then ok (some GameLine.infinity)
    else err bad_request

unfoldable pub parse_game_param : List ℕ → Result StorageError (Option GameLine)
unfolding query_param
parse_game_param params = elim (query_param params (ascii "game")) [
  | none ↦ ok none
  | some game ↦ game_of game
]

-- The loop over the pairs of `decode_hex_bytes`.
unfoldable pub decode_pairs : List ℕ → Option (List ℕ)
unfolding hex_nibble
decode_pairs (h ∷ l ∷ rest) =
    let out = decode_pairs rest in
    elim (nibbles h l) [
      | none ↦ none
      | some byte ↦ elim out [ none ↦ none | some bytes ↦ some (byte ∷ bytes) ]
    ]
decode_pairs _ = some []

unfoldable pub decode_hex_bytes : List ℕ → Option (List ℕ)
unfolding decode_pairs
decode_hex_bytes value = if not (length value % 2 == 0) then none else decode_pairs value
