-- ===== src/Storage/Json.antt =====
-- src/storage/json.rs: pieces of the JSON text of a response, as bytes.
use omniportal.Base.{ℕ, ◌/◌, ◌%◌, List, [], ◌∷◌, ◌++◌, ◌==◌, if◌then◌else◌, get_or}
use omniportal.Base.Ascii.{ascii}

-- The characters that are escaped are ASCII, so a byte of another character is kept.
unfoldable pub escape_char : ℕ → List ℕ
escape_char ch =
    if ch == b'"'
    then b'\\' ∷ b'"' ∷ []
    else if ch == b'\\'
    then b'\\' ∷ b'\\' ∷ []
    else if ch == 10
    then b'\\' ∷ b'n' ∷ []
    else if ch == 13
    then b'\\' ∷ b'r' ∷ []
    else if ch == 9
    then b'\\' ∷ b't' ∷ []
    else ch ∷ []

unfoldable pub json_escape : List ℕ → List ℕ
unfolding escape_char
json_escape [] = []
json_escape (ch ∷ value) = escape_char ch ++ json_escape value

unfoldable pub hex_digit : ℕ → ℕ
hex_digit n = get_or (ascii "0123456789abcdef") n 0

unfoldable pub hex_bytes : List ℕ → List ℕ
unfolding hex_digit
hex_bytes [] = []
hex_bytes (byte ∷ bytes) = hex_digit (byte / 16) ∷ hex_digit (byte % 16) ∷ hex_bytes bytes
