-- ===== src/Storage/Forms/Params.antt =====
-- What the parameters of src/storage/forms.rs are: UTF-8 texts, and numbers of 32 bits.
use mathlib.Core.Path.{subst}
use omniportal.Base.{
  ℕ, ◌^◌, ◌<◌, ◌≡◌, refl, inl, inr, List, [], ◌∷◌, ◌++◌, Bool, true, false, ◌&&◌, Option, none,
  some, ltb, ◌==◌, if◌then◌else◌, arith, Bool-cases, Option-cases, ◌∙◌,
}
use omniportal.Base.All.{All}
use omniportal.Base.Ascii.{ascii, split_on, split_once, strip_prefix, from_str_radix, char_utf8}
use omniportal.Base.Bytes.{bytes_eq}
use omniportal.Base.Utf8.{is_utf8}
use omniportal.Base.Utf8.Laws.{is_utf8-char_utf8}
use omniportal.Storage.Forms.{
  hex_nibble, nibbles, percent_decode, find_param, query_param, parse_u32,
}

abbrev pub IsByte : ℕ → Type 0
IsByte b = b < 256

-- A test for bytes.
abbrev pub bytes_only : List ℕ → Bool
bytes_only [] = true
bytes_only (b ∷ bs) = ltb b 256 && bytes_only bs

pub All-bytes : (bs : List ℕ) → bytes_only bs ≡ true → All IsByte bs
All-bytes [] h = tt
All-bytes (b ∷ bs) h = (ground (arith, h), All-bytes bs (ground (arith, h)))

hex_nibble-lt : (b n : ℕ) → hex_nibble b ≡ some n → n < 16
unfolding hex_nibble
hex_nibble-lt b n h = ground arith

pub nibbles-lt : (h l c : ℕ) → nibbles h l ≡ some c → c < 256
nibbles-lt h l c e = elim (Option-cases (hex_nibble h)) [
  | inl p ↦ absurd (ground (arith, p))
  | inr (high, p) ↦ elim (Option-cases (hex_nibble l)) [
    | inl q ↦ absurd (ground (arith, p, q))
    | inr (low, q) ↦ ground (arith, p, q, hex_nibble-lt h high p, hex_nibble-lt l low q)
  ]
]

is_utf8-nil : is_utf8 [] ≡ true
unfolding is_utf8
is_utf8-nil = refl

with_char : (c : ℕ) (bs : List ℕ) → c < 256 → is_utf8 bs ≡ true → is_utf8 (char_utf8 c ++ bs) ≡ true
with_char c bs h u = is_utf8-char_utf8 c bs h ∙ u

with_space : (bs : List ℕ) → is_utf8 bs ≡ true → is_utf8 (b' ' ∷ bs) ≡ true
unfolding char_utf8
with_space bs u = with_char b' ' bs (omega arith) u

either :
    (b : Bool) (xs ys : List ℕ)
    → is_utf8 xs ≡ true
    → is_utf8 ys ≡ true
    → is_utf8 (if b then xs else ys) ≡ true
either true xs ys u v = u
either false xs ys u v = v

escape :
    (o : Option ℕ) (long short : List ℕ)
    → ((c : ℕ) → o ≡ some c → c < 256)
    → is_utf8 long ≡ true
    → is_utf8 short ≡ true
    → is_utf8 (elim o [ none ↦ long | some c ↦ char_utf8 c ++ short ]) ≡ true
escape none long short lt u v = u
escape (some c) long short lt u v = with_char c short (lt c refl) v

-- What is decoded from bytes is UTF-8, whatever the bytes are.
pub percent_decode-Utf8 :
    (value : List ℕ) → All IsByte value → is_utf8 (percent_decode value) ≡ true
unfolding percent_decode
percent_decode-Utf8 [] all = is_utf8-nil
percent_decode-Utf8 (b ∷ []) all =
    either (b == b'+') _ _ (with_space [] is_utf8-nil) (with_char b [] all.0 is_utf8-nil)
percent_decode-Utf8 (b ∷ h ∷ []) all =
    let rest = percent_decode-Utf8 (h ∷ []) all.1 in
    either (b == b'+') _ _ (with_space _ rest) (with_char b _ all.0 rest)
percent_decode-Utf8 (b ∷ h ∷ l ∷ rest) all =
    let long = percent_decode-Utf8 (h ∷ l ∷ rest) all.1 in
    let short = percent_decode-Utf8 rest all.1.1.1 in
    either (b == b'+') _ _ (with_space _ long) (
      either (b == b'%') _ _ (escape (nibbles h l) _ _ (nibbles-lt h l) long short)
        (with_char b _ all.0 long))

split_on-All : (c : ℕ) (bs : List ℕ) → All IsByte bs → All (All IsByte) (split_on c bs)
unfolding split_on
split_on-All c [] all = (tt, tt)
split_on-All c (b ∷ bs) all = parts (b == c) (split_on c bs) (split_on-All c bs all.1)
  where
    parts :
        (is_end : Bool) (rest : List (List ℕ))
        → All (All IsByte) rest
        → All (All IsByte) (
            if is_end
            then [] ∷ rest
            else (elim rest [ [] ↦ (b ∷ []) ∷ [] | part ∷ more ↦ (b ∷ part) ∷ more ]))
    parts true rest h = (tt, h)
    parts false [] h = ((all.0, tt), tt)
    parts false (part ∷ more) h = ((all.0, h.0), h.1)

split_once-All :
    (c : ℕ) (bs key value : List ℕ)
    → All IsByte bs
    → split_once c bs ≡ some (key, value)
    → All IsByte value
unfolding split_once
split_once-All c [] key value all h = absurd (ground arith)
split_once-All c (b ∷ bs) key value all h = elim (Bool-cases (b == c)) [
  | inl e ↦ subst (All IsByte) {x = bs} (ground (arith, e)) all.1
  | inr e ↦ elim (Option-cases (split_once c bs)) [
    | inl q ↦ absurd (ground (arith, e, q))
    | inr ((k, v), q) ↦
        subst (All IsByte) {x = v} (ground (arith, e, q)) (split_once-All c bs k v all.1 q)
  ]
]

find_param-Utf8 :
    (name : List ℕ) (pairs : List (List ℕ)) (value : List ℕ)
    → All (All IsByte) pairs
    → find_param name pairs ≡ some value
    → is_utf8 value ≡ true
unfolding find_param
find_param-Utf8 name [] value all h = absurd (ground arith)
find_param-Utf8 name (pair ∷ pairs) value all h =
    let rest = find_param-Utf8 name pairs value all.1 in
    elim (Option-cases (split_once b'=' pair)) [
      | inl q ↦ rest (ground (arith, q))
      | inr ((key, raw), q) ↦ elim (Bool-cases (bytes_eq key name)) [
        | inl e ↦
            let same : percent_decode raw ≡ value = ground (arith, q, e) in
            subst (λ v. is_utf8 v ≡ true) same
              (percent_decode-Utf8 raw (split_once-All b'=' pair key raw all.0 q))
        | inr e ↦ rest (ground (arith, q, e))
      ]
    ]

-- A parameter that is found in a query of bytes is UTF-8, whatever bytes the query escapes.
pub query_param-Utf8 :
    (query name value : List ℕ)
    → All IsByte query
    → query_param query name ≡ some value
    → is_utf8 value ≡ true
unfolding query_param
query_param-Utf8 query name value all =
    find_param-Utf8 name (split_on b'&' query) value (split_on-All b'&' query all)

from_str_radix-lt :
    (limit radix n : ℕ) (bs : List ℕ) → from_str_radix limit radix bs ≡ some n → n < limit
unfolding from_str_radix
from_str_radix-lt limit radix n bs h = ground arith

-- A number that is accepted, decimal or hexadecimal, fits 32 bits.
pub parse_u32-lt : (value : List ℕ) (n : ℕ) → parse_u32 value ≡ some n → n < 2 ^ 32
unfolding parse_u32
parse_u32-lt value n h = elim (Option-cases (strip_prefix (ascii "0x") value)) [
  | inl q ↦ from_str_radix-lt (2 ^ 32) 10 n value (ground (arith, q))
  | inr (hex, q) ↦ from_str_radix-lt (2 ^ 32) 16 n hex (ground (arith, q))
]
