-- ===== src/Storage/Forms/Numbers.antt =====
-- The numbers that `parse_u32` of src/storage/forms.rs reads.
use native.Mathlib.Nat.{pow-zero, pow-succ'}
use omniportal.Base.{Bool, true, false}
use omniportal.Base.{
  ℕ, suc, ◌+◌, ◌*◌, ◌^◌, ◌<◌, ◌≡◌, refl, sym, ap, ◌∙◌, List, [], ◌∷◌, ◌++◌, false, Option, none,
  some, length, map, ltb, if◌then◌else◌, ◌==◌, arith,
}
use omniportal.Base.All.{All}
use omniportal.Base.Ascii.{ascii, strip_prefix, to_digit, digits, from_str_radix}
use omniportal.Storage.Forms.{parse_u32}
use omniportal.Storage.Json.{hex_digit}

-- The number that digits of a radix stand for, the first of them the highest.
unfoldable pub value_of : ℕ → List ℕ → ℕ
value_of radix [] = 0
value_of radix (d ∷ ds) = d * radix ^ length ds + value_of radix ds

to_digit-ten : (d : ℕ) → d < 10 → to_digit 10 (b'0' + d) ≡ some d
unfolding to_digit
to_digit-ten d h = ground arith

to_digit-hex_digit : (d : ℕ) → d < 16 → to_digit 16 (hex_digit d) ≡ some d
unfolding to_digit hex_digit
to_digit-hex_digit d h = ground arith

horner : (n r d p q v : ℕ) → r * p ≡ q → (n * r + d) * p + v ≡ n * q + (d * p + v)
horner n r d p q v e = rw (← e) (grind arith)

no_more : (n p : ℕ) → p ≡ 1 → n ≡ n * p + 0
no_more n p e = rw e (omega arith)

digits-value_of :
    (radix : ℕ) (write : ℕ → ℕ) (n : ℕ) (ds : List ℕ)
    → All (λ d. to_digit radix (write d) ≡ some d) ds
    → digits radix n (map write ds) ≡ some (n * radix ^ length ds + value_of radix ds)
unfolding digits value_of
digits-value_of radix write n [] all =
    let one : radix ^ 0 ≡ 1 = pow-zero radix in ap some (no_more n (radix ^ 0) one)
digits-value_of radix write n (d ∷ ds) all =
    let power : radix ^ suc (length ds) ≡ radix * radix ^ length ds = pow-succ' radix (length ds) in
    rw (digits, all.0)
      (digits-value_of radix write (n * radix + d) ds all.1
        ∙ ap some (
            horner n radix d (radix ^ length ds) (radix ^ suc (length ds)) (value_of radix ds)
              (sym power)))

-- `from_str_radix` reads digits that are written for the radix.
from_str_radix-value_of :
    (limit radix : ℕ) (write : ℕ → ℕ) (d : ℕ) (ds : List ℕ)
    → All (λ d. to_digit radix (write d) ≡ some d) (d ∷ ds)
    → (write d == b'+') ≡ false
    → from_str_radix limit radix (map write (d ∷ ds))
      ≡ (if ltb (value_of radix (d ∷ ds)) limit then some (value_of radix (d ∷ ds)) else none)
unfolding from_str_radix
from_str_radix-value_of limit radix write d ds all sign =
    let zero_first : 0 * radix ^ length (d ∷ ds) + value_of radix (d ∷ ds)
        ≡ value_of radix (d ∷ ds) =
      omega arith in
    let read : digits radix 0 (map write (d ∷ ds)) ≡ some (value_of radix (d ∷ ds)) =
      digits-value_of radix write 0 (d ∷ ds) all ∙ ap some zero_first in
    rw (from_str_radix, sign, read) refl

All-digits :
    (n : ℕ) (P : ℕ → Type 0) (ds : List ℕ)
    → ((d : ℕ) → d < n → P d)
    → All (λ d. d < n) ds
    → All P ds
All-digits n P [] f all = tt
All-digits n P (d ∷ ds) f all = (f d all.0, All-digits n P ds f all.1)

no_prefix :
    (d : ℕ) (ds : List ℕ)
    → All (λ d. d < 10) (d ∷ ds)
    → strip_prefix (ascii "0x") (map (λ d. b'0' + d) (d ∷ ds)) ≡ none
unfolding strip_prefix
no_prefix d [] all = ground arith
no_prefix d (e ∷ ds) all = let lt = all.1.0 in ground arith

-- A number that does not fit `u32` is refused.
abbrev pub in_u32 : ℕ → Option ℕ
in_u32 n = if ltb n (2 ^ 32) then some n else none

abbrev pub radix_of : Bool → ℕ
radix_of false = 10
radix_of true = 16

-- Digits in base 10, or in base 16 behind their prefix.
abbrev pub numeral : Bool → List ℕ → List ℕ
numeral false ds = map (λ d. b'0' + d) ds
numeral true ds = ascii "0x" ++ map hex_digit ds

parse_decimal :
    (text : List ℕ)
    → strip_prefix (ascii "0x") text ≡ none
    → parse_u32 text ≡ from_str_radix (2 ^ 32) 10 text
unfolding parse_u32
parse_decimal text e = rw (parse_u32, e) refl

parse_hexadecimal :
    (text : List ℕ) → parse_u32 (ascii "0x" ++ text) ≡ from_str_radix (2 ^ 32) 16 text
unfolding parse_u32 strip_prefix
parse_hexadecimal text = refl

plus_no_ten : (d : ℕ) → d < 10 → (b'0' + d == b'+') ≡ false
plus_no_ten d h = ground arith

plus_no_hex_digit : (d : ℕ) → d < 16 → (hex_digit d == b'+') ≡ false
unfolding hex_digit
plus_no_hex_digit d h = ground arith

-- `parse_u32` reads decimal digits as the number that they stand for in base 10, and hexadecimal
-- digits behind `0x` as the one that they stand for in base 16; there is one digit at least. It
-- refuses a number that does not fit `u32`.
pub parse_u32-numeral :
    (hex : Bool) (d : ℕ) (ds : List ℕ)
    → All (λ d. d < radix_of hex) (d ∷ ds)
    → parse_u32 (numeral hex (d ∷ ds)) ≡ in_u32 (value_of (radix_of hex) (d ∷ ds))
parse_u32-numeral false d ds all =
    parse_decimal (numeral false (d ∷ ds)) (no_prefix d ds all)
    ∙ from_str_radix-value_of (2 ^ 32) 10 (λ d. b'0' + d) d ds
        (All-digits 10 (λ d. to_digit 10 (b'0' + d) ≡ some d) (d ∷ ds) to_digit-ten all)
        (plus_no_ten d all.0)
parse_u32-numeral true d ds all =
    parse_hexadecimal (map hex_digit (d ∷ ds))
    ∙ from_str_radix-value_of (2 ^ 32) 16 hex_digit d ds
        (All-digits 16 (λ d. to_digit 16 (hex_digit d) ≡ some d) (d ∷ ds) to_digit-hex_digit all)
        (plus_no_hex_digit d all.0)
