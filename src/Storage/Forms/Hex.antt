-- ===== src/Storage/Forms/Hex.antt =====
-- The hexadecimal digits that src/storage/json.rs writes are read by src/storage/forms.rs.
use omniportal.Base.{
  ℕ, zero, suc, ◌+◌, ◌*◌, ◌/◌, ◌%◌, ◌<◌, ◌≡◌, refl, ap, ap₂, ◌∙◌, List, [], ◌∷◌, true, Option, none,
  some, length, arith, ◌==◌,
}
use omniportal.Base.All.{All}
use omniportal.Storage.Forms.{hex_nibble, nibbles, decode_pairs, decode_hex_bytes}
use omniportal.Storage.Forms.Params.{IsByte}
use omniportal.Storage.Json.{hex_digit, hex_bytes}

hex_nibble-hex_digit : (n : ℕ) → n < 16 → hex_nibble (hex_digit n) ≡ some n
unfolding hex_nibble hex_digit
hex_nibble-hex_digit n h = sixteen n h
  where
    sixteen : (n : ℕ) → n < 16 → hex_nibble (hex_digit n) ≡ some n
    sixteen zero h = refl
    sixteen (suc zero) h = refl
    sixteen (suc (suc zero)) h = refl
    sixteen (suc (suc (suc zero))) h = refl
    sixteen (suc (suc (suc (suc zero)))) h = refl
    sixteen (suc (suc (suc (suc (suc zero))))) h = refl
    sixteen (suc (suc (suc (suc (suc (suc zero)))))) h = refl
    sixteen (suc (suc (suc (suc (suc (suc (suc zero))))))) h = refl
    sixteen (suc (suc (suc (suc (suc (suc (suc (suc zero)))))))) h = refl
    sixteen (suc (suc (suc (suc (suc (suc (suc (suc (suc zero))))))))) h = refl
    sixteen (suc (suc (suc (suc (suc (suc (suc (suc (suc (suc zero)))))))))) h = refl
    sixteen (suc (suc (suc (suc (suc (suc (suc (suc (suc (suc (suc zero))))))))))) h = refl
    sixteen (suc (suc (suc (suc (suc (suc (suc (suc (suc (suc (suc (suc zero)))))))))))) h = refl
    sixteen (suc (suc (suc (suc (suc (suc (suc (suc (suc (suc (suc (suc (suc zero))))))))))))) h =
        refl
    sixteen (suc (suc (suc (suc (suc (suc (suc (suc (suc (suc (suc (suc (suc (suc zero))))))))))))))
          h =
        refl
    sixteen
          (suc (
            suc (suc (suc (suc (suc (suc (suc (suc (suc (suc (suc (suc (suc (suc zero)))))))))))))))
          h =
        refl
    sixteen
          (suc (
            suc (
              suc (suc (suc (suc (suc (suc (suc (suc (suc (suc (suc (suc (suc (suc n))))))))))))))))
          h =
        absurd (omega arith)

length-hex_bytes : (bytes : List ℕ) → length (hex_bytes bytes) ≡ 2 * length bytes
unfolding hex_bytes
length-hex_bytes [] = refl
length-hex_bytes (b ∷ bs) = omega (arith, length-hex_bytes bs)

decode_pairs-nil : decode_pairs [] ≡ some []
unfolding decode_pairs
decode_pairs-nil = refl

pub nibbles-hex_digit :
    (high low : ℕ)
    → high < 16
    → low < 16
    → nibbles (hex_digit high) (hex_digit low) ≡ some (high * 16 + low)
nibbles-hex_digit high low h l =
    rw (nibbles, hex_nibble-hex_digit high h, hex_nibble-hex_digit low l) refl

decode_pairs-pair :
    (h l c : ℕ) (rest bytes : List ℕ)
    → nibbles h l ≡ some c
    → decode_pairs rest ≡ some bytes
    → decode_pairs (h ∷ l ∷ rest) ≡ some (c ∷ bytes)
unfolding decode_pairs
decode_pairs-pair h l c rest bytes p q =
    ap₂
      (λ (o : Option ℕ) (out : Option (List ℕ)). elim o as (λ _. Option (List ℕ)) [
        | none ↦ none
        | some byte ↦ elim out as (λ _. Option (List ℕ)) [
          | none ↦ none
          | some bytes ↦ some (byte ∷ bytes)
        ]
      ])
      p q

decode_pairs-hex_bytes :
    (bytes : List ℕ) → All IsByte bytes → decode_pairs (hex_bytes bytes) ≡ some bytes
unfolding hex_bytes
decode_pairs-hex_bytes [] all = decode_pairs-nil
decode_pairs-hex_bytes (b ∷ bs) all =
    let lt = all.0 in
    let whole : b / 16 * 16 + b % 16 ≡ b = omega arith in
    decode_pairs-pair (hex_digit (b / 16)) (hex_digit (b % 16)) b (hex_bytes bs) bs
      (nibbles-hex_digit (b / 16) (b % 16) (omega arith) (omega arith) ∙ ap some whole)
      (decode_pairs-hex_bytes bs all.1)

-- An image of bytes that is written in hexadecimal digits is decoded to itself.
pub decode_hex_bytes-hex_bytes :
    (bytes : List ℕ) → All IsByte bytes → decode_hex_bytes (hex_bytes bytes) ≡ some bytes
unfolding decode_hex_bytes
decode_hex_bytes-hex_bytes bytes all =
    let even : (length (hex_bytes bytes) % 2 == 0) ≡ true =
      ground (arith, length-hex_bytes bytes) in
    rw even (decode_pairs-hex_bytes bytes all)
