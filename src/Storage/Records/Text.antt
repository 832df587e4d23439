-- ===== src/Storage/Records/Text.antt =====
-- `FixedText` of src/storage/records.rs and the text that it was made from.
use omniportal.Base.{
  ℕ, ◌≤◌, ◌<◌, ◌≡◌, List, length, replicate, splice, length-replicate, slice-splice, arith, ◌↔◌,
  ◌⊎◌,
}
use omniportal.Base.Result.{ok, err}
use omniportal.Storage.Records.{FixedText, invalid_text, from_str, raw_bytes}

-- A text that was accepted fits, and its bytes are those that were given.
pub record IsText (n : ℕ) (raw : List ℕ) (t : FixedText) : Type 0 where
  pub nonempty : 0 < length raw
  pub fits : length raw ≤ n
  pub fits_u8 : length raw ≤ 255
  pub len_eq : t.len ≡ length raw
  pub bytes_eq : t.bytes ≡ splice 0 raw (replicate n 0)

pub from_str-IsText :
    (n : ℕ) (raw : List ℕ) (t : FixedText) → from_str n raw ≡ ok t → IsText n raw t
unfolding from_str
from_str-IsText n raw t h = record {
  nonempty = ground arith;
  fits = ground arith;
  fits_u8 = ground arith;
  len_eq = ground arith;
  bytes_eq = ground arith;
}

pub raw_bytes-from_str :
    (n : ℕ) (raw : List ℕ) (t : FixedText) → from_str n raw ≡ ok t → raw_bytes t ≡ raw
unfolding raw_bytes
raw_bytes-from_str n raw t h =
    let v = from_str-IsText n raw t h in
    rw (v.len_eq, v.bytes_eq)
      (slice-splice 0 raw (replicate n 0)
        (omega (arith, v.fits, length-replicate {0} n (zero_byte))))
  where
    zero_byte : ℕ
    zero_byte = 0

-- A text is refused exactly when it is empty, or longer than the array or than a `u8` can say.
pub from_str_refuses :
    (n : ℕ) (raw : List ℕ)
    → (from_str n raw ≡ err invalid_text)
      ↔ ((length raw ≡ 0) ⊎ (n < length raw) ⊎ (255 < length raw))
unfolding from_str
from_str_refuses n raw = (λ h. ground arith, λ h. ground arith)
