-- ===== src/Storage/Journal/Fields.antt =====
-- The optional numbers of the record formats of src/storage/journal.rs: a flag and a value.
use omniportal.Base.{
  ℕ, ◌<◌, ◌^◌, ◌≡◌, refl, ap, Option, none, some, ◌==◌, if◌then◌else◌, get_or_else, is_some,
}
use omniportal.Base.Bytes.{
  to_le_bytes, to_le_bytes16, from_le_bytes, from_le_bytes16, from_bool, from_le_bytes-to_le_bytes,
  from_le_bytes16-to_le_bytes16,
}

-- `Some(u32)` where the flag byte is 1.
abbrev pub flagged : ℕ → ℕ → Option ℕ
flagged flag value = if flag == 1 then some value else none

-- A number that is there lies below a bound.
abbrev pub Fits : ℕ → Option ℕ → Type 0
Fits bound none = Unit
Fits bound (some n) = n < bound

pub flagged-Fits :
    (o : Option ℕ)
    → Fits (2 ^ 32) o
    → flagged (from_bool (is_some o)) (from_le_bytes (to_le_bytes (get_or_else o 0))) ≡ o
flagged-Fits none h = refl
flagged-Fits (some n) h = ap some (from_le_bytes-to_le_bytes n h)

pub flagged-Fits16 :
    (o : Option ℕ)
    → Fits (2 ^ 16) o
    → flagged (from_bool (is_some o)) (from_le_bytes16 (to_le_bytes16 (get_or_else o 0))) ≡ o
flagged-Fits16 none h = refl
flagged-Fits16 (some n) h = ap some (from_le_bytes16-to_le_bytes16 n h)
