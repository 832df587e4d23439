-- ===== src/Storage/Journal/Terminates.antt =====
-- The rounds of the loop of `scan_flash` in src/storage/journal.rs, and their number.
use mathlib.Core.Path.{subst}
use omniportal.Base.{
  ℕ, zero, suc, ◌+◌, ◌*◌, ◌-◌, ◌≤◌, ◌<◌, ◌^◌, ◌≡◌, refl, ◌∙◌, sym, ◌⊎◌, inl, inr, List, [], Bool,
  true, false, Option, none, some, length, leb, arith, Bool-cases, Option-cases, ◌==◌,
}
use omniportal.Base.Bytes.{add32, sub32}
use omniportal.Storage.Table.{StorageError}
use omniportal.Storage.Catalog.{Catalog}
use omniportal.Storage.Flash.{StorageFlash, read, storage_flash_offset, storage_flash_bytes}
use omniportal.Storage.Journal.Crc.{align4}
use omniportal.Storage.Journal.Header.{JournalHeader, decode}
use omniportal.Storage.Journal.{
  ScanStep, returns, continues, applied_step, apply_record, scan_payload, scan_sized, scan_record,
  scan_header, scan_step, scan_loop, scan_flash, scan_buffer, read_padded, corrupt_record, panics,
  returned, scan_panicked, ScanOutcome, max_vec_bytes,
}

read-fits :
    (offset n : ℕ) (flash : StorageFlash) (bytes : List ℕ)
    → read offset n flash ≡ some bytes
    → offset + n ≤ length flash.bytes
unfolding read
read-fits offset n flash bytes h = ground arith

applied_step-offset :
    (result : Catalog × Option StorageError) (offset applied : ℕ) (c : Catalog) (o a : ℕ)
    → applied_step result offset applied ≡ continues c o a
    → o ≡ offset
applied_step-offset (d, some e) offset applied c o a h = ground arith
applied_step-offset (d, none) offset applied c o a h = ground arith

module _ (flash : StorageFlash) (catalog : Catalog) (c : Catalog) (o a : ℕ) where
  scan_payload-offset :
      (r : JournalHeader) (total offset applied : ℕ) (padded : List ℕ)
      → scan_payload flash catalog r total offset applied padded ≡ continues c o a
      → o ≡ add32 offset total
  unfolding scan_payload corrupt_record
  scan_payload-offset r total offset applied padded h = ground (
    arith,
    applied_step-offset
        (apply_record catalog r (add32 offset 24) (omniportal.Base.take r.payload_len padded))
        (add32 offset total) (applied + 1) c o a,
  )

  -- The padded payload was read, so it lies on the flash.
  abbrev PaddedFits : ℕ → ℕ → Type 0
  PaddedFits offset n = (n ≡ 0) ⊎ (storage_flash_offset + offset + n ≤ length flash.bytes)

  read_padded-fits :
      (offset n : ℕ) (bytes : List ℕ)
      → read_padded offset n flash ≡ some bytes
      → PaddedFits offset n
  unfolding read_padded
  read_padded-fits offset n bytes h =
      ground (arith, read-fits (storage_flash_offset + offset) n flash bytes)

  scan_sized-offset :
      (r : JournalHeader) (total offset applied : ℕ)
      → scan_sized flash catalog r total offset applied ≡ continues c o a
      → (o ≡ add32 offset total) × PaddedFits (add32 offset 24) (sub32 total 24)
  unfolding scan_sized scan_buffer
  scan_sized-offset r total offset applied h =
      elim (Option-cases (read_padded (add32 offset 24) (sub32 total 24) flash)) [
        | inl e ↦ absurd (ground (arith, e))
        | inr (bytes, e) ↦ (
          scan_payload-offset r total offset applied bytes (ground (arith, e)),
          read_padded-fits (add32 offset 24) (sub32 total 24) bytes e,
        )
      ]

  module _ (size : length flash.bytes ≡ storage_flash_bytes) where
    scan_record-offset :
        (r : JournalHeader) (offset applied : ℕ)
        → offset ≤ storage_flash_bytes
        → scan_record flash catalog r offset applied ≡ continues c o a
        → (offset + 24 ≤ o) × (o ≤ storage_flash_bytes)
    unfolding scan_record corrupt_record align4
    scan_record-offset r offset applied room h =
        ground (arith, scan_sized-offset r (align4 (add32 24 r.payload_len)) offset applied)

    scan_step-offset :
        (offset applied : ℕ)
        → offset ≤ storage_flash_bytes
        → scan_step flash catalog offset applied ≡ continues c o a
        → (offset + 24 ≤ o) × (o ≤ storage_flash_bytes)
    unfolding scan_step scan_header corrupt_record
    scan_step-offset offset applied room h =
        elim (Option-cases (read (storage_flash_offset + offset) 24 flash)) [
          | inl e ↦ absurd (ground (arith, e))
          | inr (header, e) ↦ elim (Option-cases (decode header)) [
            | inl d ↦ absurd (ground (arith, e, d))
            | inr (r, d) ↦ ground (arith, e, d, scan_record-offset r offset applied room)
          ]
        ]

-- A header on the flash whose payload's length is so near the end of `u32` that the sum with the
-- record's offset and header wraps around.
pub record HasHugeRecord (flash : StorageFlash) : Type 0 where
  pub offset : ℕ
  pub header : List ℕ
  pub header_record : JournalHeader
  pub header_read : read (storage_flash_offset + offset) 24 flash ≡ some header
  pub header_decoded : decode header ≡ some header_record
  pub payload_huge : 2 ^ 32 ≤ header_record.payload_len + storage_flash_bytes + 3

module _ (flash : StorageFlash) (catalog : Catalog) where
  applied_step-panics :
      (result : Catalog × Option StorageError) (offset applied : ℕ)
      → applied_step result offset applied ≡ panics
      → ⊥
  applied_step-panics (c, some e) offset applied h = ground arith
  applied_step-panics (c, none) offset applied h = ground arith

  scan_payload-panics :
      (r : JournalHeader) (total offset applied : ℕ) (padded : List ℕ)
      → scan_payload flash catalog r total offset applied padded ≡ panics
      → ⊥
  unfolding scan_payload corrupt_record
  scan_payload-panics r total offset applied padded h = ground (
    arith,
    applied_step-panics
        (apply_record catalog r (add32 offset 24) (omniportal.Base.take r.payload_len padded))
        (add32 offset total) (applied + 1),
  )

  scan_sized-panics :
      (r : JournalHeader) (total offset applied : ℕ)
      → scan_sized flash catalog r total offset applied ≡ panics
      → max_vec_bytes < sub32 total 24
  unfolding scan_sized scan_buffer
  scan_sized-panics r total offset applied h =
      elim (Option-cases (read_padded (add32 offset 24) (sub32 total 24) flash)) [
        | inl e ↦ ground (arith, e)
        | inr (bytes, e) ↦ ground (arith, e, scan_payload-panics r total offset applied bytes)
      ]

  scan_record-panics :
      (r : JournalHeader) (offset applied : ℕ)
      → offset + 24 ≤ storage_flash_bytes
      → scan_record flash catalog r offset applied ≡ panics
      → 2 ^ 32 ≤ r.payload_len + storage_flash_bytes + 3
  unfolding scan_record corrupt_record align4
  scan_record-panics r offset applied room h =
      ground (arith, scan_sized-panics r (align4 (add32 24 r.payload_len)) offset applied)

  scan_step-panics :
      (offset applied : ℕ)
      → offset + 24 ≤ storage_flash_bytes
      → scan_step flash catalog offset applied ≡ panics
      → HasHugeRecord flash
  unfolding scan_step scan_header corrupt_record
  scan_step-panics offset applied room h =
      elim (Option-cases (read (storage_flash_offset + offset) 24 flash)) [
        | inl e ↦ absurd (ground (arith, e))
        | inr (header, e) ↦ elim (Option-cases (decode header)) [
          | inl d ↦ absurd (ground (arith, e, d))
          | inr (r, d) ↦ record {
            offset = offset;
            header = header;
            header_record = r;
            header_read = e;
            header_decoded = d;
            payload_huge = ground (arith, e, d, scan_record-panics r offset applied room);
          }
        ]
      ]

ScanStep-cases :
    (s : ScanStep)
    → ((result : Catalog × Option StorageError) × (s ≡ returns result))
      ⊎ (s ≡ panics)
      ⊎ ((c : Catalog) × (o : ℕ) × (a : ℕ) × (s ≡ continues c o a))
ScanStep-cases (returns result) = inl (result, refl)
ScanStep-cases panics = inr (inl refl)
ScanStep-cases (continues c o a) = inr (inr (c, o, a, refl))

-- The loop has ended, and it panicked only where it had to.
EndsWell : StorageFlash → ScanOutcome → Type 0
EndsWell flash outcome =
    ((result : Catalog × Option StorageError) × (outcome ≡ returned result))
    ⊎ ((outcome ≡ scan_panicked) × HasHugeRecord flash)

scan_loop-ends :
    (fuel : ℕ) (flash : StorageFlash) (catalog : Catalog) (offset applied : ℕ)
    → length flash.bytes ≡ storage_flash_bytes
    → offset ≤ storage_flash_bytes
    → storage_flash_bytes < offset + fuel
    → EndsWell flash (scan_loop fuel flash catalog offset applied)
unfolding scan_loop EndsWell
scan_loop-ends zero flash catalog offset applied size room enough = absurd (omega arith)
scan_loop-ends (suc fuel) flash catalog offset applied size room enough =
    elim (Bool-cases (leb (add32 offset 24) storage_flash_bytes)) [
      | inr past ↦ inl ((catalog, none), ground (arith, past))
      | inl more ↦ elim (ScanStep-cases (scan_step flash catalog offset applied)) [
        | inl (result, e) ↦ inl (result, ground (arith, more, e))
        | inr (inl e) ↦ inr (
          ground (arith, more, e),
          scan_step-panics flash catalog offset applied (ground (arith, more)) e,
        )
        | inr (inr (c, o, a, e)) ↦
            let moved = scan_step-offset flash catalog c o a size offset applied room e in
            let rest = scan_loop-ends fuel flash c o a size moved.1 (omega (arith, moved.0)) in
            let same : scan_loop (suc fuel) flash catalog offset applied
                ≡ scan_loop fuel flash c o a =
              ground (arith, more, e) in
            subst (EndsWell flash) (sym same) rest
      ]
    ]

-- The scan of a flash of the configured size always ends: whatever bytes it holds, the loop moves on
-- by a header at least in each round, and the fuel never runs out. It returns, or it panics; it
-- panics only where the flash holds a header whose payload's length is so near 2^32 that the test
-- against the flash's size wraps around.
pub scan_flash_ends :
    (flash : StorageFlash) (catalog : Catalog)
    → length flash.bytes ≡ storage_flash_bytes
    → ((result : Catalog × Option StorageError) × (scan_flash flash catalog ≡ returned result))
      ⊎ ((scan_flash flash catalog ≡ scan_panicked) × HasHugeRecord flash)
unfolding scan_flash EndsWell
scan_flash_ends flash catalog size =
    scan_loop-ends (storage_flash_bytes + 1) flash catalog 0 0 size (omega arith) (omega arith)
