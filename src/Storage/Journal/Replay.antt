-- ===== src/Storage/Journal/Replay.antt =====
-- `scan_flash` of src/storage/journal.rs and the records in the journal.
pub mod Tail
pub mod Append
pub mod Extend
pub mod Panic
use mathlib.Core.List.{append_assoc}
use native.Mathlib.Nat.{add-zero}
use omniportal.Base.{
  ℕ, zero, suc, ◌+◌, ◌-◌, ◌*◌, ◌%◌, ◌≤◌, ◌<◌, ◌^◌, ◌≡◌, refl, sym, ap, ap₂, ◌∙◌, List, [], ◌∷◌,
  ◌++◌, Bool, true, false, Option, none, some, length, replicate, drop, take, length-append,
  length-replicate, take-append, leb, ltb, le→leb, le→not_ltb, Bool-cases, inl, inr, nil_of_length,
  ==_refl, arith, ◌==◌,
}
use omniportal.Base.Bytes.{add32, sub32, bytes_eq, from_le_bytes}
use omniportal.Storage.Table.{StorageError}
use omniportal.Storage.Catalog.{Catalog}
use omniportal.Storage.Flash.{StorageFlash, read, storage_flash_offset, storage_flash_bytes}
use omniportal.Storage.Journal.Crc.{crc32, align4}
use omniportal.Storage.Journal.Header.{JournalHeader, encode, decode, decode-encode, length-encode}
use omniportal.Storage.Journal.Bytes.{
  JournalRecord, IsRecord, header_of, record_len, padding, body, record_bytes, journal_bytes,
  header_of-IsHeader, align4-record_len, length-body, length-record_bytes, read_at,
}
use omniportal.Storage.Journal.{
  ScanStep, returns, panics, continues, ScanOutcome, returned, scan_panicked, max_vec_bytes,
  applied_step, apply_record, scan_payload, scan_sized, scan_buffer, scan_record, scan_header,
  scan_step, scan_loop, scan_flash, read_padded, erased_word,
}

-- Go on from offset `offset` unless there was an error.
abbrev unless_failed :
    (Catalog → Catalog × Option StorageError)
    → ℕ
    → Catalog × Option StorageError
    → Catalog × Option StorageError
unless_failed go offset (catalog, some e) = (catalog, some e)
unless_failed go offset (catalog, none) = go (record catalog { write_offset = offset })

-- The specification: the records are applied in order, the first of them at offset `offset`. An
-- error ends the replay.
unfoldable pub replay : ℕ → List JournalRecord → Catalog → Catalog × Option StorageError
replay offset [] catalog = (record catalog { write_offset = offset }, none)
replay offset (r ∷ rs) catalog =
    let next = offset + record_len (length r.payload) in
    unless_failed (replay next rs) next (apply_record catalog (header_of r) (offset + 24) r.payload)

-- Every record is well formed.
abbrev pub AllRecords : List JournalRecord → Type 0
AllRecords [] = Unit
AllRecords (r ∷ rs) = IsRecord r × AllRecords rs

-- One record at `offset` on the flash, between what is before and what is after it.
module _ (flash : StorageFlash) (pre post : List ℕ) (r : JournalRecord) (offset : ℕ)
    (at : flash.bytes ≡ pre ++ (record_bytes r ++ post)) (behind : length pre ≡ offset)
    (aligned : offset % 4 ≡ 0) (v : IsRecord r)
    (fits : offset + record_len (length r.payload) ≤ storage_flash_bytes) where
  abbrev size : ℕ
  size = record_len (length r.payload)

  abbrev step_of : Catalog → ℕ → ScanStep
  step_of catalog applied =
      applied_step (apply_record catalog (header_of r) (offset + 24) r.payload) (offset + size)
        (applied + 1)

  header_read : read (storage_flash_offset + offset) 24 flash ≡ some (encode (header_of r))
  unfolding record_bytes
  header_read =
      read_at offset 24 flash pre (encode (header_of r)) (body r ++ post)
        (at ∙ ap (λ t. pre ++ t) (append_assoc (encode (header_of r)) (body r) post)) behind
        (length-encode (header_of r)) aligned refl

  abbrev magic_word : List ℕ
  magic_word = 0x49 ∷ 0x4e ∷ 0x4d ∷ 0x4f ∷ []

  encode-magic_word : encode (header_of r) ≡ magic_word ++ drop 4 (encode (header_of r))
  unfolding encode
  encode-magic_word = refl

  word_read : read (storage_flash_offset + offset) 4 flash ≡ some magic_word
  unfolding record_bytes
  word_read =
      read_at offset 4 flash pre magic_word (drop 4 (encode (header_of r)) ++ (body r ++ post))
        (at
          ∙ ap (λ t. pre ++ t)
              (append_assoc (encode (header_of r)) (body r) post
                ∙ ap (λ t. t ++ (body r ++ post)) encode-magic_word))
        behind refl aligned refl

  behind_header : flash.bytes ≡ (pre ++ encode (header_of r)) ++ (body r ++ post)
  unfolding record_bytes
  behind_header =
      at
      ∙ ap (λ t. pre ++ t) (append_assoc (encode (header_of r)) (body r) post)
      ∙ sym (append_assoc pre (encode (header_of r)) (body r ++ post))

  body_read : read_padded (offset + 24) (size - 24) flash ≡ some (body r)
  unfolding read_padded
  body_read = elim (Bool-cases (size - 24 == 0)) [
    | inl empty ↦
        rw (read_padded, empty)
          (ap some (sym (nil_of_length (body r) (ground (arith, length-body r)))))
    | inr full ↦
        rw (read_padded, full)
          (read_at (offset + 24) (size - 24) flash (pre ++ encode (header_of r)) (body r) post
            behind_header
            (omega (arith, length-append pre (encode (header_of r)), length-encode (header_of r)))
            (length-body r) (omega arith) (omega arith))
  ]

  len_mod : length r.payload % 2 ^ 32 ≡ length r.payload
  len_mod = let fits_u32 = v.payload_le in omega arith

  payload-body : take (length r.payload % 2 ^ 32) (body r) ≡ r.payload
  payload-body = rw len_mod (take-append r.payload (padding (length r.payload)))

  scan_payload-step :
      (catalog : Catalog) (applied : ℕ)
      → scan_payload flash catalog (header_of r) size offset applied (body r)
        ≡ step_of catalog applied
  unfolding scan_payload
  scan_payload-step catalog applied =
      let sum : add32 offset 24 ≡ offset + 24 = omega arith in
      let end : add32 offset size ≡ offset + size = omega arith in
      rw (scan_payload, payload-body, ==_refl (crc32 r.payload), sum, end) refl

  scan_sized-step :
      (catalog : Catalog) (applied : ℕ)
      → scan_sized flash catalog (header_of r) size offset applied ≡ step_of catalog applied
  unfolding scan_sized scan_buffer
  scan_sized-step catalog applied =
      let sum : add32 offset 24 ≡ offset + 24 = omega arith in
      let rest : sub32 size 24 ≡ size - 24 = omega arith in
      let small : ltb max_vec_bytes (size - 24) ≡ false =
        le→not_ltb max_vec_bytes (size - 24) (omega arith) in
      rw (scan_sized, rest, small, scan_buffer, sum, body_read) (scan_payload-step catalog applied)

  scan_record-step :
      (catalog : Catalog) (applied : ℕ)
      → scan_record flash catalog (header_of r) offset applied ≡ step_of catalog applied
  unfolding scan_record
  scan_record-step catalog applied =
      let end : add32 offset size ≡ offset + size = omega arith in
      rw
        (
          scan_record,
          align4-record_len (length r.payload) v.payload_le,
          end,
          le→not_ltb storage_flash_bytes (offset + size) fits,
        )
        (scan_sized-step catalog applied)

  scan_step-step :
      (catalog : Catalog) (applied : ℕ)
      → scan_step flash catalog offset applied ≡ step_of catalog applied
  unfolding scan_step scan_header from_le_bytes
  scan_step-step catalog applied =
      rw
        (
          scan_step,
          word_read,
          scan_header,
          header_read,
          decode-encode (header_of r) (header_of-IsHeader r v),
        )
        (scan_record-step catalog applied)

-- The loop over a journal that begins at `offset`: it replays the records, and goes on behind
-- them with the fuel that is left.
abbrev scan_on : ℕ → StorageFlash → ℕ → ℕ → Catalog × Option StorageError → ScanOutcome
scan_on fuel flash offset applied (catalog, some e) = returned (catalog, some e)
scan_on fuel flash offset applied (catalog, none) = scan_loop fuel flash catalog offset applied

-- What a round leads to.
abbrev pub go_on : ℕ → StorageFlash → ScanStep → ScanOutcome
go_on fuel flash (returns result) = returned result
go_on fuel flash panics = scan_panicked
go_on fuel flash (continues catalog offset applied) = scan_loop fuel flash catalog offset applied

scan_loop-suc :
    (k : ℕ) (flash : StorageFlash) (catalog : Catalog) (offset applied : ℕ)
    → offset + 24 ≤ storage_flash_bytes
    → scan_loop (suc k) flash catalog offset applied
      ≡ go_on k flash (scan_step flash catalog offset applied)
unfolding scan_loop
scan_loop-suc k flash catalog offset applied h =
    let room : leb (add32 offset 24) storage_flash_bytes ≡ true = ground arith in
    ground (arith, room)

after_step :
    (k fuel : ℕ) (flash : StorageFlash) (rs : List JournalRecord) (offset applied end total : ℕ)
    → ((catalog : Catalog)
        → scan_loop k flash (record catalog { write_offset = offset }) offset applied
          ≡ scan_on fuel flash end total
              (replay offset rs (record catalog { write_offset = offset })))
    → (result : Catalog × Option StorageError)
    → go_on k flash (applied_step result offset applied)
      ≡ scan_on fuel flash end total (unless_failed (replay offset rs) offset result)
after_step k fuel flash rs offset applied end total ih (catalog, some e) = refl
after_step k fuel flash rs offset applied end total ih (catalog, none) = ih catalog

-- The loop replays the records of a journal that begins at `offset`, and goes on behind it.
pub scan_loop-replay :
    (k fuel : ℕ) (flash : StorageFlash) (rs : List JournalRecord) (pre tail : List ℕ)
    (catalog : Catalog) (offset applied : ℕ)
    → k ≡ length rs + fuel
    → flash.bytes ≡ pre ++ (journal_bytes rs ++ tail)
    → length pre ≡ offset
    → offset % 4 ≡ 0
    → AllRecords rs
    → offset + length (journal_bytes rs) ≤ storage_flash_bytes
    → catalog.write_offset ≡ offset
    → scan_loop k flash catalog offset applied
      ≡ scan_on fuel flash
          (offset + length (journal_bytes rs))
          (applied + length rs)
          (replay offset rs catalog)
unfolding replay journal_bytes
scan_loop-replay k fuel flash [] pre tail catalog offset applied kf at behind aligned v fits w =
    let same : record catalog { write_offset = offset } ≡ catalog =
      ap (λ o. record catalog { write_offset = o }) (sym w) in
    rw (same, add-zero offset, add-zero applied)
      (ap (λ t. scan_loop t flash catalog offset applied) (omega arith))
scan_loop-replay zero fuel flash (r ∷ rs) pre tail catalog offset applied kf at behind aligned v
      fits w =
    absurd (omega arith)
scan_loop-replay (suc k) fuel flash (r ∷ rs) pre tail catalog offset applied kf at behind aligned v
      fits w =
    let size = record_len (length r.payload) in
    let bytes = length-record_bytes r in
    let total = length-append (record_bytes r) (journal_bytes rs) in
    let next : flash.bytes ≡ (pre ++ record_bytes r) ++ (journal_bytes rs ++ tail) =
      at
      ∙ ap (λ t. pre ++ t) (append_assoc (record_bytes r) (journal_bytes rs) tail)
      ∙ sym (append_assoc pre (record_bytes r) (journal_bytes rs ++ tail)) in
    scan_loop-suc k flash catalog offset applied (omega arith)
    ∙ ap (go_on k flash) (
        scan_step-step flash pre (journal_bytes rs ++ tail) r offset
          (at ∙ ap (λ t. pre ++ t) (append_assoc (record_bytes r) (journal_bytes rs) tail)) behind
          aligned v.0 (omega arith) catalog applied)
    ∙ after_step k fuel flash rs (offset + size) (applied + 1)
        (offset + length (record_bytes r ++ journal_bytes rs)) (applied + suc (length rs))
        (λ c.
          scan_loop-replay k fuel flash rs (pre ++ record_bytes r) tail
            (record c { write_offset = offset + size }) (offset + size) (applied + 1) (omega arith)
            next (omega (arith, length-append pre (record_bytes r))) (omega arith) v.1 (omega arith)
            refl
          ∙ ap₂
              (λ e t.
                scan_on fuel flash e t
                  (replay (offset + size) rs (record c { write_offset = offset + size })))
              (omega arith) (omega arith))
        (apply_record catalog (header_of r) (offset + 24) r.payload)
