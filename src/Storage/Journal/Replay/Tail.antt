-- ===== src/Storage/Journal/Replay/Tail.antt =====
-- What `scan_flash` does behind the last good record: erased flash, the end, or a bad word.
use native.Mathlib.Nat.{zero-add}
use omniportal.Base.{
  ℕ, suc, ◌+◌, ◌*◌, ◌/◌, if◌then◌else◌, ◌-◌, ◌%◌, ◌≤◌, ◌≡◌, refl, sym, ap, ◌∙◌, inl, inr, List, [],
  ◌∷◌, ◌++◌, false, Option, none, some, length, replicate, length-append, leb, Bool-cases, arith,
  ◌==◌,
}
use omniportal.Base.Bytes.{add32, bytes_eq, from_le_bytes}
use omniportal.Storage.Records.{journal_record_magic}
use omniportal.Storage.Table.{StorageError, corrupt}
use omniportal.Storage.Catalog.{Catalog}
use omniportal.Storage.Flash.{StorageFlash, read, storage_flash_offset, storage_flash_bytes}
use omniportal.Storage.Journal.Bytes.{
  JournalRecord, header_of, record_len, journal_bytes, record_bytes, length-record_bytes,
  length-journal_bytes_mod, read_at,
}
use omniportal.Storage.Journal.{
  apply_record, scan_step, scan_loop, scan_flash, returned, erased_word, corrupt_record,
  stop_at_corrupt_tail, next_sector_offset,
}
use omniportal.Storage.Journal.Replay.{
  replay, unless_failed, scan_on, scan_loop-replay, AllRecords, scan_loop-suc,
}

-- A replay that succeeds leaves the write offset behind the last record.
unless_failed-write_offset :
    (go : Catalog → Catalog × Option StorageError) (offset end : ℕ)
    → ((c c' : Catalog) → go c ≡ (c', none) → c'.write_offset ≡ end)
    → (result : Catalog × Option StorageError) (c' : Catalog)
    → unless_failed go offset result ≡ (c', none)
    → c'.write_offset ≡ end
unless_failed-write_offset go offset end ih (c, some e) c' h = ground arith
unless_failed-write_offset go offset end ih (c, none) c' h =
    ih (record c { write_offset = offset }) c' h

pub replay-write_offset :
    (rs : List JournalRecord) (offset : ℕ) (c c' : Catalog)
    → replay offset rs c ≡ (c', none)
    → c'.write_offset ≡ offset + length (journal_bytes rs)
unfolding replay journal_bytes
replay-write_offset [] offset c c' h = ground arith
replay-write_offset (r ∷ rs) offset c c' h =
    unless_failed-write_offset (replay (offset + record_len (length r.payload)) rs)
      (offset + record_len (length r.payload)) (offset + length (journal_bytes (r ∷ rs)))
      (λ d d' e.
        replay-write_offset rs (offset + record_len (length r.payload)) d d' e
        ∙ omega (arith, length-append (record_bytes r) (journal_bytes rs), length-record_bytes r))
      (apply_record c (header_of r) (offset + 24) r.payload) c' h

pub length-records : (rs : List JournalRecord) → length rs ≤ length (journal_bytes rs)
unfolding journal_bytes
length-records [] = omega arith
length-records (r ∷ rs) = omega (
  arith,
  length-append (record_bytes r) (journal_bytes rs),
  length-record_bytes r,
  length-records rs,
)

module _ (flash : StorageFlash) (offset : ℕ) (aligned : offset % 4 ≡ 0) where
  erased_read :
      (n : ℕ) (pre : List ℕ)
      → flash.bytes ≡ pre ++ replicate (4 + n) 0xff
      → length pre ≡ offset
      → read (storage_flash_offset + offset) 4 flash ≡ some erased_word
  erased_read n pre at behind =
      read_at offset 4 flash pre erased_word (replicate n 0xff) (at ∙ ap (λ t. pre ++ t) (four n))
        behind refl aligned refl
    where
      four : (n : ℕ) → replicate {A = ℕ} (4 + n) 0xff ≡ erased_word ++ replicate n 0xff
      four n = let e : 4 + n ≡ suc (suc (suc (suc n))) = omega arith in rw e refl

  -- The loop ends where nothing was written yet, and at the end of the flash.
  scan_loop-erased :
      (fuel n : ℕ) (pre : List ℕ) (catalog : Catalog) (applied : ℕ)
      → flash.bytes ≡ pre ++ replicate n 0xff
      → length pre ≡ offset
      → offset + n ≡ storage_flash_bytes
      → catalog.write_offset ≡ offset
      → scan_loop (suc fuel) flash catalog offset applied ≡ returned (catalog, none)
  unfolding scan_loop scan_step
  scan_loop-erased fuel n pre catalog applied at behind size w =
      elim (Bool-cases (leb (add32 offset 24) storage_flash_bytes)) [
        | inr past ↦ ground (arith, past)
        | inl room ↦
            let n-4 : n ≡ 4 + (n - 4) = ground arith in
            let same : record catalog { write_offset = offset } ≡ catalog =
              ap (λ o. record catalog { write_offset = o }) (sym w) in
            ground (
              arith,
              room,
              same,
              erased_read (n - 4) pre (at ∙ ap (λ k. pre ++ replicate k 0xff) n-4) behind,
            )
      ]

scan_on-erased :
    (fuel n : ℕ) (flash : StorageFlash) (pre : List ℕ) (offset applied : ℕ)
    → offset % 4 ≡ 0
    → flash.bytes ≡ pre ++ replicate n 0xff
    → length pre ≡ offset
    → offset + n ≡ storage_flash_bytes
    → (result : Catalog × Option StorageError)
    → ((c : Catalog) → result ≡ (c, none) → c.write_offset ≡ offset)
    → scan_on (suc fuel) flash offset applied result ≡ returned result
scan_on-erased fuel n flash pre offset applied aligned at behind size (c, some e) h = refl
scan_on-erased fuel n flash pre offset applied aligned at behind size (c, none) h =
    scan_loop-erased flash offset aligned fuel n pre c applied at behind size (h c refl)

-- At boot: on a flash that holds a journal and is erased behind it, the scan rebuilds the catalog
-- by applying the records in order, up to the first error, and leaves the write offset behind the
-- last record.
pub scan_flash-replay :
    (rs : List JournalRecord) (n : ℕ) (flash : StorageFlash) (catalog : Catalog)
    → flash.bytes ≡ journal_bytes rs ++ replicate n 0xff
    → length (journal_bytes rs) + n ≡ storage_flash_bytes
    → AllRecords rs
    → catalog.write_offset ≡ 0
    → scan_flash flash catalog ≡ returned (replay 0 rs catalog)
unfolding scan_flash
scan_flash-replay rs n flash catalog at size v w =
    let room = length-records rs in
    let end = length (journal_bytes rs) in
    scan_loop-replay (storage_flash_bytes + 1) (suc (storage_flash_bytes - length rs)) flash rs []
      (replicate n 0xff) catalog 0 0 (omega arith) at refl refl v (omega arith) w
    ∙ scan_on-erased (storage_flash_bytes - length rs) n flash (journal_bytes rs) (0 + end)
        (0 + length rs) (omega (arith, length-journal_bytes_mod rs)) at (omega arith) (omega arith)
        (replay 0 rs catalog) (replay-write_offset rs 0 catalog)

-- A word that is neither erased nor the magic number of a record.
abbrev pub IsBadWord : List ℕ → Type 0
IsBadWord word =
    (length word ≡ 4)
    × (bytes_eq word erased_word ≡ false)
    × ((from_le_bytes word == journal_record_magic) ≡ false)

-- The result of the scan where a bad word stands behind the records.
unfoldable cut_short : ℕ → ℕ → Catalog × Option StorageError → Catalog × Option StorageError
cut_short offset applied (catalog, some e) = (catalog, some e)
cut_short offset applied (catalog, none) =
    stop_at_corrupt_tail (record catalog { corrupt_records = add32 catalog.corrupt_records 1 })
      offset applied

scan_loop-bad :
    (fuel : ℕ) (flash : StorageFlash) (pre word post : List ℕ) (offset applied : ℕ)
    → offset % 4 ≡ 0
    → flash.bytes ≡ pre ++ (word ++ post)
    → length pre ≡ offset
    → offset + 24 ≤ storage_flash_bytes
    → IsBadWord word
    → (result : Catalog × Option StorageError)
    → scan_on (suc fuel) flash offset applied result ≡ returned (cut_short offset applied result)
unfolding scan_step corrupt_record cut_short
scan_loop-bad fuel flash pre word post offset applied aligned at behind room bad (c, some e) = refl
scan_loop-bad fuel flash pre word post offset applied aligned at behind room bad (c, none) =
    scan_loop-suc fuel flash c offset applied room
    ∙ rw
        (scan_step, read_at offset 4 flash pre word post at behind bad.0 aligned refl, bad.1, bad.2)
        refl

scan_flash-cut_short :
    (rs : List JournalRecord) (word rest : List ℕ) (flash : StorageFlash) (catalog : Catalog)
    → flash.bytes ≡ journal_bytes rs ++ (word ++ rest)
    → length (journal_bytes rs) + 24 ≤ storage_flash_bytes
    → AllRecords rs
    → IsBadWord word
    → catalog.write_offset ≡ 0
    → scan_flash flash catalog
      ≡ returned (cut_short (length (journal_bytes rs)) (length rs) (replay 0 rs catalog))
unfolding scan_flash
scan_flash-cut_short rs word rest flash catalog at size v bad w =
    let room = length-records rs in
    let end = length (journal_bytes rs) in
    scan_loop-replay (storage_flash_bytes + 1) (suc (storage_flash_bytes - length rs)) flash rs []
      (word ++ rest) catalog 0 0 (omega arith) at refl refl v (omega arith) w
    ∙ scan_loop-bad (storage_flash_bytes - length rs) flash (journal_bytes rs) word rest (0 + end)
        (0 + length rs) (omega (arith, length-journal_bytes_mod rs)) at (omega arith) (omega arith)
        bad (replay 0 rs catalog)
    ∙ rw (zero-add end, zero-add (length rs)) refl

-- The sector behind the one of `offset`.
sector_behind :
    (offset : ℕ)
    → offset + 24 ≤ storage_flash_bytes
    → next_sector_offset offset ≡ (offset / 4096 + 1) * 4096
unfolding next_sector_offset
sector_behind offset room = omega arith

cut_short-write_offset :
    (offset applied : ℕ) (c : Catalog)
    → offset + 24 ≤ storage_flash_bytes
    → cut_short offset applied (c, none) ≡ (
        if applied == 0
        then (
          record c { corrupt_records = add32 c.corrupt_records 1; write_offset = offset },
          some corrupt,
        )
        else (
          record c {
            corrupt_records = add32 c.corrupt_records 1;
            write_offset = (offset / 4096 + 1) * 4096;
          },
          none,
        ))
unfolding cut_short stop_at_corrupt_tail
cut_short-write_offset offset applied c room =
    rw (cut_short, stop_at_corrupt_tail, sector_behind offset room) refl

-- Where a bad word stands behind records that are all applied without an error, the scan counts one
-- corrupt record. If there are records, it succeeds and gives the start of the next sector as the
-- place to write; if there is none, it fails with `corrupt` at the bad word. Whatever `rest` follows
-- the bad word, records that an earlier run has appended there included, is not looked at.
pub scan_flash-bad_word :
    (rs : List JournalRecord) (word rest : List ℕ) (flash : StorageFlash) (catalog c : Catalog)
    → flash.bytes ≡ journal_bytes rs ++ (word ++ rest)
    → length (journal_bytes rs) + 24 ≤ storage_flash_bytes
    → AllRecords rs
    → IsBadWord word
    → catalog.write_offset ≡ 0
    → replay 0 rs catalog ≡ (c, none)
    → scan_flash flash catalog
      ≡ returned (
          if length rs == 0
          then (
            record c {
              corrupt_records = add32 c.corrupt_records 1;
              write_offset = length (journal_bytes rs);
            },
            some corrupt,
          )
          else (
            record c {
              corrupt_records = add32 c.corrupt_records 1;
              write_offset = (length (journal_bytes rs) / 4096 + 1) * 4096;
            },
            none,
          ))
scan_flash-bad_word rs word rest flash catalog c at size v bad w applied =
    scan_flash-cut_short rs word rest flash catalog at size v bad w
    ∙ ap (λ result. returned (cut_short (length (journal_bytes rs)) (length rs) result)) applied
    ∙ ap returned (cut_short-write_offset (length (journal_bytes rs)) (length rs) c size)
