-- ===== src/Storage/Journal/Replay/Append.antt =====
-- `append_record` of src/storage/journal.rs adds one record to the journal that the flash holds.
use mathlib.Core.List.{append_assoc, append-nil}
use omniportal.Base.{
  ℕ, zero, suc, ◌+◌, ◌-◌, ◌%◌, ◌^◌, ◌≤◌, ◌<◌, ◌≡◌, refl, sym, ap, ◌∙◌, List, [], ◌∷◌, ◌++◌, false,
  none, some, length, replicate, length-append, length-replicate, ltb, le→not_ltb, lt→ltb, arith,
}
use omniportal.Base.Bytes.{add32, bytes_eq_refl}
use omniportal.Storage.Table.{full}
use omniportal.Storage.Catalog.{new_catalog}
use omniportal.Storage.Flash.{StorageFlash, write, storage_flash_offset, storage_flash_bytes}
use omniportal.Storage.Journal.Crc.{align4}
use omniportal.Storage.Journal.Bytes.{
  JournalRecord, IsRecord, record_len, journal_bytes, record_bytes, journal_bytes-append,
  length-record_bytes, length-journal_bytes_mod, read_at, write_at, align4-record_len,
  pad4-record_bytes,
}
use omniportal.Storage.Journal.{
  Store, append_record, write_record, verify_appended_record, scan_flash, returned,
}
use omniportal.Storage.Journal.Replay.{replay, AllRecords}
use omniportal.Storage.Journal.Replay.Tail.{scan_flash-replay}

-- The store's flash holds the records `rs` and is erased behind them, where the next one goes.
pub record Represents (rs : List JournalRecord) (s : Store) : Type 0 where
  pub free : ℕ
  pub stored : s.flash.bytes ≡ journal_bytes rs ++ replicate free 0xff
  pub size : length (journal_bytes rs) + free ≡ storage_flash_bytes
  pub offset : s.catalog.write_offset ≡ length (journal_bytes rs)
  pub records : AllRecords rs

replicate-add {ℓ} :
    {A : Type ℓ} (m n : ℕ) (x : A) → replicate (m + n) x ≡ replicate m x ++ replicate n x
replicate-add zero n x = ap (λ k. replicate k x) (omega arith)
replicate-add (suc m) n x =
    let e : suc m + n ≡ suc (m + n) = omega arith in rw e (ap (λ t. x ∷ t) (replicate-add m n x))

AllRecords-append :
    (rs : List JournalRecord) (r : JournalRecord)
    → AllRecords rs
    → IsRecord r
    → AllRecords (rs ++ r ∷ [])
AllRecords-append [] r all v = (v, tt)
AllRecords-append (q ∷ rs) r all v = (all.0, AllRecords-append rs r all.1 v)

-- The test for room, below the wrap-around.
record_fits :
    (rs : List JournalRecord) (s : Store) (r : JournalRecord)
    → Represents rs s
    → IsRecord r
    → ltb storage_flash_bytes
        (add32 s.catalog.write_offset (align4 (add32 24 (length r.payload % 2 ^ 32))))
      ≡ ltb storage_flash_bytes (length (journal_bytes rs) + record_len (length r.payload))
record_fits rs s r rep v =
    let size = rep.size in
    let payload = v.payload_le in
    ap (ltb storage_flash_bytes)
      (omega (arith, rep.offset, align4-record_len (length r.payload) v.payload_le))

module _ (rs : List JournalRecord) (s : Store) (r : JournalRecord) (rep : Represents rs s)
    (v : IsRecord r)
    (fits : length (journal_bytes rs) + record_len (length r.payload) ≤ storage_flash_bytes) where
  abbrev left : ℕ
  left = rep.free - record_len (length r.payload)

  abbrev written : StorageFlash
  written = record { bytes = journal_bytes rs ++ (record_bytes r ++ replicate left 0xff) }

  -- The store with the record behind the others.
  pub appended : Store
  appended = record {
    flash = written;
    catalog = record s.catalog {
      write_offset = length (journal_bytes rs) + record_len (length r.payload);
    };
  }

  pub appended-catalog : appended.catalog ≡ record s.catalog {
    write_offset = length (journal_bytes rs) + record_len (length r.payload);
  }
  unfolding appended
  appended-catalog = refl

  free_split :
      s.flash.bytes
      ≡ journal_bytes rs ++ (replicate (length (record_bytes r)) 0xff ++ replicate left 0xff)
  free_split =
      let size = rep.size in
      let e : rep.free ≡ length (record_bytes r) + left = omega (arith, length-record_bytes r) in
      rep.stored
      ∙ ap (λ k. journal_bytes rs ++ replicate k 0xff) e
      ∙ ap (λ t. journal_bytes rs ++ t) (replicate-add (length (record_bytes r)) left 0xff)

  record_write :
      write (storage_flash_offset + length (journal_bytes rs)) (record_bytes r) s.flash
      ≡ some written
  record_write =
      write_at (length (journal_bytes rs)) s.flash (journal_bytes rs) (record_bytes r)
        (replicate (length (record_bytes r)) 0xff) (replicate left 0xff) free_split refl
        (sym (length-replicate (length (record_bytes r)) 0xff)) (length-journal_bytes_mod rs)
        (omega (arith, length-record_bytes r))

  record_verified :
      verify_appended_record written (length (journal_bytes rs)) (record_bytes r) ≡ none
  unfolding verify_appended_record
  record_verified =
      rw
        (
          verify_appended_record,
          read_at (length (journal_bytes rs)) (length (record_bytes r)) written (journal_bytes rs)
              (record_bytes r) (replicate left 0xff) refl refl refl (length-journal_bytes_mod rs)
              (omega (arith, length-record_bytes r)),
          bytes_eq_refl (record_bytes r),
        )
        refl

  write_record-appended : write_record s (record_bytes r) ≡ (appended, none)
  unfolding write_record appended
  write_record-appended =
      let bytes = length-record_bytes r in
      let sum : add32 (length (journal_bytes rs)) (length (record_bytes r) % 2 ^ 32)
          ≡ length (journal_bytes rs) + record_len (length r.payload) =
        omega arith in
      ground (arith, rep.offset, record_write, record_verified, sum)

  -- On a formatted store with room for it, an append succeeds: the record stands behind the others
  -- on the flash, and of the catalog only the write offset has changed.
  pub append_record-appended :
      s.catalog.needs_format ≡ false
      → append_record s r.kind r.id r.generation r.payload ≡ (appended, none)
  unfolding append_record
  append_record-appended formatted =
      let test = record_fits rs s r rep v in
      let test' = le→not_ltb storage_flash_bytes _ fits in
      ground (arith, formatted, test, test', pad4-record_bytes r, write_record-appended)

  pub appended-Represents : Represents (rs ++ r ∷ []) appended
  unfolding appended journal_bytes
  appended-Represents =
      let size = rep.size in
      let whole : journal_bytes (rs ++ r ∷ []) ≡ journal_bytes rs ++ record_bytes r =
        journal_bytes-append rs (r ∷ [])
        ∙ ap (λ t. journal_bytes rs ++ t) (append-nil (record_bytes r)) in
      let bytes = length-record_bytes r in
      let total = ap length whole ∙ length-append (journal_bytes rs) (record_bytes r) in
      record {
        free = left;
        stored =
            sym (append_assoc (journal_bytes rs) (record_bytes r) (replicate left 0xff))
            ∙ ap (λ t. t ++ replicate left 0xff) (sym whole);
        size = omega arith;
        offset = omega arith;
        records = AllRecords-append rs r rep.records v;
      }

-- What an append has written, the next boot replays: on a formatted store whose flash holds the
-- records `rs`, with room for one more, `append_record` succeeds, and a scan of the new flash applies
-- `rs` and then the new record.
pub scan_flash-append_record :
    (rs : List JournalRecord) (s : Store) (r : JournalRecord)
    → Represents rs s
    → IsRecord r
    → s.catalog.needs_format ≡ false
    → length (journal_bytes rs) + record_len (length r.payload) ≤ storage_flash_bytes
    → (s' : Store) × (append_record s r.kind r.id r.generation r.payload ≡ (s', none))
      × Represents (rs ++ r ∷ []) s'
      × (scan_flash s'.flash new_catalog ≡ returned (replay 0 (rs ++ r ∷ []) new_catalog))
unfolding new_catalog
scan_flash-append_record rs s r rep v formatted fits =
    let rep' = appended-Represents rs s r rep v fits in
    (
      appended rs s r rep v fits,
      append_record-appended rs s r rep v fits formatted,
      rep',
      scan_flash-replay (rs ++ r ∷ []) rep'.free (appended rs s r rep v fits).flash new_catalog
          rep'.stored rep'.size rep'.records refl,
    )

-- Without room for the record, on a formatted store, the append says so, and neither the flash nor the catalog changes.
pub append_record_full :
    (rs : List JournalRecord) (s : Store) (r : JournalRecord)
    → Represents rs s
    → IsRecord r
    → s.catalog.needs_format ≡ false
    → storage_flash_bytes < length (journal_bytes rs) + record_len (length r.payload)
    → append_record s r.kind r.id r.generation r.payload ≡ (s, some full)
unfolding append_record
append_record_full rs s r rep v formatted over =
    let test = record_fits rs s r rep v in
    let test' = lt→ltb storage_flash_bytes _ over in ground (arith, formatted, test, test')
