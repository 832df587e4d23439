-- ===== src/Storage/Store/Synced/Overflow.antt =====
-- A table that is full: src/storage/mod.rs, `append_blob`, and the next boot.
use omniportal.Base.{
  ℕ, ◌+◌, ◌≤◌, ◌≡◌, refl, ap, ◌∙◌, List, [], ◌∷◌, ◌++◌, true, none, some, length, arith,
}
use omniportal.Base.Bytes.{add32}
use omniportal.Base.Result.{ok, err}
use omniportal.Base.Exec.{pure, gets, ◌>>=◌, continue}
use omniportal.Storage.Records.{StoredBlob}
use omniportal.Storage.Table.{full, find_by_id, upsert_by_id}
use omniportal.Storage.Table.Laws.{IsFull, upsert_by_id_fails}
use omniportal.Storage.Catalog.{
  Catalog, new_catalog, blob_id, upsert_blob, observe_blob_id, take_blob_id, take_generation,
  clear_transient_active_slots,
}
use omniportal.Storage.Flash.{storage_flash_bytes}
use omniportal.Storage.Journal.{Store, apply_record, scan_flash, returned}
use omniportal.Storage.Journal.Bytes.{JournalRecord, IsRecord, header_of, record_len, journal_bytes}
use omniportal.Storage.Journal.Replay.Append.{
  Represents, appended, appended-catalog, appended-Represents, append_record-appended,
}
use omniportal.Storage.Journal.Replay.Extend.{replay-append_err}
use omniportal.Storage.Journal.Replay.Tail.{scan_flash-replay}
use omniportal.Storage.Store.{
  failed, append_blob, init, append, change, take_next, stored_blob, from_error,
}
use omniportal.Storage.Store.Synced.{Synced}
use omniportal.Storage.Store.Synced.Blobs.{IsImage, blob_record, blob_record-IsRecord}

upsert_blob_fails :
    (b : StoredBlob) (c : Catalog)
    → upsert_by_id blob_id b c.blobs ≡ (c.blobs, some full)
    → upsert_blob b c ≡ (c, some full)
unfolding upsert_blob
upsert_blob_fails b c h = ap (λ r. (record c { blobs = r.0 }, r.1)) h

change_fails :
    (b : StoredBlob) (t : Store)
    → upsert_by_id blob_id b t.catalog.blobs ≡ (t.catalog.blobs, some full)
    → change (upsert_blob b) t ≡ (t, err (failed full))
unfolding change
change_fails b t h =
    ap (λ r. (record t { catalog = r.0 }, from_error r.1)) (upsert_blob_fails b t.catalog h)

start : new_catalog.write_offset ≡ 0
unfolding new_catalog
start = refl

module _ (s : Store) (z : Synced s) (image : List ℕ) (n : IsImage image)
    (room : s.catalog.write_offset + record_len (length image) ≤ storage_flash_bytes)
    (taken : IsFull blob_id s.catalog.blobs)
    (unknown : find_by_id blob_id s.catalog.next_blob_id s.catalog.blobs ≡ none) where
  abbrev r : JournalRecord
  r = blob_record s.catalog.next_blob_id s.catalog.next_generation image

  is_record : IsRecord r
  is_record =
      blob_record-IsRecord s.catalog.next_blob_id s.catalog.next_generation image z.valid.blob_id_lt
        z.valid.generation_lt n

  -- The two counters have been advanced.
  abbrev counted : Store
  counted = record s {
    catalog = record s.catalog {
      next_blob_id = add32 s.catalog.next_blob_id 1;
      next_generation = add32 s.catalog.next_generation 1;
    };
  }

  counted-Represents : Represents z.written counted
  counted-Represents = record {
    free = z.represents.free;
    stored = z.represents.stored;
    size = z.represents.size;
    offset = z.represents.offset;
    records = z.represents.records;
  }

  fits : length (journal_bytes z.written) + record_len (length image) ≤ storage_flash_bytes
  fits = let offset = z.represents.offset in omega arith

  -- The store with the record on its flash.
  written_store : Store
  written_store = appended z.written counted r counted-Represents is_record fits

  appends :
      append 7 s.catalog.next_blob_id s.catalog.next_generation image counted
      ≡ (written_store, ok tt)
  unfolding append written_store
  appends =
      rw (append_record-appended z.written counted r counted-Represents is_record fits z.formatted)
        refl

  full_table :
      (offset : ℕ)
      → upsert_by_id blob_id
          (stored_blob s.catalog.next_blob_id offset image s.catalog.next_generation)
          s.catalog.blobs
        ≡ (s.catalog.blobs, some full)
  full_table offset = (upsert_by_id_fails blob_id _ s.catalog.blobs).1 (taken, unknown)

  written_blobs : written_store.catalog.blobs ≡ s.catalog.blobs
  unfolding written_store
  written_blobs =
      ap (λ c. c.blobs) (appended-catalog z.written counted r counted-Represents is_record fits)

  append_blob_fails : append_blob image s ≡ (written_store, err (failed full))
  unfolding append_blob ◌>>=◌ gets take_next take_blob_id take_generation
  append_blob_fails = rw appends (
      ap (λ r. continue r (λ _. pure s.catalog.next_blob_id))
        (change_fails
          (stored_blob s.catalog.next_blob_id (add32 s.catalog.write_offset 24) image
            s.catalog.next_generation)
          written_store (rw written_blobs (full_table (add32 s.catalog.write_offset 24)))))

  boot_stops :
      (c : Catalog) × (apply_record z.booted
          (header_of r)
          (length (journal_bytes z.written) + 24)
          image
        ≡ (c, some full))
  unfolding apply_record observe_blob_id
  boot_stops = (
    observe_blob_id s.catalog.next_blob_id s.catalog.next_generation z.booted,
    upsert_blob_fails
        (stored_blob s.catalog.next_blob_id (length (journal_bytes z.written) + 24) image
          s.catalog.next_generation)
        (observe_blob_id s.catalog.next_blob_id s.catalog.next_generation z.booted)
        (rw z.same.blobs_eq (full_table (length (journal_bytes z.written) + 24))),
  )

  booted_scan : scan_flash written_store.flash new_catalog ≡ returned (boot_stops.0, some full)
  unfolding written_store
  booted_scan =
      let rep = appended-Represents z.written counted r counted-Represents is_record fits in
      scan_flash-replay (z.written ++ r ∷ []) rep.free written_store.flash new_catalog rep.stored
        rep.size rep.records start
      ∙ ap returned
          (replay-append_err z.written r z.booted boot_stops.0 z.replayed full boot_stops.1)

  -- In a store in step with its flash, which has room for the image's record, but whose table of
  -- blobs is full and does not hold the next blob id, saving the image fails with `full`; its record is on
  -- the flash all the same, and the next boot stops at it: it takes the storage to need a format.
  pub append_blob_locks :
      (t : Store) × (append_blob image s ≡ (t, err (failed full)))
      × (booted : Store) × (init t.flash ≡ some booted)
      × (booted.catalog.needs_format ≡ true)
  unfolding init clear_transient_active_slots
  append_blob_locks = (
    written_store,
    append_blob_fails,
    record {
      flash = written_store.flash;
      catalog = clear_transient_active_slots (record boot_stops.0 { needs_format = true });
    },
    rw (init, booted_scan) refl,
    refl,
  )
