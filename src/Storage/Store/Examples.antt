-- ===== src/Storage/Store/Examples.antt =====
-- Stores on which the theorems on src/storage/mod.rs apply.
use omniportal.Base.{
  ℕ, zero, suc, ◌+◌, ◌-◌, ◌*◌, ◌<◌, ◌≤◌, ◌≡◌, ◌≢◌, refl, ◌⊎◌, List, [], ◌∷◌, ◌++◌, true, false,
  Option, none, some, arith, length, replicate, length-replicate, ◌==◌, ==_iff, Bool, ◌&&◌, ltb,
}
use omniportal.Base.All.{All, All-replicate}
use omniportal.Base.Ascii.{ascii}
use omniportal.Base.Result.{Result, ok, err}
use omniportal.Storage.Records.{StoredBlob}
use omniportal.Storage.Table.{StorageError, full, bad_request, not_found, find_by_id}
use omniportal.Storage.Table.Contents.{Held}
use omniportal.Storage.Table.Laws.{IsFull}
use omniportal.Storage.Catalog.{Catalog, new_catalog, blob_id}
use omniportal.Storage.Flash.{storage_flash_bytes}
use omniportal.Storage.Journal.{Store}
use omniportal.Storage.Journal.Bytes.{JournalRecord, IsRecord, journal_bytes, record_len}
use omniportal.Storage.Journal.Crc.{crc32}
use omniportal.Storage.Journal.Replay.{replay, AllRecords}
use omniportal.Storage.Store.{Fault, failed, append_blob, init}
use omniportal.Storage.Forms.Params.{IsByte, All-bytes}
use omniportal.Storage.Store.Figures.{Figures, FiguresFit}
use omniportal.Storage.Store.Requests.{serve, clear_request, select_request, upload_request}
use omniportal.Storage.Store.Synced.Reboot.{
  Session, begins, serves, tables_survive_reboot, serve_settles,
}
use omniportal.Storage.Store.Synced.{Synced, SameTables, StoredIdentity, StoredEntity, StoredId}
use omniportal.Storage.Store.Synced.Overflow.{append_blob_locks}

-- The size of the flash, by a name that does not compute.
unfoldable flash_size : ℕ
flash_size = storage_flash_bytes

flash_size_eq : flash_size ≡ storage_flash_bytes
unfolding flash_size
flash_size_eq = refl

-- The records of `n` empty blobs, the first of them with the id `id`.
abbrev empty_blobs : ℕ → ℕ → List JournalRecord
empty_blobs zero id = []
empty_blobs (suc n) id =
    record { kind = 7; id = id; generation = id; payload = [] } ∷ empty_blobs n (id + 1)

abbrev empty_table : ℕ → ℕ → List (Option StoredBlob)
empty_table zero id = []
empty_table (suc n) id =
    some (record { id = id; offset = id * 24; len = 0; crc32 = crc32 []; generation = id })
    ∷ empty_table n (id + 1)

abbrev crowded : Catalog
crowded = record new_catalog {
  blobs = empty_table 64 1;
  write_offset = 1536;
  next_blob_id = 65;
  next_generation = 65;
}

replay-crowded : replay 0 (empty_blobs 64 1) new_catalog ≡ (crowded, none)
unfolding replay new_catalog omniportal.Storage.Journal.apply_record
    omniportal.Storage.Catalog.upsert_blob omniportal.Storage.Catalog.observe_blob_id
    omniportal.Storage.Table.upsert_by_id crc32
replay-crowded = refl

crowded_length : length (journal_bytes (empty_blobs 64 1)) ≡ 1536
unfolding journal_bytes omniportal.Storage.Journal.Bytes.record_bytes
    omniportal.Storage.Journal.Header.encode omniportal.Base.Bytes.to_le_bytes
    omniportal.Base.Bytes.to_le_bytes16
crowded_length = refl

empty_blobs-AllRecords : (n id : ℕ) → id + n < 1000 → AllRecords (empty_blobs n id)
empty_blobs-AllRecords zero id h = tt
empty_blobs-AllRecords (suc n) id h = (
  record { id_lt = omega arith; generation_lt = omega arith; payload_le = omega arith },
  empty_blobs-AllRecords n (id + 1) (omega arith),
)

empty_table-All : (n id : ℕ) → id + n < 1000 → All (Held StoredId) (empty_table n id)
empty_table-All zero id h = tt
empty_table-All (suc n) id h = (omega arith, empty_table-All n (id + 1) (omega arith))

empty_table-IsFull : (n id : ℕ) → IsFull blob_id (empty_table n id)
empty_table-IsFull zero id = tt
empty_table-IsFull (suc n) id = empty_table-IsFull n (id + 1)

abbrev crowded_store : Store
crowded_store = record {
  flash = record { bytes = journal_bytes (empty_blobs 64 1) ++ replicate (flash_size - 1536) 0xff };
  catalog = crowded;
}

crowded-Synced : Synced crowded_store
unfolding new_catalog
crowded-Synced = record {
  written = empty_blobs 64 1;
  represents = record {
    free = flash_size - 1536;
    stored = refl;
    size = omega (arith, flash_size_eq, crowded_length);
    offset = omega (arith, crowded_length);
    records = empty_blobs-AllRecords 64 1 (omega arith);
  };
  booted = crowded;
  replayed = replay-crowded;
  same = record { identities_eq = refl; entities_eq = refl; blobs_eq = refl };
  formatted = refl;
  valid = record {
    record_id_lt = omega arith;
    blob_id_lt = omega arith;
    generation_lt = omega arith;
    identities = All-replicate (Held StoredIdentity) 32 none tt;
    entities = All-replicate (Held StoredEntity) 64 none tt;
    blobs = empty_table-All 64 1 (omega arith);
  };
}

crowded_unknown : find_by_id blob_id 65 (empty_table 64 1) ≡ none
unfolding find_by_id
crowded_unknown = refl

append_blob_locks_example :
    (t : Store) × (append_blob (1 ∷ 2 ∷ 3 ∷ 4 ∷ []) crowded_store ≡ (t, err (failed full)))
    × (booted : Store) × (init t.flash ≡ some booted)
    × (booted.catalog.needs_format ≡ true)
append_blob_locks_example =
    append_blob_locks crowded_store crowded-Synced (1 ∷ 2 ∷ 3 ∷ 4 ∷ []) (omega arith) (omega arith)
      (empty_table-IsFull 64 1) crowded_unknown

-- Figures of one kind of image each.
abbrev blank : ℕ → List ℕ
blank n = replicate n 0

length-blank : (n : ℕ) → length (blank n) ≡ n
length-blank n = length-replicate n zero

abbrev blank_figures : Figures
blank_figures = record {
  skylanders_catalog_entry = λ _. none;
  find_skylanders_catalog_entry = λ _ _. none;
  infinity_catalog_entry = λ _. none;
  find_infinity_catalog_entry = λ _. none;
  initialize_skylanders = λ _ _ _. blank 1024;
  initialize_mutable_skylanders = λ _ _ _ _. blank 1024;
  rekey_skylanders = λ image _ _ _. image;
  initialize_infinity = λ _ _. blank 320;
  validate_image = λ image. length image == 1024;
  infinity_figure_number = λ _. 1;
}

blank_figures-Fit : FiguresFit blank_figures
blank_figures-Fit = record {
  skylanders_entry = λ index e h. absurd (ground arith);
  find_skylanders = λ character_id variant_id e h. absurd (ground arith);
  infinity_entry = λ index e h. absurd (ground arith);
  find_infinity = λ figure_number e h. absurd (ground arith);
  length-initialize = λ character_id variant_id entity_id. length-blank 1024;
  length-initialize_mutable = λ character_id variant_id entity_id kind. length-blank 1024;
  length-rekey = λ image character_id variant_id entity_id. refl;
  length-initialize_infinity = λ figure_number entity_id. length-blank 320;
  length-valid = λ image h. (==_iff (length image) 1024).0 h;
  figure_number_lt = λ image. omega arith;
}

-- The slots are cleared, and then an entity that is not there is selected.
abbrev cleared : Store
cleared = record crowded_store {
  catalog = record crowded {
    active_slots = replicate 16 none;
    active_config_generation = 65;
    next_generation = 66;
  };
}

clear_step : serve blank_figures (clear_request []) (some crowded_store) ≡ (some cleared, ok tt)
unfolding serve omniportal.Storage.Store.Slots.clear_active_entity_from_params
    omniportal.Storage.Store.Slots.clear_active omniportal.Storage.Forms.query_param
    omniportal.Base.Exec.pure omniportal.Base.Exec.raise omniportal.Base.Exec.◌>>=◌ new_catalog
    omniportal.Storage.Store.take_next omniportal.Storage.Store.set_catalog
    omniportal.Storage.Catalog.take_generation omniportal.Storage.Store.with_store_mut
clear_step = refl

select_step :
    serve blank_figures (select_request (ascii "id=7")) (some cleared)
    ≡ (some cleared, err (failed not_found))
unfolding serve omniportal.Storage.Store.Slots.select_entity_from_params
    omniportal.Storage.Store.Slots.select_entity omniportal.Storage.Forms.query_param
    omniportal.Base.Exec.pure omniportal.Base.Exec.raise omniportal.Base.Exec.lift
    omniportal.Base.Exec.◌>>=◌ new_catalog omniportal.Storage.Store.find
    omniportal.Storage.Store.with_store_mut omniportal.Storage.Forms.parse_u32
    omniportal.Storage.Catalog.entity omniportal.Storage.Table.find_by_id
select_step = refl

ok_not_full : ◌≢◌ {A = Result {0, 0} Fault Unit} (ok tt) (err (failed full))
ok_not_full h = ground (arith, h)

missing_not_full : ◌≢◌ {A = Result {0, 0} Fault Unit} (err (failed not_found)) (err (failed full))
missing_not_full h = ground (arith, h)

two_requests : Session blank_figures crowded_store cleared
two_requests =
    serves cleared cleared (select_request (ascii "id=7")) (err (failed not_found))
      (serves crowded_store cleared (clear_request []) (ok tt) begins tt clear_step ok_not_full)
      (All-bytes (ascii "id=7") refl) select_step missing_not_full

tables_survive_reboot_example :
    (booted : Store) × (init crowded_store.flash ≡ some booted)
    × (booted.flash ≡ crowded_store.flash)
    × SameTables booted.catalog cleared.catalog
    × (booted.catalog.needs_format ≡ false)
tables_survive_reboot_example =
    tables_survive_reboot blank_figures crowded_store cleared blank_figures-Fit crowded-Synced
      two_requests

abbrev upload_name : List ℕ
upload_name = ascii "game=infinity&name=Mr%20Incredible"

serve_settles_example :
    (t : Store) × (result : Result {0, 0} Fault Unit) × (serve blank_figures
        (upload_request upload_name (blank 320))
        (some crowded_store)
      ≡ (some t, result))
    × ((result ≡ err (failed full)) ⊎ Synced t)
serve_settles_example =
    serve_settles blank_figures (upload_request upload_name (blank 320)) crowded_store
      blank_figures-Fit (All-bytes upload_name refl, All-replicate IsByte 320 0 (omega arith))
      crowded-Synced
