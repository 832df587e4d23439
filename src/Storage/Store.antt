-- ===== src/Storage/Store.antt =====
-- The store of src/storage/mod.rs, its journal and its blobs. An operation on `&mut Store` that
-- returns a `Result` is an action; the JSON text that the source formats for the client is left
-- out, and an action returns what goes into it.
pub mod Figures
pub mod Compact
pub mod Params
pub mod Images
pub mod Slots
pub mod Create
pub mod Import
pub mod Edit
pub mod Requests
pub mod Synced
pub mod Examples
use mathlib.Core.Option
use omniportal.Base.{
  ℕ, ◌+◌, ◌%◌, ◌^◌, List, [], ◌∷◌, Bool, true, Option, none, some, ◌==◌, if◌then◌else◌, length, not,
}
use omniportal.Base.Bytes.{add32}
use omniportal.Base.Result.{Result, ok, err}
use omniportal.Base.Exec.{Exec, pure, raise, lift, gets, update, ◌>>=◌, ◌>>◌}
use omniportal.Storage.Records.{Entity, StoredBlob, BlobId, RecordId, journal_record_header_bytes}
use omniportal.Storage.Table.{StorageError, uninitialized, not_found, flash_error, corrupt}
use omniportal.Storage.Catalog.{
  Catalog, new_catalog, take_blob_id, take_generation, blob, upsert_blob, upsert_entity,
  clear_transient_active_slots,
}
use omniportal.Storage.Flash.{StorageFlash, read, storage_flash_offset}
use omniportal.Storage.Journal.Crc.{crc32}
use omniportal.Storage.Journal.EntityRecord.{encode_entity}
use omniportal.Storage.Journal.{
  Store, append_record, scan_flash, returned, scan_panicked, out_of_fuel, record_kind_blob_data,
  record_kind_entity_upsert,
}

-- What ends an operation: an error of the source, or a panic.
pub data Fault : Type 0 where
  failed : StorageError → Fault
  panicked : Fault

abbrev pub Action : Type 0 → Type 0
Action A = Exec Store Fault A

abbrev pub from_error : Option StorageError → Result {0, 0} Fault Unit
from_error none = ok tt
from_error (some e) = err (failed e)

abbrev pub or_fail : {A : Type 0} → Option A → StorageError → Result {0, 0} Fault A
or_fail none e = err (failed e)
or_fail (some a) e = ok a

-- `append_record(&mut store.flash, &mut store.catalog, …)?`.
unfoldable pub append : ℕ → ℕ → ℕ → List ℕ → Action Unit
append kind id generation payload s =
    let (s', e) = append_record s kind id generation payload in (s', from_error e)

-- An assignment to fields of the catalog.
unfoldable pub set_catalog : (Catalog → Catalog) → Action Unit
set_catalog f s = (record s { catalog = f s.catalog }, ok tt)

-- A change of the catalog that may fail, as in `store.catalog.upsert_blob(…)?`.
unfoldable pub change : (Catalog → Catalog × Option StorageError) → Action Unit
change f s = let (c, e) = f s.catalog in (record s { catalog = c }, from_error e)

-- A change of the catalog that yields a value, as in `store.catalog.next_record_id()`.
unfoldable pub take_next : {A : Type 0} → (Catalog → A × Catalog) → Action A
take_next f s = let (a, c) = f s.catalog in (record s { catalog = c }, ok a)

-- A look into the catalog: `….ok_or(error)?`.
unfoldable pub find : {A : Type 0} → (Catalog → Option A) → StorageError → Action A
find f e s = (s, or_fail (f s.catalog) e)

unfoldable pub read_flash : ℕ → ℕ → Action (List ℕ)
read_flash offset n s = (s, or_fail (read offset n s.flash) flash_error)

abbrev pub stored_blob : BlobId → ℕ → List ℕ → ℕ → StoredBlob
stored_blob id offset image generation = record {
  id = id;
  offset = offset;
  len = length image % 2 ^ 32;
  crc32 = crc32 image;
  generation = generation;
}

unfoldable pub append_blob : List ℕ → Action BlobId
unfolding append change take_next
append_blob image = do
  blob_id ← take_next take_blob_id
  generation ← take_next take_generation
  payload_offset ← gets (λ s. add32 s.catalog.write_offset journal_record_header_bytes)
  append record_kind_blob_data blob_id generation image
  change (upsert_blob (stored_blob blob_id payload_offset image generation))
  pure blob_id

unfoldable pub append_entity_record : Entity → Action Unit
unfolding append change
append_entity_record entity = do
  append record_kind_entity_upsert entity.id entity.updated_generation (encode_entity entity)
  change (upsert_entity entity)

unfoldable pub read_blob : BlobId → Action (List ℕ)
unfolding find read_flash
read_blob blob_id = do
  blob ← find (blob blob_id) not_found
  bytes ← read_flash (add32 storage_flash_offset blob.offset) blob.len
  if not (crc32 bytes == blob.crc32) then raise (failed corrupt) else pure bytes

-- `init`: the catalog is rebuilt from the flash, and no figure is active. `none` is a panic of the
-- scan; its fuel never runs out.
unfoldable pub init : StorageFlash → Option Store
init flash = elim (scan_flash flash new_catalog) [
  | scan_panicked ↦ none
  | out_of_fuel ↦ none
  | returned (catalog, none) ↦
      some (record { flash = flash; catalog = clear_transient_active_slots catalog })
  | returned (catalog, some e) ↦ some (record {
    flash = flash;
    catalog = clear_transient_active_slots (record catalog { needs_format = true });
  })
]

-- `with_store_mut`: the static holds no store before `init`.
unfoldable pub with_store_mut : {A : Type 0} → Action A → Exec (Option Store) Fault A
with_store_mut m none = (none, err (failed uninitialized))
with_store_mut m (some s) = let (s', r) = m s in (some s', r)
