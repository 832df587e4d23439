-- ===== src/Storage/Catalog.antt =====
-- The `Catalog` of src/storage/catalog.rs: what the firmware knows of the journal, in memory.
-- An operation returns the new catalog, with its result in front where it has one.
pub mod Slots
pub mod Examples
use omniportal.Base.{
  ℕ, ◌+◌, List, [], ◌∷◌, Bool, false, Option, none, some, max, map, ◌==◌, if◌then◌else◌, replicate,
  set,
}
use omniportal.Base.Bytes.{add32, saturating_add32}
use omniportal.Domain.{GameLine}
use omniportal.Storage.Records.{
  CharacterIdentity, Entity, StoredBlob, RecordId, BlobId, max_identities, max_entities,
}
use omniportal.Storage.Table.{StorageError, find_by_id, upsert_by_id, delete_by_id}

-- `MAX_FIGURES` of src/usb/skylanders.rs.
abbrev pub max_figures : ℕ
max_figures = 16

pub record Catalog : Type 0 where
  pub identities : List (Option CharacterIdentity)
  pub entities : List (Option Entity)
  pub blobs : List (Option StoredBlob)
  pub usb_mode : GameLine
  pub active_slots : List (Option RecordId)
  pub active_config_generation : ℕ
  pub needs_format : Bool
  pub write_offset : ℕ
  pub next_record_id : ℕ
  pub next_blob_id : ℕ
  pub next_generation : ℕ
  pub corrupt_records : ℕ

unfoldable pub new_catalog : Catalog
new_catalog = record {
  identities = replicate max_identities none;
  entities = replicate max_entities none;
  blobs = replicate max_entities none;
  usb_mode = GameLine.skylanders;
  active_slots = replicate max_figures none;
  active_config_generation = 0;
  needs_format = false;
  write_offset = 0;
  next_record_id = 1;
  next_blob_id = 1;
  next_generation = 1;
  corrupt_records = 0;
}

unfoldable pub take_record_id : Catalog → RecordId × Catalog
take_record_id c = (c.next_record_id, record c { next_record_id = add32 c.next_record_id 1 })

unfoldable pub take_blob_id : Catalog → BlobId × Catalog
take_blob_id c = (c.next_blob_id, record c { next_blob_id = add32 c.next_blob_id 1 })

unfoldable pub take_generation : Catalog → ℕ × Catalog
take_generation c = (c.next_generation, record c { next_generation = add32 c.next_generation 1 })

unfoldable pub observe_record_id : ℕ → ℕ → Catalog → Catalog
observe_record_id id generation c = record c {
  next_record_id = max c.next_record_id (saturating_add32 id 1);
  next_generation = max c.next_generation (saturating_add32 generation 1);
}

unfoldable pub observe_blob_id : ℕ → ℕ → Catalog → Catalog
observe_blob_id id generation c = record c {
  next_blob_id = max c.next_blob_id (saturating_add32 id 1);
  next_generation = max c.next_generation (saturating_add32 generation 1);
}

abbrev pub identity_id : CharacterIdentity → ℕ
identity_id i = i.id

abbrev pub entity_id : Entity → ℕ
entity_id e = e.id

abbrev pub blob_id : StoredBlob → ℕ
blob_id b = b.id

unfoldable pub identity : RecordId → Catalog → Option CharacterIdentity
identity id c = find_by_id identity_id id c.identities

unfoldable pub entity : RecordId → Catalog → Option Entity
entity id c = find_by_id entity_id id c.entities

unfoldable pub blob : BlobId → Catalog → Option StoredBlob
blob id c = find_by_id blob_id id c.blobs

unfoldable pub upsert_identity : CharacterIdentity → Catalog → Catalog × Option StorageError
upsert_identity i c =
    let (items, e) = upsert_by_id identity_id i c.identities in (record c { identities = items }, e)

unfoldable pub upsert_entity : Entity → Catalog → Catalog × Option StorageError
upsert_entity i c =
    let (items, e) = upsert_by_id entity_id i c.entities in (record c { entities = items }, e)

unfoldable pub upsert_blob : StoredBlob → Catalog → Catalog × Option StorageError
upsert_blob i c = let (items, e) = upsert_by_id blob_id i c.blobs in (record c { blobs = items }, e)

unfoldable pub delete_identity : RecordId → Catalog → Catalog × Option StorageError
delete_identity id c =
    let (items, e) = delete_by_id identity_id id c.identities in
    (record c { identities = items }, e)

-- `if *slot == Some(id) { *slot = None }`.
abbrev pub clear_if : RecordId → Option RecordId → Option RecordId
clear_if id none = none
clear_if id (some held) = if held == id then none else some held

unfoldable pub clear_active_entity : RecordId → Catalog → Catalog
clear_active_entity id c = record c { active_slots = map (clear_if id) c.active_slots }

unfoldable pub delete_entity : RecordId → Catalog → Catalog × Option StorageError
delete_entity id c =
    let slots = map (clear_if id) c.active_slots in
    let (items, e) = delete_by_id entity_id id c.entities in
    (record c { active_slots = slots; entities = items }, e)

-- `iter().find_map(|id| *id)`.
unfoldable pub first_some {ℓ} : {A : Type ℓ} → List (Option A) → Option A
first_some [] = none
first_some (none ∷ slots) = first_some slots
first_some (some id ∷ slots) = some id

unfoldable pub active_entity_id : Catalog → Option RecordId
active_entity_id c = first_some c.active_slots

unfoldable pub place_entity_in_slot : RecordId → ℕ → Catalog → Catalog
unfolding clear_active_entity
place_entity_in_slot id slot c =
    let c' = clear_active_entity id c in
    record c' { active_slots = set c'.active_slots slot (some id) }

unfoldable pub clear_transient_active_slots : Catalog → Catalog
clear_transient_active_slots c = record c { active_slots = replicate max_figures none }

-- `iter().filter(|item| item.is_some()).count()`.
unfoldable pub count_some {ℓ} : {A : Type ℓ} → List (Option A) → ℕ
count_some [] = 0
count_some (none ∷ items) = count_some items
count_some (some item ∷ items) = count_some items + 1

unfoldable pub identity_count : Catalog → ℕ
identity_count c = count_some c.identities

unfoldable pub entity_count : Catalog → ℕ
entity_count c = count_some c.entities
