-- ===== src/Storage/Store/Compact.antt =====
-- `compact_store`, `ensure_journal_space` and `format_storage` of src/storage/mod.rs.
use omniportal.Base.{
  ℕ, ◌+◌, ◌/◌, ◌%◌, ◌^◌, List, [], ◌∷◌, Bool, true, false, ◌||◌, Option, none, some, leb, ◌==◌,
  if◌then◌else◌, length,
}
use omniportal.Base.Bytes.{add32, sub32, saturating_mul32}
use omniportal.Base.Result.{ok, err}
use omniportal.Base.Ascii.{ascii}
use omniportal.Base.Exec.{pure, raise, gets, ◌>>=◌, ◌>>◌}
use omniportal.Storage.Records.{
  CharacterIdentity, Entity, StoredBlob, BlobId, RecordId, journal_record_header_bytes,
  proactive_compact_used_percent,
}
use omniportal.Storage.Table.{full, flash_error}
use omniportal.Storage.Catalog.{
  Catalog, new_catalog, take_generation, entity, upsert_blob, upsert_identity, upsert_entity,
}
use omniportal.Storage.Flash.{erase, storage_flash_offset, storage_flash_bytes}
use omniportal.Storage.Journal.Crc.{align4}
use omniportal.Storage.Journal.Config.{encode_config}
use omniportal.Storage.Journal.Identity.{encode_identity}
use omniportal.Storage.Journal.EntityRecord.{encode_entity}
use omniportal.Storage.Journal.{
  Store, record_kind_blob_data, record_kind_entity_upsert, record_kind_identity_upsert,
  record_kind_config_upsert, record_kind_format_marker,
}
use omniportal.Storage.Store.{
  failed, panicked, Action, append, change, take_next, read_blob, stored_blob, set_catalog,
}

abbrev pub format_name : List ℕ
format_name = ascii "omniportal-storage-v1"

abbrev is_id : ℕ → Option ℕ → Bool
is_id id none = false
is_id id (some other) = other == id

-- `is_some_and(|half| half.blob_id == Some(blob_id))`, of the entity that `half` names.
unfoldable pub half_uses_blob : Catalog → BlobId → Option RecordId → Bool
half_uses_blob c blob_id none = false
half_uses_blob c blob_id (some half) = elim (entity half c) [
  | none ↦ false
  | some e ↦ is_id blob_id e.blob_id
]

unfoldable pub entity_uses_blob : Catalog → Entity → BlobId → Bool
unfolding half_uses_blob
entity_uses_blob c e blob_id =
    is_id blob_id e.blob_id
    || half_uses_blob c blob_id e.swapper_top_entity_id
    || half_uses_blob c blob_id e.swapper_bottom_entity_id

-- `entities.iter().flatten().any(…)`.
unfoldable pub any_uses_blob : Catalog → BlobId → List (Option Entity) → Bool
unfolding entity_uses_blob
any_uses_blob c blob_id [] = false
any_uses_blob c blob_id (none ∷ entities) = any_uses_blob c blob_id entities
any_uses_blob c blob_id (some e ∷ entities) =
    entity_uses_blob c e blob_id || any_uses_blob c blob_id entities

-- The ids of the blobs that an entity still uses.
unfoldable pub live_blobs : Catalog → List (Option StoredBlob) → List BlobId
unfolding any_uses_blob
live_blobs c [] = []
live_blobs c (none ∷ blobs) = live_blobs c blobs
live_blobs c (some b ∷ blobs) =
    let rest = live_blobs c blobs in if any_uses_blob c b.id c.entities then b.id ∷ rest else rest

unfoldable pub read_blobs : List BlobId → Action (List (BlobId × List ℕ))
unfolding read_blob
read_blobs [] = pure []
read_blobs (id ∷ ids) = do image ← read_blob id; rest ← read_blobs ids; pure ((id, image) ∷ rest)

-- Everything is erased.
unfoldable pub erase_all : Action Unit
erase_all s =
    elim (erase storage_flash_offset (storage_flash_offset + storage_flash_bytes) s.flash) [
      | none ↦ (s, err (failed flash_error))
      | some flash ↦ (record s { flash = flash }, ok tt)
    ]

-- The loops over the blobs, the identities and the entities that are kept; each is written with the
-- next generation, and the generation behind the last one is returned.
unfoldable pub write_blobs : List (BlobId × List ℕ) → ℕ → Action ℕ
unfolding append change
write_blobs [] generation = pure generation
write_blobs ((id, image) ∷ blobs) generation = do
  append record_kind_blob_data id generation image
  offset ← gets (λ s.
      add32
        (sub32 s.catalog.write_offset
          (align4 (add32 journal_record_header_bytes (length image % 2 ^ 32))))
        journal_record_header_bytes)
  change (upsert_blob (stored_blob id offset image generation))
  write_blobs blobs (add32 generation 1)

-- `&encode_identity(…)`, which may panic.
unfoldable pub encoded_identity : CharacterIdentity → Action (List ℕ)
encoded_identity i s = elim (encode_identity i) [
  | none ↦ (s, err panicked)
  | some payload ↦ (s, ok payload)
]

unfoldable pub write_identities : List (Option CharacterIdentity) → ℕ → Action ℕ
unfolding append change encoded_identity
write_identities [] generation = pure generation
write_identities (none ∷ identities) generation = write_identities identities generation
write_identities (some i ∷ identities) generation =
    let identity = record i { generation = generation } in
    do
      payload ← encoded_identity identity
      append record_kind_identity_upsert identity.id generation payload
      change (upsert_identity identity)
      write_identities identities (add32 generation 1)

unfoldable pub write_entities : List (Option Entity) → ℕ → Action ℕ
unfolding append change
write_entities [] generation = pure generation
write_entities (none ∷ entities) generation = write_entities entities generation
write_entities (some e ∷ entities) generation =
    let entity = record e { updated_generation = generation } in
    do
      append record_kind_entity_upsert entity.id generation (encode_entity entity)
      change (upsert_entity entity)
      write_entities entities (add32 generation 1)

-- What stands in the catalog before the erasure is written again from `old`.
unfoldable pub rewrite : Catalog → List (BlobId × List ℕ) → Action Unit
unfolding append change write_blobs write_identities write_entities set_catalog
rewrite old blobs = do
  set_catalog (λ c. record new_catalog {
    next_record_id = old.next_record_id;
    next_blob_id = old.next_blob_id;
    next_generation = old.next_generation;
  })
  append record_kind_format_marker 0 old.next_generation format_name
  generation ← write_blobs blobs (add32 old.next_generation 1)
  generation ← write_identities old.identities generation
  generation ← write_entities old.entities generation
  set_catalog (λ c. record c {
    active_slots = old.active_slots;
    usb_mode = old.usb_mode;
    active_config_generation = generation;
  })
  append record_kind_config_upsert 0 generation (encode_config old.active_slots old.usb_mode)
  set_catalog (λ c. record c { next_generation = add32 generation 1 })

unfoldable pub compact_store : Action Unit
unfolding live_blobs read_blobs erase_all rewrite
compact_store = do
  ids ← gets (λ s. live_blobs s.catalog s.catalog.blobs)
  blobs ← read_blobs ids
  old ← gets (λ s. s.catalog)
  erase_all
  rewrite old blobs

unfoldable pub journal_record_len : ℕ → ℕ
journal_record_len payload_len = align4 (add32 journal_record_header_bytes (payload_len % 2 ^ 32))

unfoldable pub journal_usage_percent : ℕ → ℕ
journal_usage_percent write_offset = saturating_mul32 write_offset 100 / storage_flash_bytes

abbrev has_room : ℕ → Store → Bool
has_room required s = leb (add32 s.catalog.write_offset required) storage_flash_bytes

abbrev pub compact_when : Bool → Action Unit
compact_when true = compact_store
compact_when false = pure tt

unfoldable pub ensure_journal_space : ℕ → Action Unit
unfolding compact_store journal_usage_percent
ensure_journal_space required = do
  used ← gets (λ s. journal_usage_percent s.catalog.write_offset)
  compact_when (leb proactive_compact_used_percent used)
  fits ← gets (has_room required)
  if fits then pure tt else do
    compact_store
    fits ← gets (has_room required)
    if fits then pure tt else raise (failed full)

unfoldable pub format_storage : Action Unit
unfolding erase_all append take_next set_catalog
format_storage = do
  erase_all
  set_catalog (λ c. new_catalog)
  generation ← take_next take_generation
  append record_kind_format_marker 0 generation format_name
