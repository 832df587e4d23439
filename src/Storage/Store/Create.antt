-- ===== src/Storage/Store/Create.antt =====
-- The operations of src/storage/mod.rs that make an identity or an entity. An operation returns
-- the record whose numbers and name go into its response.
use omniportal.Base.{
  ℕ, ◌%◌, ◌^◌, List, [], ◌∷◌, Bool, true, false, ◌||◌, not, Option, none, some, ltb, ◌==◌,
  if◌then◌else◌, length,
}
use omniportal.Base.Bytes.{saturating_add32}
use omniportal.Base.Result.{Result, ok, err}
use omniportal.Base.Ascii.{ascii}
use omniportal.Base.Exec.{Exec, pure, raise, lift, ◌>>=◌, ◌>>◌}
use omniportal.Domain.{GameLine, FigureKind, ImageFormat}
use omniportal.Storage.Records.{
  CharacterIdentity, Entity, BlobId, RecordId, FixedText, empty_text, EntityDataMode,
  static_generated, mutable_image, max_record_name_bytes, max_source_notes_bytes,
}
use omniportal.Storage.Table.{bad_request, not_found}
use omniportal.Storage.Catalog.{take_record_id, take_generation, identity, entity, upsert_identity}
use omniportal.Storage.Journal.{Store, record_kind_identity_upsert}
use omniportal.Storage.Journal.Crc.{crc32}
use omniportal.Storage.Forms.{query_param, parse_game_param}
use omniportal.Storage.Store.{
  Fault, failed, Action, append, append_blob, append_entity_record, change, find, take_next,
  with_store_mut, or_fail,
}
use omniportal.Storage.Store.Compact.{encoded_identity}
use omniportal.Storage.Store.Figures.{
  Figures, SkylandersCatalogEntry, InfinityCatalogEntry, initialize_new_entity_image,
  entity_kind_is_mutable, is_swapper_top, is_swapper_bottom,
}
use omniportal.Storage.Store.Params.{required, required_number, number_param, text}

abbrev pub name_text : List ℕ → Action FixedText
name_text name = lift (text max_record_name_bytes name)

abbrev pub notes_text : Option (List ℕ) → Action FixedText
notes_text none = pure (empty_text max_source_notes_bytes)
notes_text (some []) = pure (empty_text max_source_notes_bytes)
notes_text (some (b ∷ bs)) = lift (text max_source_notes_bytes (b ∷ bs))

unfoldable pub create_identity : List ℕ → ℕ → Option ℕ → Option (List ℕ) → Action CharacterIdentity
unfolding take_next encoded_identity append change
create_identity name character_id variant_id source = do
  id ← take_next take_record_id
  generation ← take_next take_generation
  fixed ← name_text name
  notes ← notes_text source
  i ← pure (record {
    id = id;
    game_line = GameLine.skylanders;
    name = fixed;
    character_id = character_id;
    variant_id = variant_id;
    kind = FigureKind.character;
    image_format = ImageFormat.skylanders_mifare1k;
    source_notes = notes;
    generation = generation;
    checksum = crc32 name;
  })
  payload ← encoded_identity i
  append record_kind_identity_upsert i.id i.generation payload
  change (upsert_identity i)
  pure i

unfoldable pub create_identity_from_query : List ℕ → Exec (Option Store) Fault CharacterIdentity
unfolding with_store_mut create_identity query_param
create_identity_from_query query = do
  name ← lift (required query (ascii "name"))
  character_id ← lift (required_number query (ascii "character_id"))
  with_store_mut (
      create_identity name character_id (number_param query (ascii "variant_id"))
        (query_param query (ascii "source")))

unfoldable pub create_swapper_combo : RecordId → RecordId → List ℕ → Action Entity
unfolding find is_swapper_top is_swapper_bottom take_next append_entity_record
create_swapper_combo top_id bottom_id name = do
  top ← find (entity top_id) not_found
  bottom ← find (entity bottom_id) not_found
  if not (is_swapper_top top) || not (is_swapper_bottom bottom)
      then raise (failed bad_request)
      else do
        id ← take_next take_record_id
        generation ← take_next take_generation
        fixed ← name_text name
        e ← pure (record {
          id = id;
          name = fixed;
          parent_identity_id = none;
          catalog_index = none;
          game_line = GameLine.skylanders;
          kind = FigureKind.swapper;
          data_mode = static_generated;
          character_id = top.character_id;
          variant_id = top.variant_id;
          blob_id = none;
          image_format = ImageFormat.skylanders_mifare1k;
          image_len = saturating_add32 top.image_len bottom.image_len;
          image_crc32 = 0;
          created_generation = generation;
          updated_generation = generation;
          swapper_top_entity_id = some top.id;
          swapper_bottom_entity_id = some bottom.id;
        })
        append_entity_record e
        pure e

unfoldable pub create_swapper_combo_from_params : List ℕ → Exec (Option Store) Fault Entity
unfolding with_store_mut create_swapper_combo
create_swapper_combo_from_params params = do
  top_id ← lift (required_number params (ascii "top_id"))
  bottom_id ← lift (required_number params (ascii "bottom_id"))
  name ← lift (required params (ascii "name"))
  with_store_mut (create_swapper_combo top_id bottom_id name)

-- What an entity with its own image has, next to its id, its generation and its name; the image is
-- described by its length and its checksum.
abbrev pub image_entity :
    RecordId → FixedText → ℕ → EntityDataMode → Option BlobId → List ℕ → Entity
image_entity id name generation data_mode blob_id image = record {
  id = id;
  name = name;
  parent_identity_id = none;
  catalog_index = none;
  game_line = GameLine.skylanders;
  kind = FigureKind.unknown;
  data_mode = data_mode;
  character_id = 0;
  variant_id = none;
  blob_id = blob_id;
  image_format = ImageFormat.skylanders_mifare1k;
  image_len = length image % 2 ^ 32;
  image_crc32 = crc32 image;
  created_generation = generation;
  updated_generation = generation;
  swapper_top_entity_id = none;
  swapper_bottom_entity_id = none;
}

-- The last steps of the operations that make an entity; `set` gives it its other fields.
abbrev pub finish :
    RecordId → List ℕ → EntityDataMode → Option BlobId → List ℕ → (Entity → Entity) → Action Entity
finish id name data_mode blob_id image set = do
  generation ← take_next take_generation
  fixed ← name_text name
  e ← pure (set (image_entity id fixed generation data_mode blob_id image))
  append_entity_record e
  pure e

-- `has_variant`: of an entry.
abbrev pub entry_variant : SkylandersCatalogEntry → Option ℕ
entry_variant entry = if entry.variant_id == 0 then none else some entry.variant_id

-- The fields that the identity or the entry gives.
abbrev pub of_identity : CharacterIdentity → Entity → Entity
of_identity i e = record e {
  parent_identity_id = some i.id;
  game_line = i.game_line;
  kind = i.kind;
  character_id = i.character_id;
  variant_id = i.variant_id;
  image_format = i.image_format;
}

abbrev pub of_skylanders_entry : SkylandersCatalogEntry → Entity → Entity
of_skylanders_entry entry e = record e {
  catalog_index = some entry.index;
  game_line = entry.game_line;
  kind = entry.kind;
  character_id = entry.character_id;
  variant_id = entry_variant entry;
}

abbrev pub of_infinity_entry : InfinityCatalogEntry → Entity → Entity
of_infinity_entry entry e = record e {
  catalog_index = some entry.index;
  game_line = GameLine.infinity;
  kind = entry.kind;
  character_id = entry.figure_number;
  image_format = ImageFormat.infinity_unknown;
}

-- The image of a figure that can change is kept as a blob.
abbrev pub kept_image : Bool → List ℕ → Action (EntityDataMode × Option BlobId)
kept_image true image = do blob_id ← append_blob image; pure (mutable_image, some blob_id)
kept_image false image = pure (static_generated, none)

abbrev pub catalog_index_of : Option ℕ → Option ℕ
catalog_index_of none = none
catalog_index_of (some value) = if ltb value (2 ^ 16) then some value else none

abbrev game_or_skylanders : Option GameLine → GameLine
game_or_skylanders none = GameLine.skylanders
game_or_skylanders (some game) = game

-- `parse_game_param(params)?.unwrap_or(GameLine::Skylanders)`.
abbrev pub game_param : List ℕ → Result {0, 0} Fault GameLine
game_param params = elim (parse_game_param params) [
  | ok game ↦ ok (game_or_skylanders game)
  | err e ↦ err (failed e)
]

module _ (figures : Figures) where
  unfoldable pub create_entity : RecordId → List ℕ → Action Entity
  unfolding find take_next append_blob append_entity_record initialize_new_entity_image
  create_entity identity_id name = do
    i ← find (identity identity_id) not_found
    id ← take_next take_record_id
    image ← pure (initialize_new_entity_image figures i.kind i.character_id i.variant_id id)
    blob_id ← append_blob image
    finish id name mutable_image (some blob_id) image (of_identity i)

  unfoldable pub create_entity_from_query : List ℕ → Exec (Option Store) Fault Entity
  unfolding with_store_mut create_entity
  create_entity_from_query query = do
    identity_id ← lift (required_number query (ascii "identity_id"))
    name ← lift (required query (ascii "name"))
    with_store_mut (create_entity identity_id name)

  unfoldable pub create_skylanders_entity : SkylandersCatalogEntry → List ℕ → Action Entity
  unfolding take_next append_blob append_entity_record initialize_new_entity_image
      entity_kind_is_mutable
  create_skylanders_entity entry name = do
    id ← take_next take_record_id
    image ←
        pure (
          initialize_new_entity_image figures entry.kind entry.character_id (entry_variant entry)
            id)
    kept ← kept_image (entity_kind_is_mutable entry.kind) image
    finish id name kept.0 kept.1 image (of_skylanders_entry entry)

  unfoldable pub create_infinity_entity : InfinityCatalogEntry → List ℕ → Action Entity
  unfolding take_next append_entity_record
  create_infinity_entity entry name = do
    id ← take_next take_record_id
    image ← pure (figures.initialize_infinity entry.figure_number id)
    finish id name static_generated none image (of_infinity_entry entry)

  abbrev pub from_catalog : GameLine → ℕ → List ℕ → Exec (Option Store) Fault Entity
  from_catalog GameLine.skylanders catalog_index name = do
    entry ← lift (or_fail (figures.skylanders_catalog_entry catalog_index) not_found)
    with_store_mut (create_skylanders_entity entry name)
  from_catalog GameLine.infinity catalog_index name = do
    entry ← lift (or_fail (figures.infinity_catalog_entry catalog_index) not_found)
    with_store_mut (create_infinity_entity entry name)

  unfoldable pub create_entity_from_catalog_params : List ℕ → Exec (Option Store) Fault Entity
  unfolding with_store_mut create_skylanders_entity create_infinity_entity parse_game_param
  create_entity_from_catalog_params params = do
    game ← lift (game_param params)
    catalog_index ←
        lift (or_fail (catalog_index_of (number_param params (ascii "catalog_index"))) bad_request)
    name ← lift (required params (ascii "name"))
    from_catalog game catalog_index name
