-- ===== src/Storage/Store/Images.antt =====
-- The images of src/storage/mod.rs: what an entity's figure holds, read, replaced and imported.
use omniportal.Base.{
  ℕ, ◌+◌, ◌%◌, ◌^◌, List, [], ◌∷◌, Bool, true, false, Option, none, some, ◌==◌, leb, min,
  if◌then◌else◌, length, slice, ◌&&◌, not, take, ◌++◌,
}
use omniportal.Base.Bytes.{add32, bytes_eq, from_le_bytes16}
use omniportal.Base.Result.{ok, err}
use omniportal.Base.Exec.{pure, raise, lift, gets, ◌>>=◌, ◌>>◌}
use omniportal.Domain.{GameLine}
use omniportal.Storage.Records.{Entity, RecordId, mutable_image, is_swapper_combo}
use omniportal.Storage.Table.{bad_request, not_found, corrupt}
use omniportal.Storage.Catalog.{entity, take_generation, max_figures}
use omniportal.Storage.Journal.{Store}
use omniportal.Storage.Journal.Crc.{crc32}
use omniportal.Storage.Store.{
  failed, Action, append_blob, append_entity_record, find, read_blob, take_next, or_fail,
}
use omniportal.Storage.Store.Compact.{ensure_journal_space, journal_record_len}
use omniportal.Storage.Store.Figures.{
  Figures, SkylandersCatalogEntry, InfinityCatalogEntry, generated_entity_image, is_skylanders,
}

abbrev pub infinity_image_bytes : ℕ
infinity_image_bytes = 320

abbrev pub same_game : GameLine → GameLine → Bool
same_game GameLine.skylanders GameLine.skylanders = true
same_game GameLine.infinity GameLine.infinity = true
same_game _ _ = false

pub record ImportedSkylandersImage : Type 0 where
  pub character_id : ℕ
  pub variant_id : Option ℕ
  pub catalog_entry : Option SkylandersCatalogEntry

pub record ImportedInfinityImage : Type 0 where
  pub tag_id : List ℕ
  pub figure_number : ℕ
  pub catalog_entry : Option InfinityCatalogEntry

abbrev pub nonzero : ℕ → Option ℕ
nonzero n = if n == 0 then none else some n

module _ (figures : Figures) where
  unfoldable pub read_entity_image : Entity → Action (List ℕ)
  unfolding is_swapper_combo read_blob generated_entity_image
  read_entity_image e = if is_swapper_combo e then raise (failed bad_request) else elim e.blob_id [
    | some blob_id ↦ read_blob blob_id
    | none ↦ pure (generated_entity_image figures e)
  ]

  unfoldable pub read_entity_blob_from_store : RecordId → Action (List ℕ)
  unfolding find read_entity_image
  read_entity_blob_from_store id = do e ← find (entity id) not_found; read_entity_image e

  -- `read_entity_image(…).map(|current| current == image).unwrap_or(false)`.
  unfoldable pub is_current : Entity → List ℕ → Store → Bool
  unfolding read_entity_image
  is_current e image s = elim (read_entity_image e s).1 [
    | ok current ↦ bytes_eq current image
    | err fault ↦ false
  ]

  unfoldable pub replace_entity_blob_in_store : RecordId → List ℕ → Action Unit
  unfolding find is_current ensure_journal_space append_blob take_next append_entity_record
  replace_entity_blob_in_store id image = do
    e ← find (entity id) not_found
    current ← gets (is_current e image)
    if current then pure tt else do
      ensure_journal_space (add32 (journal_record_len (length image)) (journal_record_len 128))
      blob_id ← append_blob image
      generation ← take_next take_generation
      append_entity_record (record e {
        blob_id = some blob_id;
        data_mode = mutable_image;
        image_len = length image % 2 ^ 32;
        image_crc32 = crc32 image;
        updated_generation = generation;
      })

  -- The three `?` on the parts of the image cannot fail on an image that is valid.
  unfoldable pub parse_skylanders : List ℕ → Option ImportedSkylandersImage
  unfolding from_le_bytes16
  parse_skylanders image =
      let character_id = from_le_bytes16 (slice 0x10 2 image) in
      let raw_variant_id = from_le_bytes16 (slice 0x1c 2 image) in
      if figures.validate_image image && leb 0x1e (length image)
      then some (record {
        character_id = character_id;
        variant_id = nonzero raw_variant_id;
        catalog_entry = figures.find_skylanders_catalog_entry character_id raw_variant_id;
      })
      else none

  unfoldable pub parse_infinity : List ℕ → Option ImportedInfinityImage
  parse_infinity image =
      let figure_number = figures.infinity_figure_number image in
      if length image == infinity_image_bytes
      then some (record {
        tag_id = slice 0 7 image;
        figure_number = figure_number;
        catalog_entry = figures.find_infinity_catalog_entry figure_number;
      })
      else none

  -- The two halves of a combination, in the slots `slot` and `slot + 1`.
  unfoldable pub combo_images : ℕ → ℕ → Entity → Action (List (ℕ × RecordId × List ℕ))
  unfolding find read_entity_image
  combo_images max_slots slot e = do
    top_id ← lift (or_fail e.swapper_top_entity_id corrupt)
    bottom_id ← lift (or_fail e.swapper_bottom_entity_id corrupt)
    if leb max_slots (slot + 1) then raise (failed bad_request) else do
      top ← find (entity top_id) corrupt
      bottom ← find (entity bottom_id) corrupt
      top_image ← read_entity_image top
      bottom_image ← read_entity_image bottom
      pure ((slot, top_id, top_image) ∷ (slot + 1, bottom_id, bottom_image) ∷ [])

  -- One round of the loop: what it pushes.
  unfoldable pub slot_images :
      GameLine → ℕ → ℕ → Option RecordId → Action (List (ℕ × RecordId × List ℕ))
  unfolding find read_entity_image combo_images
  slot_images game_line max_slots slot none = pure []
  slot_images game_line max_slots slot (some id) = do
    e ← find (entity id) not_found
    if not (same_game e.game_line game_line)
        then pure []
        else if is_skylanders game_line && is_swapper_combo e
        then combo_images max_slots slot e
        else do image ← read_entity_image e; pure ((slot, id, image) ∷ [])

  -- The loop over `count` slots from `slot` on; it does not change the slots, so that they are read
  -- before it.
  unfoldable pub images_from :
      GameLine → ℕ → ℕ → List (Option RecordId) → Action (List (ℕ × RecordId × List ℕ))
  unfolding slot_images
  images_from game_line max_slots slot [] = pure []
  images_from game_line max_slots slot (held ∷ slots) = do
    images ← slot_images game_line max_slots slot held
    rest ← images_from game_line max_slots (slot + 1) slots
    pure (images ++ rest)

  unfoldable pub active_slot_images_from_store :
      GameLine → ℕ → Action (List (ℕ × RecordId × List ℕ))
  unfolding images_from
  active_slot_images_from_store game_line max_slots = do
    slots ← gets (λ s. take (min max_figures max_slots) s.catalog.active_slots)
    images_from game_line max_slots 0 slots
