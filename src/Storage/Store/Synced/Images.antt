-- ===== src/Storage/Store/Synced/Images.antt =====
-- Room in the journal, a format, and images that are read or replaced: src/storage/mod.rs.
use omniportal.Base.{
  ℕ, ◌%◌, ◌^◌, ◌≡◌, List, Bool, true, false, Option, none, some, length, arith, leb, if◌then◌else◌,
}
use omniportal.Base.Exec.{pure, raise, gets, ◌>>=◌}
use omniportal.Domain.{GameLine, FigureKind}
use omniportal.Storage.Records.{Entity, RecordId, BlobId, is_swapper_combo, mutable_image}
use omniportal.Storage.Table.{StorageError, full, bad_request, not_found}
use omniportal.Storage.Table.Contents.{find_by_id-All}
use omniportal.Storage.Catalog.{new_catalog, take_generation, entity, entity_id}
use omniportal.Storage.Journal.{Store}
use omniportal.Storage.Journal.Crc.{crc32, crc32-lt}
use omniportal.Storage.Store.{failed, find, set_catalog, take_next, read_blob, append_blob}
use omniportal.Storage.Store.Compact.{
  erase_all, compact_store, compact_when, ensure_journal_space, format_storage, format_name,
}
use omniportal.Storage.Store.Figures.{
  Figures, FiguresFit, generated, generated_entity_image, initialize_new_entity_image,
  entity_kind_is_mutable,
}
use omniportal.Storage.Store.Images.{read_entity_image, replace_entity_blob_in_store}
use omniportal.Storage.Store.Synced.{StoredEntity}
use omniportal.Storage.Store.Synced.Blobs.{IsImage, Safe-append_format, Safe-append_blob}
use omniportal.Storage.Store.Synced.Compaction.{Safe-restart, Safe-read_blob}
use omniportal.Storage.Store.Synced.Rewrite.{Safe-compact_store}
use omniportal.Storage.Store.Synced.Rules.{
  Safe, Any, IsU32, Safe-bind, Safe-pure, Safe-raise, Safe-if, Safe-gets, Safe-assoc, Safe-find,
  Safe-take_generation,
}
use omniportal.Storage.Store.Synced.Writes.{Safe-append_entity_record}

Safe-compact_when : (b : Bool) → Safe (compact_when b) Any
Safe-compact_when true = Safe-compact_store
Safe-compact_when false = Safe-pure tt tt

Safe-gets-Any : {A : Type 0} → (f : Store → A) → Safe (gets f) Any
Safe-gets-Any f = Safe-gets f (λ s z. tt)

pub Safe-ensure_journal_space : (required : ℕ) → Safe (ensure_journal_space required) Any
unfolding ensure_journal_space
Safe-ensure_journal_space required = Safe-bind (gets _) _ (Safe-gets-Any _) (λ used _.
    Safe-bind (compact_when (leb 80 used)) _ (Safe-compact_when (leb 80 used)) (λ _ _.
      Safe-bind (gets _) _ (Safe-gets-Any _) (λ fits _. Safe-if fits (pure tt) _ (Safe-pure tt tt) (
        Safe-bind compact_store _ Safe-compact_store (λ _ _.
          Safe-bind (gets _) _ (Safe-gets-Any _) (λ fits _.
            Safe-if fits (pure tt) (raise (failed full)) (Safe-pure tt tt)
              (Safe-raise (failed full))))))))

pub Safe-format_storage : Safe format_storage Any
unfolding format_storage new_catalog
Safe-format_storage =
    Safe-assoc Any erase_all (λ _. set_catalog (λ c. new_catalog)) _
      (Safe-bind (erase_all >>= _) _ (Safe-restart 1 1 1 (omega arith) (omega arith) (omega arith))
        (λ _ _.
          Safe-bind (take_next take_generation) _ Safe-take_generation
            (λ generation g. Safe-append_format generation format_name g (omega arith))))

pub Safe-find-entity :
    (id : RecordId) (e : StorageError)
    → Safe (find (entity id) e) (λ found. StoredEntity found × (found.id ≡ id))
unfolding entity
Safe-find-entity id e =
    Safe-find (entity id) e
      (λ c found v h. find_by_id-All entity_id StoredEntity id c.entities found v.entities h)

-- The figures' images fit on the flash.
module _ (figures : Figures) (fit : FiguresFit figures) where
  pub generated-IsImage : (e : Entity) → IsImage (generated_entity_image figures e)
  unfolding generated_entity_image generated
  generated-IsImage e = of_game e.game_line
    where
      of_game : (g : GameLine) → IsImage (generated figures g e)
      of_game GameLine.skylanders =
          omega (arith, fit.length-initialize e.character_id e.variant_id e.id)
      of_game GameLine.infinity = omega (arith, fit.length-initialize_infinity e.character_id e.id)

  pub initialized-IsImage :
      (kind : FigureKind) (character_id : ℕ) (variant_id : Option ℕ) (entity_id : ℕ)
      → IsImage (initialize_new_entity_image figures kind character_id variant_id entity_id)
  unfolding initialize_new_entity_image
  initialized-IsImage kind character_id variant_id entity_id = either (entity_kind_is_mutable kind)
    where
      either :
          (b : Bool)
          → IsImage (
              if b
              then figures.initialize_mutable_skylanders character_id variant_id entity_id kind
              else figures.initialize_skylanders character_id variant_id entity_id)
      either true =
          omega (arith, fit.length-initialize_mutable character_id variant_id entity_id kind)
      either false = omega (arith, fit.length-initialize character_id variant_id entity_id)

  pub Safe-read_entity_image : (e : Entity) → Safe (read_entity_image figures e) IsImage
  unfolding read_entity_image
  Safe-read_entity_image e =
      Safe-if (is_swapper_combo e) (raise (failed bad_request)) _ (Safe-raise (failed bad_request))
        (image_of e.blob_id)
    where
      image_of :
          (o : Option BlobId)
          → Safe
              (elim o [ some id ↦ read_blob id | none ↦ pure (generated_entity_image figures e) ])
              IsImage
      image_of none = Safe-pure _ (generated-IsImage e)
      image_of (some id) = Safe-read_blob id

  -- An entity with another image.
  imaged :
      (e : Entity) (image : List ℕ) (id generation : ℕ)
      → StoredEntity e
      → IsU32 id
      → IsU32 generation
      → StoredEntity (record e {
        blob_id = some id;
        data_mode = mutable_image;
        image_len = length image % 2 ^ 32;
        image_crc32 = crc32 image;
        updated_generation = generation;
      })
  imaged e image id generation (text, v, id_lt) i g = (
    text,
    record {
      name_made = v.name_made;
      name_utf8 = v.name_utf8;
      parent_fits = v.parent_fits;
      catalog_fits = v.catalog_fits;
      variant_fits = v.variant_fits;
      top_fits = v.top_fits;
      bottom_fits = v.bottom_fits;
      blob_matches = i;
      character_fits = v.character_fits;
      image_len_fits = omega arith;
      image_crc_fits = crc32-lt image;
      created_fits = v.created_fits;
      updated_fits = g;
    },
    id_lt,
  )

  pub Safe-replace_entity_blob :
      (id : RecordId) (image : List ℕ)
      → IsImage image
      → Safe (replace_entity_blob_in_store figures id image) Any
  unfolding replace_entity_blob_in_store
  Safe-replace_entity_blob id image n =
      Safe-bind (find (entity id) not_found) _ (Safe-find-entity id not_found) (λ e h.
        Safe-bind (gets _) _ (Safe-gets-Any _) (λ current _.
          Safe-if current (pure tt) _ (Safe-pure tt tt) (
            Safe-bind (ensure_journal_space _) _ (Safe-ensure_journal_space _) (λ _ _.
              Safe-bind (append_blob image) _ (Safe-append_blob image n) (λ blob_id i.
                Safe-bind (take_next take_generation) _ Safe-take_generation (λ generation g.
                  Safe-append_entity_record _ (imaged e image blob_id generation h.0 i g)))))))
