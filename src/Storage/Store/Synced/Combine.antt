-- ===== src/Storage/Store/Synced/Combine.antt =====
-- Combinations, uploads and clones keep a store in step with its flash: src/storage/mod.rs.
use omniportal.Base.{ℕ, ◌^◌, ◌<◌, ◌≡◌, refl, List, true, not, ◌||◌, Option, none, some, arith}
use omniportal.Base.Exec.{pure, gets}
use omniportal.Base.Utf8.{is_utf8}
use omniportal.Domain.{ImageFormat}
use omniportal.Storage.Records.{CharacterIdentity, Entity, mutable_image, RecordId}
use omniportal.Storage.Table.{bad_request, not_found}
use omniportal.Storage.Table.Contents.{find_by_id-All}
use omniportal.Storage.Catalog.{identity, identity_id, entity, take_record_id, take_generation}
use omniportal.Storage.Journal.{Store}
use omniportal.Storage.Journal.Fields.{Fits}
use omniportal.Storage.Store.{failed, find, take_next, append_blob, append_entity_record}
use omniportal.Storage.Store.Create.{name_text, create_swapper_combo}
use omniportal.Storage.Store.Figures.{Figures, FiguresFit, is_swapper_top, is_swapper_bottom}
use omniportal.Storage.Store.Images.{
  ImportedSkylandersImage, ImportedInfinityImage, read_entity_image,
}
use omniportal.Storage.Store.Import.{
  identity_of, id_of, entry_index, infinity_index, number_of, upload_skylanders, upload_infinity,
  clone_entity, rekeyed, of_source, of_skylanders_image, of_infinity_image, matches_identity,
}
use omniportal.Storage.Store.Synced.{Synced, StoredEntity, StoredIdentity}
use omniportal.Storage.Store.Synced.Blobs.{IsImage, Safe-append_blob}
use omniportal.Storage.Store.Synced.Create.{Safe-text, made_entity, image_numbers, Safe-finish}
use omniportal.Storage.Store.Synced.Images.{Safe-find-entity, Safe-read_entity_image}
use omniportal.Storage.Store.Synced.Rules.{
  Safe, Any, Safe-bind, Safe-pure, Safe-raise, Safe-if, Safe-gets, Safe-take_record_id,
  Safe-take_generation,
}
use omniportal.Storage.Store.Synced.Writes.{Safe-append_entity_record}

-- What an image says fits the records.
pub record SkylandersImageFits (imported : ImportedSkylandersImage) : Type 0 where
  pub index_fits : Fits (2 ^ 16) (entry_index imported.catalog_entry)
  pub character_fits : imported.character_id < 2 ^ 32
  pub variant_fits : Fits (2 ^ 32) imported.variant_id

pub record InfinityImageFits (imported : ImportedInfinityImage) : Type 0 where
  pub index_fits : Fits (2 ^ 16) (infinity_index imported.catalog_entry)
  pub figure_fits : imported.figure_number < 2 ^ 32

-- The identity that an upload names, if it is there.
abbrev FoundIdentity : Option CharacterIdentity → Type 0
FoundIdentity none = Unit
FoundIdentity (some i) = StoredIdentity i

found_identity :
    (identity_id : Option RecordId) (s : Store)
    → Synced s
    → FoundIdentity (identity_of identity_id s.catalog)
unfolding identity
found_identity none s z = tt
found_identity (some id) s z =
    found (identity id s.catalog)
      (λ i. find_by_id-All identity_id StoredIdentity id s.catalog.identities i z.valid.identities)
  where
    found :
        (o : Option CharacterIdentity)
        → ((i : CharacterIdentity) → o ≡ some i → StoredIdentity i × (i.id ≡ id))
        → FoundIdentity o
    found none k = tt
    found (some i) k = (k i refl).0

Fits-id_of : (o : Option CharacterIdentity) → FoundIdentity o → Fits (2 ^ 32) (id_of o)
Fits-id_of none h = tt
Fits-id_of (some i) h = h.3

number_of-lt :
    (o : Option CharacterIdentity) (n : ℕ) → FoundIdentity o → n < 2 ^ 32 → number_of o n < 2 ^ 32
number_of-lt none n h lt = lt
number_of-lt (some i) n h lt = h.2.character_fits

module _ (name : List ℕ) (utf8 : is_utf8 name ≡ true) where
  pub Safe-create_swapper_combo :
      (top_id bottom_id : RecordId) → Safe (create_swapper_combo top_id bottom_id name) Any
  unfolding create_swapper_combo
  Safe-create_swapper_combo top_id bottom_id =
      Safe-bind (find (entity top_id) not_found) _ (Safe-find-entity top_id not_found) (λ top t.
        Safe-bind (find (entity bottom_id) not_found) _ (Safe-find-entity bottom_id not_found)
          (λ bottom b.
            Safe-if (not (is_swapper_top top) || not (is_swapper_bottom bottom)) _ _
              (Safe-raise (failed bad_request))
              (Safe-bind (take_next take_record_id) _ Safe-take_record_id (λ id id_lt.
                Safe-bind (take_next take_generation) _ Safe-take_generation (λ generation g.
                  Safe-bind (name_text name) _ (Safe-text 64 name) (λ fixed h.
                    Safe-bind (pure _) _
                      (Safe-pure {Q = StoredEntity} _ (
                        name,
                        record {
                          name_made = h;
                          name_utf8 = utf8;
                          parent_fits = tt;
                          catalog_fits = tt;
                          variant_fits = t.0.1.variant_fits;
                          top_fits = t.0.2;
                          bottom_fits = b.0.2;
                          blob_matches = tt;
                          character_fits = t.0.1.character_fits;
                          image_len_fits = omega arith;
                          image_crc_fits = omega arith;
                          created_fits = g;
                          updated_fits = g;
                        },
                        id_lt,
                      ))
                      (λ e v.
                        Safe-bind (append_entity_record e) _ (Safe-append_entity_record e v)
                          (λ _ _. Safe-pure e tt))))))))

  pub Safe-upload_skylanders :
      (identity_id : Option RecordId) (imported : ImportedSkylandersImage) (image : List ℕ)
      → SkylandersImageFits imported
      → IsImage image
      → Safe (upload_skylanders name identity_id imported image) Any
  unfolding upload_skylanders
  Safe-upload_skylanders identity_id imported image fits n =
      Safe-bind (gets _) _ (Safe-gets {Q = FoundIdentity} _ (found_identity identity_id))
        (λ i found.
          Safe-if (not (matches_identity imported i)) _ _ (Safe-raise (failed bad_request)) (
            Safe-bind (append_blob image) _ (Safe-append_blob image n) (λ blob_id b.
              Safe-bind (take_next take_record_id) _ Safe-take_record_id (λ id id_lt.
                Safe-finish id name mutable_image (some blob_id) image
                  (of_skylanders_image imported i)
                  (λ fixed generation h g.
                    made_entity name _ h utf8 (Fits-id_of i found) fits.index_fits fits.variant_fits
                      fits.character_fits id_lt refl refl b (image_numbers image) (g, g))))))

  pub Safe-upload_infinity :
      (identity_id : Option RecordId) (imported : ImportedInfinityImage) (image : List ℕ)
      → InfinityImageFits imported
      → IsImage image
      → Safe (upload_infinity name identity_id imported image) Any
  unfolding upload_infinity
  Safe-upload_infinity identity_id imported image fits n =
      Safe-bind (gets _) _ (Safe-gets {Q = FoundIdentity} _ (found_identity identity_id))
        (λ i found. Safe-bind (append_blob image) _ (Safe-append_blob image n) (λ blob_id b.
          Safe-bind (take_next take_record_id) _ Safe-take_record_id (λ id id_lt.
            Safe-finish id name mutable_image (some blob_id) image (of_infinity_image imported i)
              (λ fixed generation h g.
                made_entity name _ h utf8 (Fits-id_of i found) fits.index_fits tt
                  (number_of-lt i imported.figure_number found fits.figure_fits) id_lt refl refl b
                  (image_numbers image) (g, g)))))

  module _ (figures : Figures) (fit : FiguresFit figures) where
    rekeyed-IsImage :
        (format : ImageFormat) (image : List ℕ) (source : Entity) (id : RecordId)
        → IsImage image
        → IsImage (rekeyed figures format image source id)
    rekeyed-IsImage ImageFormat.skylanders_mifare1k image source id n =
        omega (arith, fit.length-rekey image source.character_id source.variant_id id)
    rekeyed-IsImage ImageFormat.infinity_unknown image source id n = n

    pub Safe-clone_entity : (source_id : RecordId) → Safe (clone_entity figures source_id name) Any
    unfolding clone_entity
    Safe-clone_entity source_id =
        Safe-bind (find (entity source_id) not_found) _ (Safe-find-entity source_id not_found)
          (λ source v. Safe-bind (take_next take_record_id) _ Safe-take_record_id (λ id id_lt.
            Safe-bind (read_entity_image figures source) _
              (Safe-read_entity_image figures fit source)
              (λ read n.
                Safe-bind (pure _) _
                  (Safe-pure {Q = IsImage} _ (rekeyed-IsImage source.image_format read source id n))
                  (λ image n'.
                    Safe-bind (append_blob image) _ (Safe-append_blob image n') (λ blob_id b.
                      Safe-finish id name mutable_image (some blob_id) image (of_source source)
                        (λ fixed generation h g.
                          made_entity name _ h utf8 v.0.1.parent_fits v.0.1.catalog_fits
                            v.0.1.variant_fits v.0.1.character_fits id_lt refl refl b
                            (image_numbers image) (g, g)))))))
