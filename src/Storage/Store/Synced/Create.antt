-- ===== src/Storage/Store/Synced/Create.antt =====
-- Entities that are made keep a store in step with its flash: src/storage/mod.rs.
use omniportal.Base.{
  ℕ, ◌%◌, ◌^◌, ◌<◌, ◌≡◌, refl, List, Bool, true, false, Option, none, some, length, arith,
  if◌then◌else◌, ◌==◌,
}
use omniportal.Base.Result.{Result, ok, err}
use omniportal.Base.Exec.{pure, lift}
use omniportal.Base.Utf8.{is_utf8}
use omniportal.Storage.Records.{
  Entity, EntityDataMode, static_generated, mutable_image, StorageRecordError, RecordId, BlobId,
  FixedText, from_str,
}
use omniportal.Storage.Table.{StorageError, bad_request, not_found}
use omniportal.Storage.Table.Contents.{find_by_id-All}
use omniportal.Storage.Catalog.{identity, identity_id, take_record_id, take_generation}
use omniportal.Storage.Journal.Crc.{crc32, crc32-lt}
use omniportal.Storage.Journal.EntityRecord.RoundTrip.{BlobMatches}
use omniportal.Storage.Journal.Fields.{Fits}
use omniportal.Storage.Store.{Fault, failed, find, take_next, append_blob, append_entity_record}
use omniportal.Storage.Store.Create.{
  name_text, of_identity, of_skylanders_entry, of_infinity_entry, image_entity, finish, kept_image,
  entry_variant, create_entity, create_skylanders_entity, create_infinity_entity,
}
use omniportal.Storage.Store.Figures.{
  Figures, FiguresFit, SkylandersCatalogEntry, SkylandersEntryFits, InfinityCatalogEntry,
  InfinityEntryFits,
}
use omniportal.Storage.Store.Params.{text}
use omniportal.Storage.Store.Synced.{StoredEntity, StoredIdentity}
use omniportal.Storage.Store.Synced.Blobs.{IsImage, Safe-append_blob}
use omniportal.Storage.Store.Synced.Images.{initialized-IsImage}
use omniportal.Storage.Store.Synced.Rules.{
  Safe, Any, IsU32, Safe-bind, Safe-pure, Safe-find, Safe-lift, Safe-take_record_id,
  Safe-take_generation,
}
use omniportal.Storage.Store.Synced.Writes.{Safe-append_entity_record}

-- A text that was made from `raw`.
abbrev pub MadeFrom : ℕ → List ℕ → FixedText → Type 0
MadeFrom n raw t = from_str n raw ≡ ok t

pub Safe-text : (n : ℕ) (raw : List ℕ) → Safe (lift (text n raw)) (MadeFrom n raw)
Safe-text n raw = Safe-lift (text n raw) (made (from_str n raw))
  where
    made :
        (r : Result {0, 0} StorageRecordError FixedText) (t : FixedText)
        → elim r as (λ _. Result {0, 0} Fault FixedText) [
          | ok t ↦ ok t
          | err e ↦ err (failed bad_request)
        ]
          ≡ ok t
        → r ≡ ok t
    made (ok u) t h = ground arith
    made (err e) t h = absurd (ground arith)

pub Safe-find-identity :
    (id : RecordId) (e : StorageError)
    → Safe (find (identity id) e) (λ found. StoredIdentity found × (found.id ≡ id))
unfolding identity
Safe-find-identity id e =
    Safe-find (identity id) e (λ c found v h.
      find_by_id-All identity_id StoredIdentity id c.identities found v.identities h)

-- An entity that is no combination.
pub made_entity :
    (name : List ℕ) (e : Entity)
    → MadeFrom 64 name e.name
    → is_utf8 name ≡ true
    → Fits (2 ^ 32) e.parent_identity_id
    → Fits (2 ^ 16) e.catalog_index
    → Fits (2 ^ 32) e.variant_id
    → e.character_id < 2 ^ 32
    → IsU32 e.id
    → e.swapper_top_entity_id ≡ none
    → e.swapper_bottom_entity_id ≡ none
    → BlobMatches e.data_mode e.blob_id
    → (e.image_len < 2 ^ 32) × (e.image_crc32 < 2 ^ 32)
    → IsU32 e.created_generation × IsU32 e.updated_generation
    → StoredEntity e
made_entity name e made utf8 parent index variant character id top bottom blob image generation = (
  name,
  record {
    name_made = made;
    name_utf8 = utf8;
    parent_fits = parent;
    catalog_fits = index;
    variant_fits = variant;
    top_fits = rw top tt;
    bottom_fits = rw bottom tt;
    blob_matches = blob;
    character_fits = character;
    image_len_fits = image.0;
    image_crc_fits = image.1;
    created_fits = generation.0;
    updated_fits = generation.1;
  },
  id,
)

-- The last steps; `set` is the operation's choice of the fields that the image does not decide.
module _ (id : RecordId) (name : List ℕ) (data_mode : EntityDataMode) (blob_id : Option BlobId)
    (image : List ℕ) (set : Entity → Entity) where
  -- With `set`, the entity can be stored.
  abbrev pub Completes : Type 0
  Completes =
      (fixed : FixedText) (generation : ℕ)
      → MadeFrom 64 name fixed
      → IsU32 generation
      → StoredEntity (set (image_entity id fixed generation data_mode blob_id image))

  pub Safe-finish : Completes → Safe (finish id name data_mode blob_id image set) Any
  Safe-finish stored = Safe-bind (take_next take_generation) _ Safe-take_generation (λ generation g.
      Safe-bind (name_text name) _ (Safe-text 64 name) (λ fixed h.
        Safe-bind (pure _) _ (Safe-pure {Q = StoredEntity} _ (stored fixed generation h g)) (λ e v.
          Safe-bind (append_entity_record e) _ (Safe-append_entity_record e v)
            (λ _ _. Safe-pure e tt))))

pub image_numbers : (image : List ℕ) → (length image % 2 ^ 32 < 2 ^ 32) × (crc32 image < 2 ^ 32)
image_numbers image = (omega arith, crc32-lt image)

Fits-entry_variant :
    (entry : SkylandersCatalogEntry)
    → SkylandersEntryFits entry
    → Fits (2 ^ 32) (entry_variant entry)
Fits-entry_variant entry fits = nonzero (entry.variant_id == 0)
  where
    nonzero : (b : Bool) → Fits (2 ^ 32) (if b then none else some entry.variant_id)
    nonzero true = tt
    nonzero false = fits.variant_lt

module _ (figures : Figures) (fit : FiguresFit figures) (name : List ℕ)
    (utf8 : is_utf8 name ≡ true) where
  pub Safe-create_entity :
      (identity_id : RecordId) → Safe (create_entity figures identity_id name) Any
  unfolding create_entity
  Safe-create_entity identity_id =
      Safe-bind (find (identity identity_id) not_found) _ (Safe-find-identity identity_id not_found)
        (λ i stored. Safe-bind (take_next take_record_id) _ Safe-take_record_id (λ id id_lt.
          Safe-bind (pure _) _
            (Safe-pure {Q = IsImage} _
              (initialized-IsImage figures fit i.kind i.character_id i.variant_id id))
            (λ image n. Safe-bind (append_blob image) _ (Safe-append_blob image n) (λ blob_id b.
              Safe-finish id name mutable_image (some blob_id) image (of_identity i)
                (λ fixed generation h g.
                  made_entity name _ h utf8 stored.0.3 tt stored.0.2.variant_fits
                    stored.0.2.character_fits id_lt refl refl b (image_numbers image) (g, g))))))

  -- What kept the image: a blob for what can change, and nothing otherwise.
  abbrev IsKept : EntityDataMode × Option BlobId → Type 0
  IsKept kept = BlobMatches kept.0 kept.1

  Safe-kept_image : (b : Bool) (image : List ℕ) → IsImage image → Safe (kept_image b image) IsKept
  Safe-kept_image true image n =
      Safe-bind (append_blob image) _ (Safe-append_blob image n) (λ blob_id i. Safe-pure _ i)
  Safe-kept_image false image n = Safe-pure _ tt

  pub Safe-create_skylanders :
      (entry : SkylandersCatalogEntry)
      → SkylandersEntryFits entry
      → Safe (create_skylanders_entity figures entry name) Any
  unfolding create_skylanders_entity
  Safe-create_skylanders entry fits =
      Safe-bind (take_next take_record_id) _ Safe-take_record_id (λ id id_lt.
        Safe-bind (pure _) _
          (Safe-pure {Q = IsImage} _ (
            initialized-IsImage figures fit entry.kind entry.character_id (entry_variant entry) id))
          (λ image n. Safe-bind (kept_image _ image) _ (Safe-kept_image _ image n) (λ kept k.
            Safe-finish id name kept.0 kept.1 image (of_skylanders_entry entry)
              (λ fixed generation h g.
                made_entity name _ h utf8 tt fits.index_lt (Fits-entry_variant entry fits)
                  fits.character_lt id_lt refl refl k (image_numbers image) (g, g)))))

  pub Safe-create_infinity :
      (entry : InfinityCatalogEntry)
      → InfinityEntryFits entry
      → Safe (create_infinity_entity figures entry name) Any
  unfolding create_infinity_entity
  Safe-create_infinity entry fits =
      Safe-bind (take_next take_record_id) _ Safe-take_record_id (λ id id_lt.
        Safe-bind (pure _) _ (Safe-pure {Q = Any} _ tt) (λ image n.
          Safe-finish id name static_generated none image (of_infinity_entry entry)
            (λ fixed generation h g.
              made_entity name _ h utf8 tt fits.index_lt tt fits.figure_lt id_lt refl refl tt
                (image_numbers image) (g, g))))
