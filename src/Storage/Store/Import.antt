-- ===== src/Storage/Store/Import.antt =====
-- The operations of src/storage/mod.rs that make an entity from an image: an upload, or a clone.
use omniportal.Base.{ℕ, List, Bool, true, false, ◌&&◌, not, Option, none, some, ◌==◌, if◌then◌else◌}
use omniportal.Base.Ascii.{ascii}
use omniportal.Base.Exec.{Exec, pure, raise, lift, gets, ◌>>=◌}
use omniportal.Domain.{GameLine, FigureKind, ImageFormat}
use omniportal.Storage.Records.{CharacterIdentity, Entity, RecordId, mutable_image}
use omniportal.Storage.Table.{bad_request, not_found}
use omniportal.Storage.Catalog.{Catalog, take_record_id, identity, entity}
use omniportal.Storage.Journal.{Store}
use omniportal.Storage.Forms.{query_param, decode_hex_bytes}
use omniportal.Storage.Store.{
  Fault, failed, Action, append_blob, append_entity_record, find, take_next, with_store_mut,
  or_fail,
}
use omniportal.Storage.Store.Create.{finish, game_param}
use omniportal.Storage.Store.Figures.{Figures, SkylandersCatalogEntry, InfinityCatalogEntry}
use omniportal.Storage.Store.Images.{
  ImportedSkylandersImage, ImportedInfinityImage, parse_skylanders, parse_infinity,
  read_entity_image,
}
use omniportal.Storage.Store.Params.{required, number_param, or_else, as_u32}

-- `identity_id.and_then(|id| store.catalog.identity(RecordId(id)))`.
abbrev pub identity_of : Option RecordId → Catalog → Option CharacterIdentity
identity_of none c = none
identity_of (some id) c = identity id c

abbrev same_option : Option ℕ → Option ℕ → Bool
same_option none none = true
same_option (some a) (some b) = a == b
same_option _ _ = false

abbrev is_mifare1k : ImageFormat → Bool
is_mifare1k ImageFormat.skylanders_mifare1k = true
is_mifare1k ImageFormat.infinity_unknown = false

-- An identity that is named has to be of the figure in the image.
unfoldable pub matches_identity : ImportedSkylandersImage → Option CharacterIdentity → Bool
matches_identity imported none = true
matches_identity imported (some i) =
    (i.character_id == imported.character_id)
    && same_option i.variant_id imported.variant_id
    && is_mifare1k i.image_format

abbrev pub id_of : Option CharacterIdentity → Option RecordId
id_of none = none
id_of (some i) = some i.id

abbrev kind_of : Option CharacterIdentity → Option FigureKind
kind_of none = none
kind_of (some i) = some i.kind

abbrev pub entry_index : Option SkylandersCatalogEntry → Option ℕ
entry_index none = none
entry_index (some entry) = some entry.index

abbrev entry_kind : Option SkylandersCatalogEntry → Option FigureKind
entry_kind none = none
entry_kind (some entry) = some entry.kind

abbrev pub infinity_index : Option InfinityCatalogEntry → Option ℕ
infinity_index none = none
infinity_index (some entry) = some entry.index

abbrev infinity_kind : Option InfinityCatalogEntry → Option FigureKind
infinity_kind none = none
infinity_kind (some entry) = some entry.kind

abbrev kind_or : Option FigureKind → FigureKind → FigureKind
kind_or none kind = kind
kind_or (some kind) other = kind

abbrev pub number_of : Option CharacterIdentity → ℕ → ℕ
number_of none figure_number = figure_number
number_of (some i) figure_number = i.character_id

-- The fields that the image, the identity or the source of a clone gives.
abbrev pub of_skylanders_image :
    ImportedSkylandersImage → Option CharacterIdentity → Entity → Entity
of_skylanders_image imported i e = record e {
  parent_identity_id = id_of i;
  catalog_index = entry_index imported.catalog_entry;
  kind = kind_or (or_else (entry_kind imported.catalog_entry) (kind_of i)) FigureKind.unknown;
  character_id = imported.character_id;
  variant_id = imported.variant_id;
}

abbrev pub of_infinity_image : ImportedInfinityImage → Option CharacterIdentity → Entity → Entity
of_infinity_image imported i e = record e {
  parent_identity_id = id_of i;
  catalog_index = infinity_index imported.catalog_entry;
  game_line = GameLine.infinity;
  kind = kind_or (or_else (kind_of i) (infinity_kind imported.catalog_entry)) FigureKind.character;
  character_id = number_of i imported.figure_number;
  image_format = ImageFormat.infinity_unknown;
}

abbrev pub of_source : Entity → Entity → Entity
of_source source e = record e {
  parent_identity_id = source.parent_identity_id;
  catalog_index = source.catalog_index;
  game_line = source.game_line;
  kind = source.kind;
  character_id = source.character_id;
  variant_id = source.variant_id;
  image_format = source.image_format;
}

unfoldable pub upload_skylanders :
    List ℕ → Option RecordId → ImportedSkylandersImage → List ℕ → Action Entity
unfolding matches_identity take_next append_blob append_entity_record
upload_skylanders name identity_id imported image = do
  i ← gets (λ s. identity_of identity_id s.catalog)
  if not (matches_identity imported i) then raise (failed bad_request) else do
    blob_id ← append_blob image
    id ← take_next take_record_id
    finish id name mutable_image (some blob_id) image (of_skylanders_image imported i)

unfoldable pub upload_infinity :
    List ℕ → Option RecordId → ImportedInfinityImage → List ℕ → Action Entity
unfolding take_next append_blob append_entity_record
upload_infinity name identity_id imported image = do
  i ← gets (λ s. identity_of identity_id s.catalog)
  blob_id ← append_blob image
  id ← take_next take_record_id
  finish id name mutable_image (some blob_id) image (of_infinity_image imported i)

module _ (figures : Figures) where
  abbrev pub upload : GameLine → List ℕ → List ℕ → Exec (Option Store) Fault Entity
  upload GameLine.skylanders params image = do
    name ← lift (required params (ascii "name"))
    imported ← lift (or_fail (parse_skylanders figures image) bad_request)
    with_store_mut
        (upload_skylanders name (number_param params (ascii "identity_id")) imported image)
  upload GameLine.infinity params image = do
    name ← lift (required params (ascii "name"))
    imported ← lift (or_fail (parse_infinity figures image) bad_request)
    with_store_mut (upload_infinity name (number_param params (ascii "identity_id")) imported image)

  unfoldable pub upload_entity_from_params : List ℕ → List ℕ → Exec (Option Store) Fault Entity
  unfolding query_param parse_skylanders parse_infinity with_store_mut upload_skylanders
      upload_infinity
  upload_entity_from_params params image = do
    game ← lift (game_param params)
    upload game params image

  unfoldable pub upload_entity_from_form_params : List ℕ → Exec (Option Store) Fault Entity
  unfolding decode_hex_bytes upload_entity_from_params
  upload_entity_from_form_params params = do
    image_hex ← lift (required params (ascii "image_hex"))
    image ← lift (or_fail (decode_hex_bytes image_hex) bad_request)
    upload_entity_from_params params image

  abbrev pub rekeyed : ImageFormat → List ℕ → Entity → RecordId → List ℕ
  rekeyed ImageFormat.skylanders_mifare1k image source id =
      figures.rekey_skylanders image source.character_id source.variant_id id
  rekeyed ImageFormat.infinity_unknown image source id = image

  unfoldable pub clone_entity : RecordId → List ℕ → Action Entity
  unfolding find take_next read_entity_image append_blob append_entity_record
  clone_entity source_id name = do
    source ← find (entity source_id) not_found
    id ← take_next take_record_id
    read ← read_entity_image figures source
    image ← pure (rekeyed source.image_format read source id)
    blob_id ← append_blob image
    finish id name mutable_image (some blob_id) image (of_source source)

  unfoldable pub clone_entity_from_params : List ℕ → Exec (Option Store) Fault Entity
  unfolding query_param with_store_mut clone_entity
  clone_entity_from_params params = do
    source_id ← lift (
        or_fail
          (as_u32
            (or_else (query_param params (ascii "source_id")) (query_param params (ascii "id"))))
          bad_request)
    name ← lift (required params (ascii "name"))
    with_store_mut (clone_entity source_id name)
