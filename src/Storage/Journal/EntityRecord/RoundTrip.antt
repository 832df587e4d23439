-- ===== src/Storage/Journal/EntityRecord/RoundTrip.antt =====
-- `encode_entity` and `decode_entity` of src/storage/journal.rs together.
use omniportal.Base.{
  ℕ, ◌+◌, ◌<◌, ◌^◌, ◌≡◌, refl, ap, ◌∙◌, List, true, Option, none, some, get_or, slice, length, drop,
  take, get_or_else, is_some, arith, length-splice, slice-splice, drop-overwrite, if◌then◌else◌,
  ◌==◌, splice, le→not_ltb,
}
use omniportal.Base.Bytes.{
  to_le_bytes, to_le_bytes16, from_le_bytes, from_bool, from_le_bytes-to_le_bytes,
}
use omniportal.Base.Result.{ok}
use omniportal.Base.Utf8.{is_utf8, from_utf8}
use omniportal.Domain.{game_line_as_u8, figure_kind_as_u8, image_format_as_u8}
use omniportal.Domain.Codes.{
  game_line_from_u8-as_u8, figure_kind_from_u8-as_u8, image_format_from_u8-as_u8,
}
use omniportal.Storage.Records.{
  Entity, EntityDataMode, static_generated, mutable_image, from_str, raw_bytes, data_mode_as_u8,
  data_mode_from_u8,
}
use omniportal.Storage.Records.Text.{from_str-IsText, raw_bytes-from_str}
use omniportal.Storage.Journal.Fields.{Fits, flagged-Fits, flagged-Fits16}
use omniportal.Storage.Journal.EntityRecord.{entity_fields, encode_entity, decode_entity}

-- An image is stored exactly for the entities that are marked as mutable.
abbrev pub BlobMatches : EntityDataMode → Option ℕ → Type 0
BlobMatches static_generated none = Unit
BlobMatches static_generated (some b) = ⊥
BlobMatches mutable_image none = ⊥
BlobMatches mutable_image (some b) = b < 2 ^ 32

-- The entity's numbers fit their fields, and its name was made from the text `text`.
pub record IsEntity (text : List ℕ) (e : Entity) : Type 0 where
  pub name_made : from_str 64 text ≡ ok e.name
  pub name_utf8 : is_utf8 text ≡ true
  pub parent_fits : Fits (2 ^ 32) e.parent_identity_id
  pub catalog_fits : Fits (2 ^ 16) e.catalog_index
  pub variant_fits : Fits (2 ^ 32) e.variant_id
  pub top_fits : Fits (2 ^ 32) e.swapper_top_entity_id
  pub bottom_fits : Fits (2 ^ 32) e.swapper_bottom_entity_id
  pub blob_matches : BlobMatches e.data_mode e.blob_id
  pub character_fits : e.character_id < 2 ^ 32
  pub image_len_fits : e.image_len < 2 ^ 32
  pub image_crc_fits : e.image_crc32 < 2 ^ 32
  pub created_fits : e.created_generation < 2 ^ 32
  pub updated_fits : e.updated_generation < 2 ^ 32

blob-BlobMatches :
    (m : EntityDataMode) (o : Option ℕ)
    → BlobMatches m o
    → (if data_mode_as_u8 m == 2
        then some (from_le_bytes (to_le_bytes (get_or_else o 0)))
        else none)
      ≡ o
unfolding data_mode_as_u8
blob-BlobMatches static_generated none h = refl
blob-BlobMatches static_generated (some b) h = absurd h
blob-BlobMatches mutable_image none h = absurd h
blob-BlobMatches mutable_image (some b) h = ap some (from_le_bytes-to_le_bytes b h)

data_mode_from_u8-as_u8 : (m : EntityDataMode) → data_mode_from_u8 (data_mode_as_u8 m) ≡ some m
unfolding data_mode_from_u8 data_mode_as_u8
data_mode_from_u8-as_u8 static_generated = refl
data_mode_from_u8-as_u8 mutable_image = refl

module _ (e : Entity) where
  pub length-encode_entity : length (encode_entity e) ≡ 128
  unfolding encode_entity
  length-encode_entity = length-splice 48 (raw_bytes e.name) (entity_fields e)

  name_field :
      (text : List ℕ)
      → from_str 64 text ≡ ok e.name
      → slice 48 (length text) (encode_entity e) ≡ text
  unfolding encode_entity
  name_field text h =
      let fits = (from_str-IsText 64 text e.name h).fits in
      ap (λ raw. slice 48 (length text) (splice 48 raw (entity_fields e)))
        (raw_bytes-from_str 64 text e.name h)
      ∙ slice-splice 48 text (entity_fields e) (omega arith)

  bottom_field :
      (text : List ℕ)
      → from_str 64 text ≡ ok e.name
      → slice 112 4 (encode_entity e) ≡ to_le_bytes (get_or_else e.swapper_bottom_entity_id 0)
  unfolding encode_entity
  bottom_field text h =
      ap (λ raw. slice 112 4 (splice 48 raw (entity_fields e)))
        (raw_bytes-from_str 64 text e.name h)
      ∙ ap (take 4) (
          drop-overwrite 64 text (drop 48 (entity_fields e))
            (from_str-IsText 64 text e.name h).fits)

-- Where `encode_entity` puts each field.
record Layout (text : List ℕ) (e : Entity) (p : List ℕ) : Type 0 where
  size : length p ≡ 128
  name_len : get_or p 2 0 ≡ length text
  name : slice 48 (length text) p ≡ text
  game_line : get_or p 0 0 ≡ game_line_as_u8 e.game_line
  image_format : get_or p 1 0 ≡ image_format_as_u8 e.image_format
  has_parent : get_or p 3 0 ≡ from_bool (is_some e.parent_identity_id)
  mode : get_or p 4 0 ≡ data_mode_as_u8 e.data_mode
  kind : get_or p 5 0 ≡ figure_kind_as_u8 e.kind
  has_catalog : get_or p 6 0 ≡ from_bool (is_some e.catalog_index)
  has_variant : get_or p 7 0 ≡ from_bool (is_some e.variant_id)
  parent : slice 8 4 p ≡ to_le_bytes (get_or_else e.parent_identity_id 0)
  blob : slice 12 4 p ≡ to_le_bytes (get_or_else e.blob_id 0)
  image_len : slice 16 4 p ≡ to_le_bytes e.image_len
  image_crc : slice 20 4 p ≡ to_le_bytes e.image_crc32
  created : slice 24 4 p ≡ to_le_bytes e.created_generation
  updated : slice 28 4 p ≡ to_le_bytes e.updated_generation
  character : slice 32 4 p ≡ to_le_bytes e.character_id
  variant : slice 36 4 p ≡ to_le_bytes (get_or_else e.variant_id 0)
  catalog : slice 40 2 p ≡ to_le_bytes16 (get_or_else e.catalog_index 0)
  has_top : get_or p 42 0 ≡ from_bool (is_some e.swapper_top_entity_id)
  has_bottom : get_or p 43 0 ≡ from_bool (is_some e.swapper_bottom_entity_id)
  top : slice 44 4 p ≡ to_le_bytes (get_or_else e.swapper_top_entity_id 0)
  bottom : slice 112 4 p ≡ to_le_bytes (get_or_else e.swapper_bottom_entity_id 0)

encode_entity-Layout :
    (text : List ℕ) (e : Entity) → from_str 64 text ≡ ok e.name → Layout text e (encode_entity e)
unfolding encode_entity
encode_entity-Layout text e h = record {
  size = length-encode_entity e;
  name_len = (from_str-IsText 64 text e.name h).len_eq;
  name = name_field e text h;
  game_line = refl;
  image_format = refl;
  has_parent = refl;
  mode = refl;
  kind = refl;
  has_catalog = refl;
  has_variant = refl;
  parent = refl;
  blob = refl;
  image_len = refl;
  image_crc = refl;
  created = refl;
  updated = refl;
  character = refl;
  variant = refl;
  catalog = refl;
  has_top = refl;
  has_bottom = refl;
  top = refl;
  bottom = bottom_field e text h;
}

decode_entity-Layout :
    (text : List ℕ) (e : Entity) (generation : ℕ) (p : List ℕ)
    → IsEntity text e
    → Layout text e p
    → decode_entity e.id generation p ≡ some e
unfolding decode_entity from_utf8
decode_entity-Layout text e generation p v l =
    let fits = (from_str-IsText 64 text e.name v.name_made).fits in
    simp (
      decode_entity,
      l.size,
      l.name_len,
      l.name,
      l.game_line,
      l.image_format,
      l.has_parent,
      l.mode,
      l.kind,
      l.has_catalog,
      l.has_variant,
      l.parent,
      l.blob,
      l.image_len,
      l.image_crc,
      l.created,
      l.updated,
      l.character,
      l.variant,
      l.catalog,
      l.has_top,
      l.has_bottom,
      l.top,
      l.bottom,
      le→not_ltb 64 (length text) fits,
      le→not_ltb 128 (48 + length text) (omega arith),
      v.name_utf8,
      v.name_made,
      game_line_from_u8-as_u8,
      image_format_from_u8-as_u8,
      figure_kind_from_u8-as_u8,
      data_mode_from_u8-as_u8,
      flagged-Fits e.parent_identity_id v.parent_fits,
      flagged-Fits16 e.catalog_index v.catalog_fits,
      flagged-Fits e.variant_id v.variant_fits,
      flagged-Fits e.swapper_top_entity_id v.top_fits,
      flagged-Fits e.swapper_bottom_entity_id v.bottom_fits,
      blob-BlobMatches e.data_mode e.blob_id v.blob_matches,
      from_le_bytes-to_le_bytes e.character_id v.character_fits,
      from_le_bytes-to_le_bytes e.image_len v.image_len_fits,
      from_le_bytes-to_le_bytes e.image_crc32 v.image_crc_fits,
      from_le_bytes-to_le_bytes e.created_generation v.created_fits,
      from_le_bytes-to_le_bytes e.updated_generation v.updated_fits,
    )

-- An entity whose name is a text of valid UTF-8, whose numbers fit their fields and that has a blob
-- exactly if its mode is the mutable one: the bytes that are written for it are read back, under
-- its id and whatever the generation of the record is, with all its fields.
pub decode_entity-encode_entity :
    (text : List ℕ) (e : Entity) (generation : ℕ)
    → IsEntity text e
    → decode_entity e.id generation (encode_entity e) ≡ some e
decode_entity-encode_entity text e generation v =
    decode_entity-Layout text e generation (encode_entity e) v
      (encode_entity-Layout text e v.name_made)
