-- ===== src/Storage/Records.antt =====
-- src/storage/records.rs and src/storage/wear.rs: the records that the catalog holds.
-- Texts are their UTF-8 bytes; `RecordId` and `BlobId` wrap a `u32`.
pub mod Text
use omniportal.Base.{
  ℕ, ◌+◌, ◌-◌, ◌*◌, ◌≤◌, ◌<◌, ◌^◌, ◌%◌, ◌≡◌, refl, List, [], ◌∷◌, Bool, true, false, ◌&&◌, ◌||◌,
  Option, none, some, ltb, leb, ◌==◌, if◌then◌else◌, length, take, replicate, splice, is_some,
  arith,
}
use omniportal.Base.Result.{Result, ok, err}
use mathlib.Core.Option
use omniportal.Domain.{
  GameLine, FigureKind, ImageFormat, CollectionEntity, EntityPayload, skylanders_payload,
  infinity_payload,
}

abbrev pub max_record_name_bytes : ℕ
max_record_name_bytes = 64

abbrev pub max_source_notes_bytes : ℕ
max_source_notes_bytes = 96

abbrev pub max_identities : ℕ
max_identities = 32

abbrev pub max_entities : ℕ
max_entities = 64

abbrev pub RecordId : Type 0
RecordId = ℕ

abbrev pub BlobId : Type 0
BlobId = ℕ

pub data StorageRecordError : Type 0 where
  invalid_text : StorageRecordError

-- The array's length is the parameter `N` of the source, the argument `n` of the operations here.
pub record FixedText : Type 0 where
  pub bytes : List ℕ
  pub len : ℕ

unfoldable pub empty_text : ℕ → FixedText
empty_text n = record { bytes = replicate n 0; len = 0 }

unfoldable pub from_str : ℕ → List ℕ → Result StorageRecordError FixedText
unfolding empty_text
from_str n raw =
    if (length raw == 0) || ltb n (length raw) || ltb 255 (length raw)
    then err invalid_text
    else let text = empty_text n in
      ok (record text { bytes = splice 0 raw text.bytes; len = length raw })

unfoldable pub raw_bytes : FixedText → List ℕ
raw_bytes t = take t.len t.bytes

pub record CharacterIdentity : Type 0 where
  pub id : RecordId
  pub game_line : GameLine
  pub name : FixedText
  pub character_id : ℕ
  pub variant_id : Option ℕ
  pub kind : FigureKind
  pub image_format : ImageFormat
  pub source_notes : FixedText
  pub generation : ℕ
  pub checksum : ℕ

pub data EntityDataMode : Type 0 where
  static_generated mutable_image : EntityDataMode

unfoldable pub data_mode_as_u8 : EntityDataMode → ℕ
data_mode_as_u8 static_generated = 1
data_mode_as_u8 mutable_image = 2

unfoldable pub data_mode_from_u8 : ℕ → Option EntityDataMode
data_mode_from_u8 value =
    if value == 1 then some static_generated else if value == 2 then some mutable_image else none

pub record Entity : Type 0 where
  pub id : RecordId
  pub name : FixedText
  pub parent_identity_id : Option RecordId
  pub catalog_index : Option ℕ
  pub game_line : GameLine
  pub kind : FigureKind
  pub data_mode : EntityDataMode
  pub character_id : ℕ
  pub variant_id : Option ℕ
  pub blob_id : Option BlobId
  pub image_format : ImageFormat
  pub image_len : ℕ
  pub image_crc32 : ℕ
  pub created_generation : ℕ
  pub updated_generation : ℕ
  pub swapper_top_entity_id : Option RecordId
  pub swapper_bottom_entity_id : Option RecordId

abbrev pub is_swapper : FigureKind → Bool
is_swapper FigureKind.swapper = true
is_swapper _ = false

unfoldable pub is_swapper_combo : Entity → Bool
is_swapper_combo e =
    is_swapper e.kind && is_some e.swapper_top_entity_id && is_some e.swapper_bottom_entity_id

domain_payload : GameLine → Entity → EntityPayload
domain_payload GameLine.skylanders e = skylanders_payload (record {
  catalog_index = e.catalog_index;
  figure_id = e.character_id % 2 ^ 16;
  variant_id = Option.map (λ value. value % 2 ^ 16) e.variant_id;
  kind = e.kind;
  image_format = e.image_format;
})
domain_payload GameLine.infinity e = infinity_payload (record {
  catalog_index = e.catalog_index;
  figure_number = e.character_id;
  kind = e.kind;
  image_format = e.image_format;
})

unfoldable pub domain_entity : Entity → CollectionEntity
unfolding domain_payload
domain_entity e = record {
  id = e.id;
  game_line = e.game_line;
  payload = domain_payload e.game_line e;
  blob_id = e.blob_id;
}

pub record StoredBlob : Type 0 where
  pub id : BlobId
  pub offset : ℕ
  pub len : ℕ
  pub crc32 : ℕ
  pub generation : ℕ

abbrev pub proactive_compact_used_percent : ℕ
proactive_compact_used_percent = 80

abbrev pub journal_record_magic : ℕ
journal_record_magic = 0x4f4d4e49

abbrev pub journal_record_header_bytes : ℕ
journal_record_header_bytes = 24
