-- ===== src/Storage/Journal/EntityRecord.antt =====
-- `encode_entity` and `decode_entity` of src/storage/journal.rs.
pub mod RoundTrip
use omniportal.Base.{
  ℕ, ◌+◌, List, Bool, true, false, ◌||◌, Option, none, some, ltb, ◌==◌, if◌then◌else◌, get_or, set,
  slice, splice, replicate, length, get_or_else, is_some,
}
use omniportal.Base.Bytes.{to_le_bytes, to_le_bytes16, from_le_bytes, from_le_bytes16, from_bool}
use omniportal.Base.Result.{to_option}
use omniportal.Base.OptionDo.{◌>>=◌}
use omniportal.Base.Utf8.{from_utf8}
use omniportal.Domain.{
  GameLine, game_line_as_u8, game_line_from_u8, figure_kind_as_u8, figure_kind_from_u8,
  image_format_as_u8, image_format_from_u8,
}
use omniportal.Storage.Records.{
  Entity, FixedText, from_str, raw_bytes, max_record_name_bytes, data_mode_as_u8, data_mode_from_u8,
  mutable_image,
}
use omniportal.Storage.Journal.Fields.{flagged}

-- All writes of `encode_entity` but the last, which copies the name in.
unfoldable pub entity_fields : Entity → List ℕ
unfolding to_le_bytes to_le_bytes16
entity_fields e =
    let out = replicate 128 0 in
    let out = set out 0 (game_line_as_u8 e.game_line) in
    let out = set out 1 (image_format_as_u8 e.image_format) in
    let out = set out 2 e.name.len in
    let out = set out 3 (from_bool (is_some e.parent_identity_id)) in
    let out = set out 4 (data_mode_as_u8 e.data_mode) in
    let out = set out 5 (figure_kind_as_u8 e.kind) in
    let out = set out 6 (from_bool (is_some e.catalog_index)) in
    let out = set out 7 (from_bool (is_some e.variant_id)) in
    let out = splice 8 (to_le_bytes (get_or_else e.parent_identity_id 0)) out in
    let out = splice 12 (to_le_bytes (get_or_else e.blob_id 0)) out in
    let out = splice 16 (to_le_bytes e.image_len) out in
    let out = splice 20 (to_le_bytes e.image_crc32) out in
    let out = splice 24 (to_le_bytes e.created_generation) out in
    let out = splice 28 (to_le_bytes e.updated_generation) out in
    let out = splice 32 (to_le_bytes e.character_id) out in
    let out = splice 36 (to_le_bytes (get_or_else e.variant_id 0)) out in
    let out = splice 40 (to_le_bytes16 (get_or_else e.catalog_index 0)) out in
    let out = set out 42 (from_bool (is_some e.swapper_top_entity_id)) in
    let out = set out 43 (from_bool (is_some e.swapper_bottom_entity_id)) in
    let out = splice 44 (to_le_bytes (get_or_else e.swapper_top_entity_id 0)) out in
    splice 112 (to_le_bytes (get_or_else e.swapper_bottom_entity_id 0)) out

unfoldable pub encode_entity : Entity → List ℕ
unfolding entity_fields
encode_entity e = splice 48 (raw_bytes e.name) (entity_fields e)

unfoldable pub decode_entity : ℕ → ℕ → List ℕ → Option Entity
unfolding data_mode_as_u8
decode_entity id _generation payload =
    let name_len = get_or payload 2 0 in
    if ltb (length payload) 128
    then none
    else if ltb max_record_name_bytes name_len || ltb (length payload) (48 + name_len)
    then none
    else do
      name ← from_utf8 (slice 48 name_len payload)
      game_line ← game_line_from_u8 (get_or payload 0 0)
      image_format ← image_format_from_u8 (get_or payload 1 0)
      text ← to_option (from_str max_record_name_bytes name)
      data_mode ← data_mode_from_u8 (get_or payload 4 0)
      some (record {
        id = id;
        name = text;
        parent_identity_id = flagged (get_or payload 3 0) (from_le_bytes (slice 8 4 payload));
        catalog_index = flagged (get_or payload 6 0) (from_le_bytes16 (slice 40 2 payload));
        game_line = game_line;
        kind = figure_kind_from_u8 (get_or payload 5 0);
        data_mode = data_mode;
        character_id = from_le_bytes (slice 32 4 payload);
        variant_id = flagged (get_or payload 7 0) (from_le_bytes (slice 36 4 payload));
        blob_id =
            if get_or payload 4 0 == data_mode_as_u8 mutable_image
            then some (from_le_bytes (slice 12 4 payload))
            else none;
        image_format = image_format;
        image_len = from_le_bytes (slice 16 4 payload);
        image_crc32 = from_le_bytes (slice 20 4 payload);
        created_generation = from_le_bytes (slice 24 4 payload);
        updated_generation = from_le_bytes (slice 28 4 payload);
        swapper_top_entity_id = flagged (get_or payload 42 0) (from_le_bytes (slice 44 4 payload));
        swapper_bottom_entity_id =
            flagged (get_or payload 43 0) (from_le_bytes (slice 112 4 payload));
      })
