-- ===== src/Storage/Journal/Identity.antt =====
-- `encode_identity` and `decode_identity` of src/storage/journal.rs.
pub mod RoundTrip
use omniportal.Base.{
  ℕ, ◌+◌, List, Bool, true, false, ◌||◌, Option, none, some, ltb, ◌==◌, if◌then◌else◌, get_or, set,
  slice, splice, copy_into, replicate, length, get_or_else, is_some,
}
use omniportal.Base.Bytes.{to_le_bytes, from_le_bytes, from_bool}
use omniportal.Base.Result.{to_option}
use omniportal.Base.OptionDo.{◌>>=◌}
use omniportal.Base.Utf8.{from_utf8}
use omniportal.Domain.{
  GameLine, game_line_as_u8, game_line_from_u8, figure_kind_as_u8, figure_kind_from_u8,
  image_format_as_u8, image_format_from_u8,
}
use omniportal.Storage.Journal.Fields.{flagged}
use omniportal.Storage.Records.{
  CharacterIdentity, FixedText, from_str, empty_text, raw_bytes, max_record_name_bytes,
  max_source_notes_bytes,
}

abbrev pub identity_source_start : ℕ
identity_source_start = 20 + max_record_name_bytes

-- The writes of `encode_identity` before the two texts.
unfoldable pub identity_fields : CharacterIdentity → List ℕ
unfolding to_le_bytes
identity_fields i =
    let out = replicate 176 0 in
    let out = set out 0 (game_line_as_u8 i.game_line) in
    let out = set out 1 (figure_kind_as_u8 i.kind) in
    let out = set out 2 (image_format_as_u8 i.image_format) in
    let out = set out 3 (from_bool (is_some i.variant_id)) in
    let out = splice 4 (to_le_bytes i.character_id) out in
    let out = splice 8 (to_le_bytes (get_or_else i.variant_id 0)) out in
    let out = splice 12 (to_le_bytes i.checksum) out in
    let out = set out 16 i.name.len in set out 17 i.source_notes.len

-- `none` is a panic: the second copy does not fit where the notes are longer than 92 bytes.
unfoldable pub encode_identity : CharacterIdentity → Option (List ℕ)
unfolding identity_fields
encode_identity i = do
  out ← copy_into 20 (raw_bytes i.name) (identity_fields i)
  copy_into identity_source_start (raw_bytes i.source_notes) out

unfoldable pub decode_source : ℕ → List ℕ → Option FixedText
decode_source source_len payload =
    if source_len == 0 then some (empty_text max_source_notes_bytes) else do
      source ← from_utf8 (slice identity_source_start source_len payload)
      to_option (from_str max_source_notes_bytes source)

unfoldable pub decode_identity : ℕ → ℕ → List ℕ → Option CharacterIdentity
unfolding decode_source
decode_identity id generation payload =
    let name_len = get_or payload 16 0 in
    let source_len = get_or payload 17 0 in
    if ltb (length payload) 176
    then none
    else if ltb max_record_name_bytes name_len
        || ltb max_source_notes_bytes source_len
        || ltb identity_source_start (20 + name_len)
        || ltb (length payload) (identity_source_start + source_len)
    then none
    else do
      name ← from_utf8 (slice 20 name_len payload)
      source ← decode_source source_len payload
      game_line ← game_line_from_u8 (get_or payload 0 0)
      image_format ← image_format_from_u8 (get_or payload 2 0)
      text ← to_option (from_str max_record_name_bytes name)
      some (record {
        id = id;
        game_line = game_line;
        name = text;
        character_id = from_le_bytes (slice 4 4 payload);
        variant_id = flagged (get_or payload 3 0) (from_le_bytes (slice 8 4 payload));
        kind = figure_kind_from_u8 (get_or payload 1 0);
        image_format = image_format;
        source_notes = source;
        generation = generation;
        checksum = from_le_bytes (slice 12 4 payload);
      })
