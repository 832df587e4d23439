-- ===== src/Storage/Journal/Config.antt =====
-- `encode_config` and `decode_config` of src/storage/journal.rs.
pub mod RoundTrip
use omniportal.Base.{
  ℕ, zero, suc, ◌+◌, ◌*◌, ◌<◌, ◌^◌, ◌≡◌, refl, List, [], ◌∷◌, Bool, ◌&&◌, not, Option, none, some,
  ltb, leb, ◌==◌, if◌then◌else◌, get_or, set, slice, splice, replicate, length, get_or_else,
}
use omniportal.Base.Bytes.{to_le_bytes, from_le_bytes, bytes_eq}
use omniportal.Domain.{GameLine, game_line_as_u8, game_line_from_u8}
use omniportal.Storage.Records.{RecordId}
use omniportal.Storage.Catalog.{max_figures}

-- b"SLT1"
abbrev pub config_slots_magic : List ℕ
config_slots_magic = b'S' ∷ b'L' ∷ b'T' ∷ b'1' ∷ []

-- The rounds of the loop over the slots, from slot `slot` on.
unfoldable pub write_slots : ℕ → List (Option RecordId) → List ℕ → List ℕ
write_slots slot [] out = out
write_slots slot (entity_id ∷ rest) out =
    write_slots (slot + 1) rest (splice (8 + slot * 4) (to_le_bytes (get_or_else entity_id 0)) out)

unfoldable pub encode_config : List (Option RecordId) → GameLine → List ℕ
unfolding write_slots
encode_config active_slots usb_mode =
    let out = replicate (8 + max_figures * 4) 0 in
    let out = splice 0 config_slots_magic out in
    let out = set out 4 (game_line_as_u8 usb_mode) in write_slots 0 active_slots out

pub record DecodedConfig : Type 0 where
  pub active_slots : List (Option RecordId)
  pub usb_mode : GameLine

-- `if id != 0 { Some(RecordId(id)) }`.
abbrev pub nonzero : ℕ → Option RecordId
nonzero id = if id == 0 then none else some id

-- The slots from slot `slot` on, `n` of them, of a table that begins at `base`.
unfoldable pub read_slots : ℕ → ℕ → ℕ → List ℕ → List (Option RecordId)
read_slots base slot zero payload = []
read_slots base slot (suc n) payload =
    nonzero (from_le_bytes (slice (base + slot * 4) 4 payload))
    ∷ read_slots base (slot + 1) n payload

-- The format with a single slot, before there was a table.
unfoldable pub decode_single : List ℕ → List (Option RecordId) → List (Option RecordId)
decode_single payload slots =
    if leb 8 (length payload) && not (get_or payload 0 0 == 0)
    then set slots 0 (nonzero (from_le_bytes (slice 4 4 payload)))
    else slots

unfoldable pub decode_config : List ℕ → DecodedConfig
decode_config payload =
    if leb (8 + max_figures * 4) (length payload) && bytes_eq (slice 0 4 payload) config_slots_magic
    then record {
      active_slots = read_slots 8 0 max_figures payload;
      usb_mode = get_or_else (game_line_from_u8 (get_or payload 4 0)) GameLine.skylanders;
    }
    else if leb (4 + max_figures * 4) (length payload)
        && bytes_eq (slice 0 4 payload) config_slots_magic
    then record {
      active_slots = read_slots 4 0 max_figures payload;
      usb_mode = GameLine.skylanders;
    }
    else record {
      active_slots = decode_single payload (replicate max_figures none);
      usb_mode = GameLine.skylanders;
    }
