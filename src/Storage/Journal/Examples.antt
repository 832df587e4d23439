-- ===== src/Storage/Journal/Examples.antt =====
-- Small journals on which the theorems on src/storage/journal.rs apply.
use omniportal.Base.{
  ℕ, ◌/◌, ◌+◌, ◌-◌, ◌*◌, ◌<◌, ◌≤◌, ◌≡◌, refl, List, [], ◌∷◌, ◌++◌, Bool, true, false, Option, none,
  some, arith, length, replicate, length-replicate, splice, inl, inr,
}
use omniportal.Base.Bytes.{to_le_bytes, to_le_bytes16}
use omniportal.Base.Result.{ok}
use omniportal.Base.Utf8.{is_utf8}
use omniportal.Domain.{GameLine, FigureKind, ImageFormat}
use omniportal.Storage.Records.{
  CharacterIdentity, FixedText, from_str, empty_text, Entity, EntityDataMode,
}
use omniportal.Storage.Table.{StorageError, full}
use omniportal.Storage.Catalog.{Catalog, new_catalog}
use omniportal.Storage.Flash.{StorageFlash, new_flash, storage_flash_bytes}
use omniportal.Storage.Journal.Header.{IsHeader}
use omniportal.Base.{◌*◌, ◌/◌, ◌⊎◌}
use omniportal.Base.Bytes.{add32}
use omniportal.Storage.Journal.Replay.Panic.{scan_flash_panics}
use omniportal.Storage.Journal.{
  Store, append_record, apply_record, scan_flash, returned, scan_panicked,
}
use omniportal.Storage.Journal.Header.{JournalHeader, encode, decode, decode-encode}
use omniportal.Storage.Journal.Config.{encode_config, decode_config}
use omniportal.Storage.Journal.Config.RoundTrip.{decode_config-encode_config}
use omniportal.Storage.Journal.Identity.{encode_identity, decode_identity}
use omniportal.Storage.Journal.Identity.RoundTrip.{
  decode_identity-encode_identity, encode_identity_panics,
}
use omniportal.Storage.Journal.EntityRecord.{encode_entity, decode_entity}
use omniportal.Storage.Journal.EntityRecord.RoundTrip.{decode_entity-encode_entity}
use omniportal.Storage.Journal.Bytes.{JournalRecord, IsRecord, journal_bytes, record_bytes}
use omniportal.Storage.Journal.Replay.{replay}
use omniportal.Storage.Journal.Replay.Tail.{scan_flash-replay, scan_flash-bad_word}
use omniportal.Storage.Journal.Replay.Append.{
  Represents, scan_flash-append_record, append_record_full,
}
use omniportal.Storage.Journal.Terminates.{scan_flash_ends, HasHugeRecord}

abbrev deletion : JournalRecord
deletion = record { kind = 4; id = 7; generation = 9; payload = [] }

deletion-IsRecord : IsRecord deletion
deletion-IsRecord = record {
  id_lt = omega arith;
  generation_lt = omega arith;
  payload_le = omega arith;
}

-- `storage_flash_bytes`, by a name that does not compute.
unfoldable flash_size : ℕ
flash_size = storage_flash_bytes

flash_size_eq : flash_size ≡ storage_flash_bytes
unfolding flash_size
flash_size_eq = refl

abbrev formatted : Store
formatted = record { flash = record { bytes = replicate flash_size 0xff }; catalog = new_catalog }

formatted-Represents : Represents [] formatted
unfolding new_catalog journal_bytes
formatted-Represents = record {
  free = flash_size;
  stored = refl;
  size = omega (arith, flash_size_eq);
  offset = refl;
  records = tt;
}

formatted_ready : new_catalog.needs_format ≡ false
unfolding new_catalog
formatted_ready = refl

deletion_fits : length (journal_bytes []) + 24 ≤ storage_flash_bytes
unfolding journal_bytes
deletion_fits = omega arith

scan_flash-append_record_example :
    (s' : Store) × (append_record formatted 4 7 9 [] ≡ (s', none))
    × Represents (deletion ∷ []) s'
    × (scan_flash s'.flash new_catalog ≡ returned (replay 0 (deletion ∷ []) new_catalog))
scan_flash-append_record_example =
    scan_flash-append_record [] formatted deletion formatted-Represents deletion-IsRecord
      formatted_ready deletion_fits

unfoldable whole_flash : List ℕ
whole_flash = replicate storage_flash_bytes 0

length-whole_flash : length whole_flash ≡ storage_flash_bytes
unfolding whole_flash
length-whole_flash = length-replicate storage_flash_bytes (zero_byte)
  where
    zero_byte : ℕ
    zero_byte = 0

abbrev too_large : JournalRecord
too_large = record { kind = 7; id = 1; generation = 1; payload = whole_flash }

too_large-IsRecord : IsRecord too_large
too_large-IsRecord = record {
  id_lt = omega arith;
  generation_lt = omega arith;
  payload_le = omega (arith, length-whole_flash);
}

too_large_over :
    storage_flash_bytes < length (journal_bytes []) + (24 + length whole_flash + 3) / 4 * 4
unfolding journal_bytes
too_large_over = omega (arith, length-whole_flash)

append_record_full_example : append_record formatted 7 1 1 whole_flash ≡ (formatted, some full)
append_record_full_example =
    append_record_full [] formatted too_large formatted-Represents too_large-IsRecord
      formatted_ready too_large_over

abbrev one_record : StorageFlash
one_record = record {
  bytes = journal_bytes (deletion ∷ []) ++ replicate (storage_flash_bytes - 24) 0xff;
}

one_record_size :
    length (journal_bytes (deletion ∷ [])) + (storage_flash_bytes - 24) ≡ storage_flash_bytes
unfolding journal_bytes record_bytes encode to_le_bytes to_le_bytes16
one_record_size = refl

new_catalog_start : new_catalog.write_offset ≡ 0
unfolding new_catalog
new_catalog_start = refl

scan_flash-replay_example :
    scan_flash one_record new_catalog ≡ returned (replay 0 (deletion ∷ []) new_catalog)
scan_flash-replay_example =
    scan_flash-replay (deletion ∷ []) (storage_flash_bytes - 24) one_record new_catalog refl
      one_record_size (deletion-IsRecord, tt) new_catalog_start

-- A bad word, and behind it a record that an earlier run wrote.
abbrev bad_word : List ℕ
bad_word = 1 ∷ 2 ∷ 3 ∷ 4 ∷ []

abbrev bad_flash : StorageFlash
bad_flash = record { bytes = journal_bytes (deletion ∷ []) ++ (bad_word ++ record_bytes deletion) }

-- The record before the bad word is counted and applied.
abbrev deleted : Catalog
deleted = (replay 0 (deletion ∷ []) new_catalog).0

deletion_applied : replay 0 (deletion ∷ []) new_catalog ≡ (deleted, none)
unfolding replay apply_record
deletion_applied = refl

one_record_fits : length (journal_bytes (deletion ∷ [])) + 24 ≤ storage_flash_bytes
unfolding journal_bytes record_bytes encode to_le_bytes to_le_bytes16
one_record_fits = omega arith

scan_flash-bad_word_example :
    scan_flash bad_flash new_catalog
    ≡ returned (
      record deleted {
        corrupt_records = add32 deleted.corrupt_records 1;
        write_offset = (length (journal_bytes (deletion ∷ [])) / 4096 + 1) * 4096;
      },
      none,
    )
unfolding omniportal.Base.Bytes.from_le_bytes
scan_flash-bad_word_example =
    scan_flash-bad_word (deletion ∷ []) bad_word (record_bytes deletion) bad_flash new_catalog
      deleted refl one_record_fits (deletion-IsRecord, tt) (refl, refl, refl) new_catalog_start
      deletion_applied

new_flash_size : length new_flash.bytes ≡ storage_flash_bytes
unfolding new_flash
new_flash_size = length-replicate storage_flash_bytes (erased)
  where
    erased : ℕ
    erased = 0xff

scan_flash_ends_example :
    ((result : Catalog × Option StorageError) × (scan_flash new_flash new_catalog
        ≡ returned result))
    ⊎ ((scan_flash new_flash new_catalog ≡ scan_panicked) × HasHugeRecord new_flash)
scan_flash_ends_example = scan_flash_ends new_flash new_catalog new_flash_size

-- A header that says that its payload has 2^32 - 8 bytes.
abbrev huge_header : JournalHeader
huge_header = record { kind = 7; id = 1; generation = 1; payload_len = 0xfffffff8; payload_crc = 0 }

abbrev huge_flash : StorageFlash
huge_flash = record { bytes = encode huge_header ++ replicate (storage_flash_bytes - 24) 0xff }

huge_header-IsHeader : IsHeader huge_header
huge_header-IsHeader = record {
  id_lt = omega arith;
  generation_lt = omega arith;
  payload_len_lt = omega arith;
  payload_crc_lt = omega arith;
}

scan_flash_panics_example : scan_flash huge_flash new_catalog ≡ scan_panicked
scan_flash_panics_example =
    scan_flash_panics huge_header huge_flash new_catalog (replicate (storage_flash_bytes - 24) 0xff)
      refl huge_header-IsHeader (omega arith) (omega arith)

abbrev small_header : JournalHeader
small_header = record {
  kind = 3;
  id = 5;
  generation = 6;
  payload_len = 128;
  payload_crc = 0xdead_beef;
}

decode-encode_example : decode (encode small_header) ≡ some small_header
decode-encode_example = decode-encode small_header (record {
  id_lt = omega arith;
  generation_lt = omega arith;
  payload_len_lt = omega arith;
  payload_crc_lt = omega arith;
})

abbrev two_slots : List (Option ℕ)
two_slots = some 4 ∷ none ∷ some 9 ∷ replicate 13 none

decode_config-encode_config_example :
    decode_config (encode_config two_slots GameLine.infinity)
    ≡ record { active_slots = two_slots; usb_mode = GameLine.infinity }
decode_config-encode_config_example =
    decode_config-encode_config two_slots GameLine.infinity refl
      (omega arith, omega arith, (omega arith, omega arith, tt))

abbrev eon_bytes : List ℕ
eon_bytes = b'E' ∷ b'o' ∷ b'n' ∷ []

abbrev eon_text : FixedText
eon_text = record { bytes = splice 0 eon_bytes (replicate 64 0); len = 3 }

eon_made : from_str 64 eon_bytes ≡ ok eon_text
unfolding from_str empty_text
eon_made = refl

eon_utf8 : is_utf8 eon_bytes ≡ true
unfolding is_utf8
eon_utf8 = refl

abbrev eon : CharacterIdentity
eon = record {
  id = 3;
  game_line = GameLine.skylanders;
  name = eon_text;
  character_id = 404;
  variant_id = some 2;
  kind = FigureKind.character;
  image_format = ImageFormat.skylanders_mifare1k;
  source_notes = empty_text 96;
  generation = 8;
  checksum = 77;
}

decode_identity-encode_identity_example :
    (out : List ℕ) × (encode_identity eon ≡ some out) × (decode_identity 3 8 out ≡ some eon)
decode_identity-encode_identity_example = decode_identity-encode_identity eon_bytes [] eon (record {
  name_made = eon_made;
  name_utf8 = eon_utf8;
  notes_made = inl (refl, refl);
  variant_fits = omega arith;
  notes_fit = omega arith;
  character_fits = omega arith;
  checksum_fits = omega arith;
})

abbrev long_notes : List ℕ
long_notes = replicate 93 b'x'

abbrev talkative : CharacterIdentity
talkative = record eon {
  source_notes = record { bytes = splice 0 long_notes (replicate 96 0); len = 93 };
}

long_notes_made : from_str 96 long_notes ≡ ok talkative.source_notes
unfolding from_str empty_text
long_notes_made = refl

encode_identity_panics_example : encode_identity talkative ≡ none
encode_identity_panics_example =
    encode_identity_panics eon_bytes long_notes talkative eon_made long_notes_made (omega arith)

abbrev eon_entity : Entity
eon_entity = record {
  id = 11;
  name = eon_text;
  parent_identity_id = some 3;
  catalog_index = some 20;
  game_line = GameLine.skylanders;
  kind = FigureKind.character;
  data_mode = EntityDataMode.mutable_image;
  character_id = 404;
  variant_id = none;
  blob_id = some 5;
  image_format = ImageFormat.skylanders_mifare1k;
  image_len = 1024;
  image_crc32 = 99;
  created_generation = 12;
  updated_generation = 13;
  swapper_top_entity_id = none;
  swapper_bottom_entity_id = none;
}

decode_entity-encode_entity_example :
    decode_entity 11 14 (encode_entity eon_entity) ≡ some eon_entity
decode_entity-encode_entity_example = decode_entity-encode_entity eon_bytes eon_entity 14 (record {
  name_made = eon_made;
  name_utf8 = eon_utf8;
  parent_fits = omega arith;
  catalog_fits = omega arith;
  variant_fits = tt;
  top_fits = tt;
  bottom_fits = tt;
  blob_matches = omega arith;
  character_fits = omega arith;
  image_len_fits = omega arith;
  image_crc_fits = omega arith;
  created_fits = omega arith;
  updated_fits = omega arith;
})
