-- ===== src/Storage/Journal.antt =====
-- src/storage/journal.rs: the append-only journal on flash. `scan_flash` rebuilds the catalog at
-- boot and `append_record` adds one record. Sums of `u32`s wrap as in a release build.
-- A result is the state with the error, if there is one; `none` there is `Ok(())`.
pub mod Crc
pub mod Fields
pub mod Header
pub mod Config
pub mod Identity
pub mod EntityRecord
pub mod Bytes
pub mod Replay
pub mod Terminates
pub mod Examples
use omniportal.Base.{
  ℕ, zero, suc, ◌+◌, ◌-◌, ◌*◌, ◌/◌, ◌%◌, ◌^◌, ◌≡◌, List, [], ◌∷◌, ◌++◌, Bool, true, false, not,
  Option, none, some, min, max, ltb, leb, ◌==◌, if◌then◌else◌, length, take,
}
use omniportal.Base.Bytes.{add32, sub32, from_le_bytes, bytes_eq}
use omniportal.Storage.Records.{journal_record_magic, journal_record_header_bytes}
use omniportal.Storage.Table.{StorageError, needs_format, full, flash_error, corrupt}
use omniportal.Storage.Catalog.{
  Catalog, observe_record_id, observe_blob_id, upsert_identity, upsert_entity, upsert_blob,
  delete_identity, delete_entity,
}
use omniportal.Storage.Flash.{StorageFlash, read, write, storage_flash_offset, storage_flash_bytes}
use Crc.{crc32, align4}
use Header.{JournalHeader, encode, decode}
use Config.{decode_config}
use Identity.{decode_identity}
use EntityRecord.{decode_entity}

abbrev pub record_kind_identity_upsert : ℕ
record_kind_identity_upsert = 1

abbrev pub record_kind_identity_delete : ℕ
record_kind_identity_delete = 2

abbrev pub record_kind_entity_upsert : ℕ
record_kind_entity_upsert = 3

abbrev pub record_kind_entity_delete : ℕ
record_kind_entity_delete = 4

abbrev pub record_kind_blob_data : ℕ
record_kind_blob_data = 7

abbrev pub record_kind_config_upsert : ℕ
record_kind_config_upsert = 8

abbrev pub record_kind_format_marker : ℕ
record_kind_format_marker = 254

abbrev pub erased_word : List ℕ
erased_word = 0xff ∷ 0xff ∷ 0xff ∷ 0xff ∷ []

-- The arms of `apply_record` that decode their payload. A payload that does not decode is skipped.
unfoldable pub apply_identity : Catalog → JournalHeader → List ℕ → Catalog × Option StorageError
apply_identity catalog r payload = elim (decode_identity r.id r.generation payload) [
  | none ↦ (catalog, none)
  | some identity ↦ upsert_identity identity (observe_record_id r.id r.generation catalog)
]

unfoldable pub apply_entity : Catalog → JournalHeader → List ℕ → Catalog × Option StorageError
apply_entity catalog r payload = elim (decode_entity r.id r.generation payload) [
  | none ↦ (catalog, none)
  | some entity ↦ upsert_entity entity (observe_record_id r.id r.generation catalog)
]

unfoldable pub apply_config : Catalog → JournalHeader → List ℕ → Catalog
apply_config catalog r payload =
    let config = decode_config payload in
    record catalog {
      next_generation = max catalog.next_generation (add32 r.generation 1);
      active_slots = config.active_slots;
      usb_mode = config.usb_mode;
      active_config_generation = r.generation;
    }

unfoldable pub apply_record : Catalog → JournalHeader → ℕ → List ℕ → Catalog × Option StorageError
unfolding apply_identity apply_entity apply_config
apply_record catalog r payload_offset payload =
    if r.kind == record_kind_identity_upsert
    then apply_identity catalog r payload
    else if r.kind == record_kind_identity_delete
    then ((delete_identity r.id (observe_record_id r.id r.generation catalog)).0, none)
    else if r.kind == record_kind_entity_upsert
    then apply_entity catalog r payload
    else if r.kind == record_kind_entity_delete
    then ((delete_entity r.id (observe_record_id r.id r.generation catalog)).0, none)
    else if r.kind == record_kind_blob_data
    then upsert_blob
        (record {
          id = r.id;
          offset = payload_offset;
          len = r.payload_len;
          crc32 = r.payload_crc;
          generation = r.generation;
        })
        (observe_blob_id r.id r.generation catalog)
    else if r.kind == record_kind_format_marker
    then (
      record catalog { next_generation = max catalog.next_generation (add32 r.generation 1) },
      none,
    )
    else if r.kind == record_kind_config_upsert
    then (apply_config catalog r payload, none)
    else (catalog, none)

-- `& !(SECTOR_BYTES - 1)` is rounding down to a multiple of 4096.
unfoldable pub next_sector_offset : ℕ → ℕ
next_sector_offset offset = min (add32 offset 4096 / 4096 * 4096) storage_flash_bytes

unfoldable pub stop_at_corrupt_tail : Catalog → ℕ → ℕ → Catalog × Option StorageError
unfolding next_sector_offset
stop_at_corrupt_tail catalog offset applied_records =
    if applied_records == 0
    then (record catalog { write_offset = offset }, some corrupt)
    else (record catalog { write_offset = next_sector_offset offset }, none)

-- One round of the loop of `scan_flash`: it returns, panics, or goes on at an offset with a record
-- more.
pub data ScanStep : Type 0 where
  returns : Catalog × Option StorageError → ScanStep
  panics : ScanStep
  continues : Catalog → ℕ → ℕ → ScanStep

unfoldable pub corrupt_record : Catalog → ℕ → ℕ → ScanStep
unfolding stop_at_corrupt_tail
corrupt_record catalog offset applied = returns (
    stop_at_corrupt_tail (record catalog { corrupt_records = add32 catalog.corrupt_records 1 })
      offset applied)

-- The largest size of a `Vec<u8>` on a target of 32 bits, `isize::MAX`: a larger one panics.
abbrev pub max_vec_bytes : ℕ
max_vec_bytes = 2 ^ 31 - 1

-- A buffer of no bytes is not read into.
unfoldable pub read_padded : ℕ → ℕ → StorageFlash → Option (List ℕ)
read_padded offset n flash =
    if n == 0 then some [] else read (storage_flash_offset + offset) n flash

abbrev applied_step : Catalog × Option StorageError → ℕ → ℕ → ScanStep
applied_step (catalog, some e) offset applied = returns (catalog, some e)
applied_step (catalog, none) offset applied =
    continues (record catalog { write_offset = offset }) offset applied

unfoldable pub scan_payload : StorageFlash → Catalog → JournalHeader → ℕ → ℕ → ℕ → List ℕ → ScanStep
scan_payload flash catalog r total_len offset applied padded =
    let payload = take r.payload_len padded in
    if not (crc32 payload == r.payload_crc)
    then corrupt_record catalog offset applied
    else applied_step (apply_record catalog r (add32 offset journal_record_header_bytes) payload)
        (add32 offset total_len) (applied + 1)

-- The buffer for the padded payload, of `n` bytes, is read.
unfoldable pub scan_buffer : ℕ → StorageFlash → Catalog → JournalHeader → ℕ → ℕ → ℕ → ScanStep
unfolding read_padded
scan_buffer n flash catalog r total_len offset applied =
    elim (read_padded (add32 offset journal_record_header_bytes) n flash) [
      | none ↦ returns (catalog, some flash_error)
      | some padded ↦ scan_payload flash catalog r total_len offset applied padded
    ]

-- The record's length, with its padding, is known and has passed the test against the flash's size,
-- in which it may have wrapped around. The buffer is made before anything is read into it.
unfoldable pub scan_sized : StorageFlash → Catalog → JournalHeader → ℕ → ℕ → ℕ → ScanStep
unfolding scan_buffer
scan_sized flash catalog r total_len offset applied =
    let padded_payload_len = sub32 total_len journal_record_header_bytes in
    if ltb max_vec_bytes padded_payload_len
    then panics
    else scan_buffer padded_payload_len flash catalog r total_len offset applied

unfoldable pub scan_record : StorageFlash → Catalog → JournalHeader → ℕ → ℕ → ScanStep
scan_record flash catalog r offset applied =
    let total_len = align4 (add32 journal_record_header_bytes r.payload_len) in
    if ltb storage_flash_bytes (add32 offset total_len)
    then corrupt_record catalog offset applied
    else scan_sized flash catalog r total_len offset applied

unfoldable pub scan_header : StorageFlash → Catalog → ℕ → ℕ → ScanStep
scan_header flash catalog offset applied =
    elim (read (storage_flash_offset + offset) journal_record_header_bytes flash) [
      | none ↦ returns (catalog, some flash_error)
      | some header ↦ elim (decode header) [
        | none ↦ corrupt_record catalog offset applied
        | some r ↦ scan_record flash catalog r offset applied
      ]
    ]

unfoldable pub scan_step : StorageFlash → Catalog → ℕ → ℕ → ScanStep
scan_step flash catalog offset applied = elim (read (storage_flash_offset + offset) 4 flash) [
  | none ↦ returns (catalog, some flash_error)
  | some word ↦
      if bytes_eq word erased_word
      then returns (record catalog { write_offset = offset }, none)
      else if not (from_le_bytes word == journal_record_magic)
      then corrupt_record catalog offset applied
      else scan_header flash catalog offset applied
]

-- What becomes of the loop: it returns, it panics, or the fuel of the model runs out before.
pub data ScanOutcome : Type 0 where
  returned : Catalog × Option StorageError → ScanOutcome
  scan_panicked out_of_fuel : ScanOutcome

unfoldable pub scan_loop : ℕ → StorageFlash → Catalog → ℕ → ℕ → ScanOutcome
scan_loop zero flash catalog offset applied = out_of_fuel
scan_loop (suc fuel) flash catalog offset applied =
    elim (leb (add32 offset journal_record_header_bytes) storage_flash_bytes) [
      | false ↦ returned (catalog, none)
      | true ↦ elim (scan_step flash catalog offset applied) [
        | returns result ↦ returned result
        | panics ↦ scan_panicked
        | continues catalog' offset' applied' ↦ scan_loop fuel flash catalog' offset' applied'
      ]
    ]

-- Every round moves on by a header at least, so the size of the flash is fuel enough.
unfoldable pub scan_flash : StorageFlash → Catalog → ScanOutcome
scan_flash flash catalog = scan_loop (storage_flash_bytes + 1) flash catalog 0 0

-- `Store` of src/storage/mod.rs.
pub record Store : Type 0 where
  pub flash : StorageFlash
  pub catalog : Catalog

-- `while record.len() % 4 != 0 { record.push(0xff) }`; three rounds are enough.
unfoldable pub pad4 : ℕ → List ℕ → List ℕ
pad4 zero bytes = bytes
pad4 (suc rounds) bytes =
    let rest = pad4 rounds (bytes ++ 0xff ∷ []) in if length bytes % 4 == 0 then bytes else rest

unfoldable pub verify_appended_record : StorageFlash → ℕ → List ℕ → Option StorageError
verify_appended_record flash offset expected =
    elim (read (storage_flash_offset + offset) (length expected) flash) [
      | none ↦ some flash_error
      | some actual ↦ if bytes_eq actual expected then none else some flash_error
    ]

abbrev pub make_header : ℕ → ℕ → ℕ → List ℕ → JournalHeader
make_header kind id generation payload = record {
  kind = kind;
  id = id;
  generation = generation;
  payload_len = length payload % 2 ^ 32;
  payload_crc = crc32 payload;
}

unfoldable pub write_record : Store → List ℕ → Store × Option StorageError
write_record s bytes = elim (write (storage_flash_offset + s.catalog.write_offset) bytes s.flash) [
  | none ↦ (s, some flash_error)
  | some written ↦ elim (verify_appended_record written s.catalog.write_offset bytes) [
    | some e ↦ (record s { flash = written }, some e)
    | none ↦ (
      record s {
        flash = written;
        catalog = record s.catalog {
          write_offset = add32 s.catalog.write_offset (length bytes % 2 ^ 32);
        };
      },
      none,
    )
  ]
]

unfoldable pub append_record : Store → ℕ → ℕ → ℕ → List ℕ → Store × Option StorageError
append_record s kind id generation payload =
    let total_len = align4 (add32 journal_record_header_bytes (length payload % 2 ^ 32)) in
    if s.catalog.needs_format
    then (s, some needs_format)
    else if ltb storage_flash_bytes (add32 s.catalog.write_offset total_len)
    then (s, some full)
    else write_record s (pad4 3 (encode (make_header kind id generation payload) ++ payload))
