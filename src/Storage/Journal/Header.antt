-- ===== src/Storage/Journal/Header.antt =====
-- `JournalHeader` of src/storage/journal.rs.
use omniportal.Base.{
  ℕ, ◌<◌, ◌^◌, ◌≡◌, refl, List, Option, none, some, ◌==◌, if◌then◌else◌, not, get_or, set, slice,
  splice, replicate, length,
}
use omniportal.Base.Bytes.{to_le_bytes, to_le_bytes16, from_le_bytes, from_le_bytes-to_le_bytes}
use omniportal.Storage.Records.{journal_record_magic, journal_record_header_bytes}

pub record JournalHeader : Type 0 where
  pub kind : ℕ
  pub id : ℕ
  pub generation : ℕ
  pub payload_len : ℕ
  pub payload_crc : ℕ

unfoldable pub encode : JournalHeader → List ℕ
unfolding to_le_bytes to_le_bytes16
encode h =
    let out = replicate journal_record_header_bytes 0 in
    let out = splice 0 (to_le_bytes journal_record_magic) out in
    let out = set out 4 h.kind in
    let out = set out 5 1 in
    let out = splice 6 (to_le_bytes16 journal_record_header_bytes) out in
    let out = splice 8 (to_le_bytes h.payload_len) out in
    let out = splice 12 (to_le_bytes h.id) out in
    let out = splice 16 (to_le_bytes h.generation) out in splice 20 (to_le_bytes h.payload_crc) out

unfoldable pub decode : List ℕ → Option JournalHeader
decode bytes =
    if not (from_le_bytes (slice 0 4 bytes) == journal_record_magic)
    then none
    else if not (get_or bytes 5 0 == 1)
    then none
    else some (record {
      kind = get_or bytes 4 0;
      id = from_le_bytes (slice 12 4 bytes);
      generation = from_le_bytes (slice 16 4 bytes);
      payload_len = from_le_bytes (slice 8 4 bytes);
      payload_crc = from_le_bytes (slice 20 4 bytes);
    })

-- The fields are `u32`s.
pub record IsHeader (h : JournalHeader) : Type 0 where
  pub id_lt : h.id < 2 ^ 32
  pub generation_lt : h.generation < 2 ^ 32
  pub payload_len_lt : h.payload_len < 2 ^ 32
  pub payload_crc_lt : h.payload_crc < 2 ^ 32

pub length-encode : (h : JournalHeader) → length (encode h) ≡ 24
unfolding encode
length-encode h = refl

pub magic-encode : (h : JournalHeader) → from_le_bytes (slice 0 4 (encode h)) ≡ journal_record_magic
unfolding encode from_le_bytes
magic-encode h = refl

-- A header whose id, generation, length and checksum are below 2^32 is read back, from the bytes
-- that are written for it, with all its fields.
pub decode-encode : (h : JournalHeader) → IsHeader h → decode (encode h) ≡ some h
unfolding decode encode
decode-encode h v =
    rw
      (
        magic-encode h,
        from_le_bytes-to_le_bytes h.id v.id_lt,
        from_le_bytes-to_le_bytes h.generation v.generation_lt,
        from_le_bytes-to_le_bytes h.payload_len v.payload_len_lt,
        from_le_bytes-to_le_bytes h.payload_crc v.payload_crc_lt,
      )
      refl
