-- ===== src/Storage/Journal/Config/RoundTrip.antt =====
-- `encode_config` and `decode_config` of src/storage/journal.rs together.
use mathlib.Core.List.{append_assoc}
use omniportal.Base.{
  ℕ, ◌+◌, ◌*◌, ◌<◌, ◌^◌, ◌≡◌, refl, sym, ap, ap₂, ◌∙◌, List, [], ◌∷◌, ◌++◌, Option, none, some,
  slice, splice, replicate, length, get_or_else, arith, length-splice, length-append, splice-append,
  slice-append,
}
use omniportal.Base.Bytes.{to_le_bytes, from_le_bytes, from_le_bytes-to_le_bytes}
use omniportal.Domain.{GameLine, game_line_as_u8}
use omniportal.Domain.Codes.{game_line_from_u8-as_u8}
use omniportal.Storage.Records.{RecordId}
use omniportal.Storage.Journal.Config.{
  write_slots, read_slots, nonzero, encode_config, decode_config,
}

-- The ids in the slots are `u32`s, and not 0, which stands for an empty slot.
abbrev pub SlotsFit : List (Option RecordId) → Type 0
SlotsFit [] = Unit
SlotsFit (none ∷ slots) = SlotsFit slots
SlotsFit (some id ∷ slots) = (0 < id) × (id < 2 ^ 32) × SlotsFit slots

slot_bytes : List (Option RecordId) → List ℕ
slot_bytes [] = []
slot_bytes (s ∷ slots) = to_le_bytes (get_or_else s 0) ++ slot_bytes slots

length-to_le_bytes : (n : ℕ) → length (to_le_bytes n) ≡ 4
unfolding to_le_bytes
length-to_le_bytes n = refl

splice_at :
    (off : ℕ) (pre src old post : List ℕ)
    → length pre ≡ off
    → length src ≡ length old
    → splice off src (pre ++ (old ++ post)) ≡ pre ++ (src ++ post)
splice_at off pre src old post h e = rw (← h) (splice-append pre src old post e)

slice_at :
    (off : ℕ) (pre xs post : List ℕ)
    → length pre ≡ off
    → slice off (length xs) (pre ++ (xs ++ post)) ≡ xs
slice_at off pre xs post h = rw (← h) (slice-append pre xs post)

write_slots-append :
    (slot : ℕ) (slots : List (Option RecordId)) (pre old : List ℕ)
    → length pre ≡ 8 + slot * 4
    → length old ≡ 4 * length slots
    → write_slots slot slots (pre ++ old) ≡ pre ++ slot_bytes slots
unfolding write_slots slot_bytes
write_slots-append slot [] pre [] h e = refl
write_slots-append slot [] pre (a ∷ old) h e = absurd (omega arith)
write_slots-append slot (s ∷ slots) pre [] h e = absurd (omega arith)
write_slots-append slot (s ∷ slots) pre (a ∷ []) h e = absurd (omega arith)
write_slots-append slot (s ∷ slots) pre (a ∷ b ∷ []) h e = absurd (omega arith)
write_slots-append slot (s ∷ slots) pre (a ∷ b ∷ c ∷ []) h e = absurd (omega arith)
write_slots-append slot (s ∷ slots) pre (a ∷ b ∷ c ∷ d ∷ old) h e =
    let four = to_le_bytes (get_or_else s 0) in
    let size = length-to_le_bytes (get_or_else s 0) in
    ap (write_slots (slot + 1) slots) (
      splice_at (8 + slot * 4) pre four (a ∷ b ∷ c ∷ d ∷ []) old h size
      ∙ sym (append_assoc pre four old))
    ∙ write_slots-append (slot + 1) slots (pre ++ four) old
        (omega (arith, length-append pre four, size)) (omega arith)
    ∙ append_assoc pre four (slot_bytes slots)

nonzero-get_or_else :
    (s : Option RecordId) (slots : List (Option RecordId))
    → SlotsFit (s ∷ slots)
    → nonzero (from_le_bytes (to_le_bytes (get_or_else s 0))) ≡ s
nonzero-get_or_else none slots h = rw (from_le_bytes-to_le_bytes 0 (omega arith))
nonzero-get_or_else (some id) slots h = rw (from_le_bytes-to_le_bytes id h.1) (ground arith)

SlotsFit-tail :
    (s : Option RecordId) (slots : List (Option RecordId)) → SlotsFit (s ∷ slots) → SlotsFit slots
SlotsFit-tail none slots h = h
SlotsFit-tail (some id) slots h = h.2

read_slots-append :
    (slot : ℕ) (slots : List (Option RecordId)) (pre : List ℕ)
    → SlotsFit slots
    → length pre ≡ 8 + slot * 4
    → read_slots 8 slot (length slots) (pre ++ slot_bytes slots) ≡ slots
unfolding read_slots slot_bytes to_le_bytes
read_slots-append slot [] pre v h = refl
read_slots-append slot (s ∷ slots) pre v h =
    let four = to_le_bytes (get_or_else s 0) in
    let size = length-to_le_bytes (get_or_else s 0) in
    ap₂ ◌∷◌
      (ap (λ bytes. nonzero (from_le_bytes bytes))
          (slice_at (8 + slot * 4) pre four (slot_bytes slots) h)
        ∙ nonzero-get_or_else s slots v)
      (ap (read_slots 8 (slot + 1) (length slots)) (sym (append_assoc pre four (slot_bytes slots)))
        ∙ read_slots-append (slot + 1) slots (pre ++ four) (SlotsFit-tail s slots v)
            (omega (arith, length-append pre four, size)))

read_slots-count :
    (n : ℕ) (slots : List (Option RecordId)) (pre : List ℕ)
    → length slots ≡ n
    → SlotsFit slots
    → length pre ≡ 8
    → read_slots 8 0 n (pre ++ slot_bytes slots) ≡ slots
read_slots-count n slots pre e v h = rw (← e) (read_slots-append 0 slots pre v h)

-- The first eight bytes of the configuration.
abbrev config_head : GameLine → List ℕ
config_head mode = b'S' ∷ b'L' ∷ b'T' ∷ b'1' ∷ game_line_as_u8 mode ∷ 0 ∷ 0 ∷ 0 ∷ []

length-slot_bytes : (slots : List (Option RecordId)) → length (slot_bytes slots) ≡ 4 * length slots
unfolding slot_bytes
length-slot_bytes [] = refl
length-slot_bytes (s ∷ slots) = omega (
  arith,
  length-append (to_le_bytes (get_or_else s 0)) (slot_bytes slots),
  length-to_le_bytes (get_or_else s 0),
  length-slot_bytes slots,
)

encode_config-append :
    (slots : List (Option RecordId)) (mode : GameLine)
    → length slots ≡ 16
    → encode_config slots mode ≡ config_head mode ++ slot_bytes slots
unfolding encode_config
encode_config-append slots mode h =
    write_slots-append 0 slots (config_head mode) (replicate 64 0) refl (omega arith)

-- The bytes that are written for sixteen slots and a mode are read back as these, if the ids in the
-- slots are positive and below 2^32.
pub decode_config-encode_config :
    (slots : List (Option RecordId)) (mode : GameLine)
    → length slots ≡ 16
    → SlotsFit slots
    → decode_config (encode_config slots mode) ≡ record { active_slots = slots; usb_mode = mode }
unfolding decode_config
decode_config-encode_config slots mode size v =
    let read = read_slots-count 16 slots (config_head mode) size v refl in
    rw (encode_config-append slots mode size)
      (ground (arith, read, length-slot_bytes slots, game_line_from_u8-as_u8 mode))

length-write_slots :
    (slot : ℕ) (slots : List (Option RecordId)) (out : List ℕ)
    → length (write_slots slot slots out) ≡ length out
unfolding write_slots
length-write_slots slot [] out = refl
length-write_slots slot (s ∷ slots) out =
    length-write_slots (slot + 1) slots (splice (8 + slot * 4) (to_le_bytes (get_or_else s 0)) out)
    ∙ length-splice (8 + slot * 4) (to_le_bytes (get_or_else s 0)) out

pub length-encode_config :
    (slots : List (Option RecordId)) (mode : GameLine) → length (encode_config slots mode) ≡ 72
unfolding encode_config
length-encode_config slots mode = length-write_slots 0 slots _
