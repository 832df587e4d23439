-- ===== src/Usb/Skylanders/Reports.antt =====
-- The reports of src/usb/skylanders.rs: 32 bytes each.
use mathlib.Core.List.{reverse}
use omniportal.Base.{
  ℕ, ◌*◌, ◌%◌, ◌^◌, List, [], ◌∷◌, Bool, Option, none, some, bit_or, ltb, if◌then◌else◌, set,
  splice, replicate, get_or_else,
}
use omniportal.Base.Bytes.{to_le_bytes, from_bool}
use omniportal.Usb.Skylanders.Slot.{SlotStatus, status_code}

abbrev pub report_bytes : ℕ
report_bytes = 32

abbrev pub max_figures : ℕ
max_figures = 16

abbrev pub first_figure_slot_id : ℕ
first_figure_slot_id = 0x10

abbrev pub Report : Type 0
Report = List ℕ

abbrev pub blank : Report
blank = replicate report_bytes 0

unfoldable pub figure_slot_id : ℕ → Option ℕ
figure_slot_id slot = if ltb slot max_figures then some (bit_or first_figure_slot_id slot) else none

-- One round of the loop over the slots, from the last to the first.
unfoldable pub shift_in : ℕ → SlotStatus → ℕ
shift_in bits status = bit_or (bits * 2 ^ 2 % 2 ^ 32) (status_code status)

unfoldable pub shift_all : ℕ → List SlotStatus → ℕ
unfolding shift_in
shift_all bits [] = bits
shift_all bits (status ∷ statuses) = shift_all (shift_in bits status) statuses

unfoldable pub status_report : List SlotStatus → ℕ → Bool → Report
unfolding shift_all to_le_bytes
status_report slots interrupt_counter active =
    let status_bits = shift_all 0 (reverse slots) in
    let report = set blank 0 b'S' in
    let report = splice 1 (to_le_bytes status_bits) report in
    let report = set report 5 interrupt_counter in set report 6 (from_bool active)

unfoldable pub activate_response : Bool → Report
activate_response active =
    let report = set blank 0 b'A' in
    let report = set report 1 (from_bool active) in
    let report = set report 2 0xff in set report 3 0x77

unfoldable pub ready_response : Report
ready_response =
    let report = set blank 0 b'R' in let report = set report 1 0x02 in set report 2 0x1b

unfoldable pub audio_firmware_response : ℕ → ℕ → Report
audio_firmware_response major minor =
    let report = set blank 0 b'M' in
    let report = set report 1 major in let report = set report 2 0x00 in set report 3 minor

unfoldable pub color_response : ℕ → ℕ → ℕ → Report
color_response red green blue =
    let report = set blank 0 b'C' in
    let report = set report 1 red in let report = set report 2 green in set report 3 blue

unfoldable pub query_response : ℕ → ℕ → List ℕ → Report
unfolding figure_slot_id
query_response slot block bytes =
    let report = set blank 0 b'Q' in
    let report = set report 1 (get_or_else (figure_slot_id slot) 0x01) in
    let report = set report 2 block in splice 3 bytes report

unfoldable pub query_error_response : ℕ → Report
query_error_response block =
    let report = set blank 0 b'Q' in let report = set report 1 0x01 in set report 2 block

unfoldable pub write_response : ℕ → ℕ → Bool → Report
unfolding figure_slot_id
write_response slot block ok =
    let report = set blank 0 b'W' in
    let report = set report 1 (if ok then get_or_else (figure_slot_id slot) 0x01 else 0x01) in
    set report 2 block

unfoldable pub ack_response : ℕ → Report
ack_response op = set blank 0 op
