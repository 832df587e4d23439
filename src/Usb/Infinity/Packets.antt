-- ===== src/Usb/Infinity/Packets.antt =====
-- Packets of the Infinity base, 32 bytes with a checksum behind their payload: `checksum`,
-- `valid_command_packet`, `command_packet` and `blank_response` of src/usb/infinity.rs.
pub mod Seal
pub mod RoundTrip
use omniportal.Base.{
  ℕ, ◌+◌, List, [], ◌∷◌, Bool, false, ◌&&◌, Option, none, some, ltb, leb, ◌==◌, if◌then◌else◌,
  length, get_or, set, take, splice, replicate,
}
use omniportal.Base.Bytes.{add8}

abbrev pub report_bytes : ℕ
report_bytes = 32

abbrev pub Report : Type 0
Report = List ℕ

abbrev pub blank : Report
blank = replicate report_bytes 0

-- `fold(0, wrapping_add)`.
unfoldable pub fold_bytes : ℕ → List ℕ → ℕ
fold_bytes sum [] = sum
fold_bytes sum (byte ∷ bytes) = fold_bytes (add8 sum byte) bytes

unfoldable pub checksum : Report → ℕ → ℕ
unfolding fold_bytes
checksum report bytes = fold_bytes 0 (take bytes report)

-- `report[index] = checksum(&report, index)`.
abbrev pub seal : ℕ → Report → Report
seal index report = set report index (checksum report index)

unfoldable pub valid_command_packet : Report → Bool
valid_command_packet packet =
    let checksum_index = 2 + get_or packet 1 0 in
    ltb checksum_index report_bytes
    && (get_or packet checksum_index 0 == checksum packet checksum_index)

unfoldable pub command_packet : ℕ → ℕ → List ℕ → Option Report
command_packet command sequence payload =
    let len = length payload + 2 in
    let checksum_index = 2 + len in
    if leb report_bytes checksum_index
    then none
    else let packet = set blank 0 0xff in
      let packet = set packet 1 len in
      let packet = set packet 2 command in
      let packet = set packet 3 sequence in
      let packet = splice 4 payload packet in some (seal checksum_index packet)

-- `[0xaa, len, sequence]` at the start of a report.
abbrev pub response_head : ℕ → ℕ → Report
response_head len sequence = set (set (set blank 0 0xaa) 1 len) 2 sequence

unfoldable pub blank_response : ℕ → Report
unfolding checksum
blank_response sequence = seal 3 (response_head 0x01 sequence)
