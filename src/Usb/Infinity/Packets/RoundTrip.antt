-- ===== src/Usb/Infinity/Packets/RoundTrip.antt =====
-- `command_packet` of src/usb/infinity.rs and what the base reads in a packet.
use omniportal.Base.{
  ℕ, ◌+◌, ◌≤◌, ◌<◌, ◌≡◌, ◌∙◌, List, true, none, some, arith, length, get_or, set, splice,
  length-set, length-splice, slice, slice-splice, get_or-set_before, get_or-splice_before,
  slice-set_before,
}
use omniportal.Usb.Infinity.Packets.{
  Report, blank, checksum, seal, valid_command_packet, command_packet,
}
use omniportal.Usb.Infinity.Packets.Seal.{valid-seal}

-- What the host reads in a packet.
pub record IsCommand (command sequence : ℕ) (payload : List ℕ) (packet : Report) : Type 0 where
  pub starts : get_or packet 0 0 ≡ 0xff
  pub is_valid : valid_command_packet packet ≡ true
  pub has_command : get_or packet 2 0 ≡ command
  pub has_sequence : get_or packet 3 0 ≡ sequence
  pub has_payload : slice 4 (length payload) packet ≡ payload
  pub is_whole : length packet ≡ 32

abbrev head : ℕ → ℕ → ℕ → Report
head len command sequence = set (set (set (set blank 0 0xff) 1 len) 2 command) 3 sequence

-- A payload of up to 27 bytes makes a packet of 32 bytes that the base takes as valid, and that
-- holds the command, the sequence number and the payload where the base reads them.
pub command_packet-IsCommand :
    (command sequence : ℕ) (payload : List ℕ)
    → length payload ≤ 27
    → (packet : Report) × (command_packet command sequence payload ≡ some packet)
      × IsCommand command sequence payload packet
unfolding command_packet
command_packet-IsCommand command sequence payload h =
    let index = 2 + (length payload + 2) in
    let start = head (length payload + 2) command sequence in
    let body = splice 4 payload start in
    let size : length body ≡ 32 = length-splice 4 payload start in
    let before : (j : ℕ) → j < 4 → get_or (seal index body) j 0 ≡ get_or start j 0 = λ j lt.
      get_or-set_before body index j (checksum body index) 0 (omega arith)
      ∙ get_or-splice_before start payload 4 j 0 lt in
    (
      seal index body,
      ground arith,
      record {
        starts = before 0 (omega arith);
        is_valid = valid-seal body index size (omega arith) (omega arith);
        has_command = before 2 (omega arith);
        has_sequence = before 3 (omega arith);
        has_payload =
            slice-set_before 4 (length payload) index (checksum body index) body (omega arith)
            ∙ slice-splice 4 payload start (omega arith);
        is_whole = length-set body index (checksum body index) ∙ size;
      },
    )

-- A longer payload is refused.
pub command_packet_refuses :
    (command sequence : ℕ) (payload : List ℕ)
    → 27 < length payload
    → command_packet command sequence payload ≡ none
unfolding command_packet
command_packet_refuses command sequence payload h = ground arith
