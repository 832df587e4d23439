-- ===== src/Usb/Infinity/Commands.antt =====
-- The responses of the Infinity base and `handle_command_packet` of src/usb/infinity.rs.
use omniportal.Base.{
  ℕ, ◌+◌, ◌-◌, ◌*◌, ◌/◌, ◌%◌, ◌^◌, List, [], ◌∷◌, not, ◌||◌, Option, none, some, leb, ◌==◌,
  if◌then◌else◌, length, get_elem?, get_or, set, take, slice, splice,
}
use omniportal.Base.Bytes.{add8}
use omniportal.Usb.Infinity.Position.{figure_position_from_index, presence_position_byte}
use omniportal.Usb.Infinity.Packets.{
  Report, report_bytes, blank, checksum, seal, response_head, blank_response, valid_command_packet,
}
use omniportal.Usb.Infinity.Random.{next_random, generate_seed, scramble, descramble}
use omniportal.Usb.Infinity.{
  FigureSlot, InfinityBaseState, figure_block_bytes, find_order, figure_by_order,
  command_block_to_file_block,
}

unfoldable pub activate_response : Report
activate_response =
    0xaa ∷ 0x15 ∷ 0x00 ∷ 0x00 ∷ 0x0f ∷ 0x01 ∷ 0x00 ∷ 0x03 ∷ 0x02 ∷ 0x09 ∷ 0x09 ∷ 0x43 ∷ 0x20 ∷ 0x32
    ∷ 0x62 ∷ 0x36 ∷ 0x36 ∷ 0x4b ∷ 0x34 ∷ 0x99 ∷ 0x67 ∷ 0x31 ∷ 0x93 ∷ 0x8c ∷ 0x00 ∷ 0x00 ∷ 0x00
    ∷ 0x00 ∷ 0x00 ∷ 0x00 ∷ 0x00 ∷ 0x00 ∷ []

-- One round of the loop of `present_figures_response`: the cursor and the report afterwards.
unfoldable pub list_figure : ℕ → FigureSlot → ℕ → Report → ℕ × Report
unfolding figure_position_from_index presence_position_byte
list_figure i figure cursor report =
    if not figure.present || leb report_bytes (cursor + 1)
    then (cursor, report)
    else elim (figure_position_from_index i) [
      | none ↦ (cursor, report)
      | some position ↦ (
        cursor + 2,
        set (set report cursor (add8 (presence_position_byte position) figure.order_added))
            (cursor + 1) 0x09,
      )
    ]

unfoldable pub list_figures : ℕ → List FigureSlot → ℕ × Report → ℕ × Report
unfolding list_figure
list_figures i [] at = at
list_figures i (figure ∷ figures) at = list_figures (i + 1) figures (list_figure i figure at.0 at.1)

abbrev pub finish_listing : ℕ → ℕ × Report → Report
finish_listing sequence (cursor, report) =
    seal cursor (set (set (set report 0 0xaa) 1 (cursor - 2)) 2 sequence)

unfoldable pub present_figures_response : ℕ → InfinityBaseState → Report
unfolding list_figures checksum
present_figures_response sequence state =
    finish_listing sequence (list_figures 0 state.figures (3, blank))

unfoldable pub figure_identifier_response : ℕ → ℕ → InfinityBaseState → Report
unfolding figure_by_order checksum
figure_identifier_response order_added sequence state =
    let report = response_head 0x09 sequence in
    seal 11 (elim (figure_by_order order_added state.figures) [
      | none ↦ report
      | some figure ↦ splice 4 (take 7 figure.figure_data) report
    ])

-- The bytes of a block of a figure's data.
abbrev pub file_block_of : ℕ → List ℕ → List ℕ
file_block_of file_block bytes = slice (file_block * figure_block_bytes) figure_block_bytes bytes

unfoldable pub query_block_response : ℕ → ℕ → ℕ → InfinityBaseState → Report
unfolding figure_by_order checksum command_block_to_file_block
query_block_response order_added block sequence state =
    let report = response_head 0x12 sequence in
    seal 20 (elim (figure_by_order order_added state.figures) [
      | none ↦ report
      | some figure ↦ elim (command_block_to_file_block block) [
        | none ↦ report
        | some file_block ↦ splice 4 (file_block_of file_block figure.figure_data) report
      ]
    ])

-- The data of the present figure with that order is changed.
unfoldable pub write_figure : ℕ → ℕ → List ℕ → List FigureSlot → List FigureSlot
unfolding find_order command_block_to_file_block
write_figure order_added block bytes figures = elim (find_order order_added figures) [
  | none ↦ figures
  | some i ↦ elim (get_elem? figures i) [
    | none ↦ figures
    | some figure ↦ elim (command_block_to_file_block block) [
      | none ↦ figures
      | some file_block ↦ set figures i (record figure {
        figure_data =
            splice (file_block * figure_block_bytes) (take figure_block_bytes bytes)
              figure.figure_data;
      })
    ]
  ]
]

unfoldable pub write_block_response :
    ℕ → ℕ → List ℕ → ℕ → InfinityBaseState → InfinityBaseState × Report
unfolding write_figure checksum
write_block_response order_added block bytes sequence state =
    let report = seal 4 (response_head 0x02 sequence) in
    let figures = write_figure order_added block bytes state.figures in
    if leb figure_block_bytes (length bytes)
    then (record state { figures = figures }, report)
    else (state, report)

-- `u64::from_be_bytes` of eight bytes.
unfoldable pub from_be_bytes : ℕ → List ℕ → ℕ
from_be_bytes n [] = n
from_be_bytes n (byte ∷ bytes) = from_be_bytes (n * 256 + byte) bytes

-- `u64::to_be_bytes`.
unfoldable pub to_be_bytes : ℕ → List ℕ
to_be_bytes n =
    n / 2 ^ 56 % 256
    ∷ n / 2 ^ 48 % 256
    ∷ n / 2 ^ 40 % 256
    ∷ n / 2 ^ 32 % 256
    ∷ n / 2 ^ 24 % 256
    ∷ n / 2 ^ 16 % 256
    ∷ n / 2 ^ 8 % 256
    ∷ n % 256
    ∷ []

unfoldable pub descramble_and_seed_response :
    Report → ℕ → InfinityBaseState → InfinityBaseState × Report
unfolding from_be_bytes descramble generate_seed blank_response
descramble_and_seed_response packet sequence state = (
  record state { random = generate_seed (descramble (from_be_bytes 0 (slice 4 8 packet))) },
  blank_response sequence,
)

unfoldable pub next_random_response : ℕ → InfinityBaseState → InfinityBaseState × Report
unfolding to_be_bytes scramble next_random checksum
next_random_response sequence state =
    let drawn = next_random state.random in
    (
      record state { random = drawn.0 },
      seal 11 (splice 3 (to_be_bytes (scramble drawn.1 0)) (response_head 0x09 sequence)),
    )

pub record CommandResponse : Type 0 where
  pub echo : Report
  pub response : Report

-- The `match` on the command. Every command that it does not name gets a blank response.
unfoldable pub respond : Report → InfinityBaseState → InfinityBaseState × Report
unfolding activate_response descramble_and_seed_response next_random_response
    present_figures_response query_block_response write_block_response figure_identifier_response
    blank_response
respond packet state =
    let command = get_or packet 2 0 in
    let sequence = get_or packet 3 0 in
    let order = get_or packet 4 0 in
    let block = get_or packet 5 0 in
    if command == 0x80
    then (state, activate_response)
    else if command == 0x81
    then descramble_and_seed_response packet sequence state
    else if command == 0x83
    then next_random_response sequence state
    else if command == 0xa1
    then (state, present_figures_response sequence state)
    else if command == 0xa2
    then (state, query_block_response order block sequence state)
    else if command == 0xa3
    then write_block_response order block (slice 7 16 packet) sequence state
    else if command == 0xb4
    then (state, figure_identifier_response order sequence state)
    else (state, blank_response sequence)

unfoldable pub handle_command_packet :
    Report → InfinityBaseState → InfinityBaseState × Option CommandResponse
unfolding respond valid_command_packet
handle_command_packet packet state =
    if not (get_or packet 0 0 == 0xff) || not (valid_command_packet packet)
    then (state, none)
    else let answer = respond packet state in
      (answer.0, some (record { echo = packet; response = answer.1 }))
