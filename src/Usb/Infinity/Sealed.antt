-- ===== src/Usb/Infinity/Sealed.antt =====
-- The checksums of the responses of `handle_command_packet` in src/usb/infinity.rs.
use mathlib.Core.Path.{subst}
use mathlib.Core.Option.{some-injective}
use omniportal.Base.{
  if◌then◌else◌, if_keeps, ◌-◌, ℕ, ◌+◌, ◌*◌, ◌≤◌, ◌<◌, ◌≡◌, refl, ◌∙◌, List, [], ◌∷◌, Bool, true,
  false, Option, none, some, arith, length, get_or, set, take, splice, length-set, length-splice,
  leb, not, ◌||◌, ◌==◌, Bool-cases, Option-cases, inl, inr, slice, get_or-set_self,
  get_or-set_before, get_or-splice_before,
}
use omniportal.Usb.Infinity.Position.{figure_position_from_index}
use omniportal.Usb.Infinity.Packets.{
  Report, blank, checksum, seal, valid_command_packet, blank_response, response_head,
}
use omniportal.Usb.Infinity.Random.{scramble, next_random}
use omniportal.Usb.Infinity.Packets.Seal.{valid-seal}
use omniportal.Usb.Infinity.{
  FigureSlot, InfinityBaseState, figure_by_order, command_block_to_file_block,
}
use omniportal.Usb.Infinity.Commands.{
  activate_response, list_figure, list_figures, present_figures_response,
  figure_identifier_response, query_block_response, write_block_response, next_random_response,
  respond, handle_command_packet, CommandResponse, to_be_bytes, finish_listing,
}

abbrev IsSealed : Report → Type 0
IsSealed report = valid_command_packet report ≡ true

blank_response-IsSealed : (sequence : ℕ) → IsSealed (blank_response sequence)
unfolding blank_response
blank_response-IsSealed sequence = valid-seal (response_head 1 sequence) 3 refl refl (omega arith)

-- A body behind the head, and the checksum behind the body.
seal-IsSealed :
    (len sequence off : ℕ) (body : List ℕ)
    → 1 < off
    → len < 30
    → IsSealed (seal (2 + len) (splice off body (response_head len sequence)))
seal-IsSealed len sequence off body h lt =
    valid-seal (splice off body (response_head len sequence)) (2 + len)
      (length-splice off body (response_head len sequence))
      (ground (arith, get_or-splice_before (response_head len sequence) body off 1 0 h))
      (omega arith)

figure_identifier_response-IsSealed :
    (order sequence : ℕ) (state : InfinityBaseState)
    → IsSealed (figure_identifier_response order sequence state)
unfolding figure_identifier_response
figure_identifier_response-IsSealed order sequence state =
    elim (Option-cases (figure_by_order order state.figures)) [
      | inl e ↦
          rw (e, figure_identifier_response)
            (valid-seal (response_head 9 sequence) 11 refl refl (omega arith))
      | inr (figure, e) ↦
          rw (e, figure_identifier_response)
            (seal-IsSealed 9 sequence 4 (take 7 figure.figure_data) (omega arith) (omega arith))
    ]

query_block_response-IsSealed :
    (order block sequence : ℕ) (state : InfinityBaseState)
    → IsSealed (query_block_response order block sequence state)
unfolding query_block_response
query_block_response-IsSealed order block sequence state =
    let empty = valid-seal (response_head 0x12 sequence) 20 refl refl (omega arith) in
    elim (Option-cases (figure_by_order order state.figures)) [
      | inl e ↦ rw (e, query_block_response) empty
      | inr (figure, e) ↦ elim (Option-cases (command_block_to_file_block block)) [
        | inl f ↦ rw (e, f, query_block_response) empty
        | inr (file_block, f) ↦
            rw (e, f, query_block_response)
              (seal-IsSealed 0x12 sequence 4 (slice (file_block * 16) 16 figure.figure_data)
                (omega arith) (omega arith))
      ]
    ]

write_block_response-IsSealed :
    (order block : ℕ) (bytes : List ℕ) (sequence : ℕ) (state : InfinityBaseState)
    → IsSealed (write_block_response order block bytes sequence state).1
unfolding write_block_response
write_block_response-IsSealed order block bytes sequence state =
    let head = valid-seal (response_head 0x02 sequence) 4 refl refl (omega arith) in
    elim (Bool-cases (leb 16 (length bytes))) [
      | inl e ↦ rw (e, write_block_response) head
      | inr e ↦ rw (e, write_block_response) head
    ]

next_random_response-IsSealed :
    (sequence : ℕ) (state : InfinityBaseState) → IsSealed (next_random_response sequence state).1
unfolding next_random_response
next_random_response-IsSealed sequence state =
    seal-IsSealed 0x09 sequence 3 (to_be_bytes (scramble (next_random state.random).1 0))
      (omega arith) (omega arith)

-- The listing grows by two bytes for each place, from the fourth byte on, and never past the
-- end of the report.
abbrev IsListing : ℕ → ℕ × Report → Type 0
IsListing n (cursor, report) = (2 < cursor) × (cursor ≤ 3 + 2 * n) × (length report ≡ 32)

list_figure-IsListing :
    (n i : ℕ) (figure : FigureSlot) (cursor : ℕ) (report : Report)
    → IsListing n (cursor, report)
    → IsListing (n + 1) (list_figure i figure cursor report)
unfolding list_figure
list_figure-IsListing n i figure cursor report h =
    elim (Bool-cases (not figure.present || leb 32 (cursor + 1))) [
      | inl e ↦ rw (e, list_figure) (h.0, omega (arith, h.1), h.2)
      | inr e ↦ elim (Option-cases (figure_position_from_index i)) [
        | inl f ↦ rw (e, f, list_figure) (h.0, omega (arith, h.1), h.2)
        | inr (position, f) ↦
            rw (e, f, list_figure)
              (
                omega (arith, h.0),
                omega (arith, h.1),
                length-set _ (cursor + 1) 0x09 ∙ length-set report cursor _ ∙ h.2,
              )
      ]
    ]

list_figures-IsListing :
    (n i : ℕ) (figures : List FigureSlot) (at : ℕ × Report)
    → IsListing n at
    → IsListing (n + length figures) (list_figures i figures at)
unfolding list_figures
list_figures-IsListing n i [] at h = (h.0, omega (arith, h.1), h.2)
list_figures-IsListing n i (figure ∷ figures) at h =
    let next = list_figure-IsListing n i figure at.0 at.1 h in
    let rest =
      list_figures-IsListing (n + 1) (i + 1) figures (list_figure i figure at.0 at.1) next in
    (rest.0, omega (arith, rest.1), rest.2)

seal_listing-IsSealed :
    (sequence : ℕ) (listing : ℕ × Report)
    → 2 < listing.0
    → listing.0 < 32
    → length listing.1 ≡ 32
    → IsSealed (finish_listing sequence listing)
seal_listing-IsSealed sequence (cursor, report) low high size =
    let start = set report 0 0xaa in
    let counted = set start 1 (cursor - 2) in
    let one : get_or (set counted 2 sequence) 1 0 ≡ cursor - 2 =
      get_or-set_before counted 2 1 sequence 0 (omega arith)
      ∙ get_or-set_self start 1 (cursor - 2) 0 (omega (arith, length-set report 0 0xaa)) in
    valid-seal (set counted 2 sequence) cursor
      (length-set counted 2 sequence
        ∙ length-set start 1 (cursor - 2)
        ∙ length-set report 0 0xaa
        ∙ size)
      (omega arith) high

present_figures_response-IsSealed :
    (sequence : ℕ) (state : InfinityBaseState)
    → length state.figures ≡ 9
    → IsSealed (present_figures_response sequence state)
unfolding present_figures_response
present_figures_response-IsSealed sequence state size =
    let listing =
      list_figures-IsListing 0 0 state.figures (3, blank) (omega arith, omega arith, refl) in
    seal_listing-IsSealed sequence (list_figures 0 state.figures (3, blank)) listing.0
      (omega (arith, listing.1)) listing.2

activate_response-IsSealed : IsSealed activate_response
unfolding activate_response valid_command_packet checksum
activate_response-IsSealed = refl

abbrev AnswerIsSealed : InfinityBaseState × Report → Type 0
AnswerIsSealed answer = IsSealed answer.1

respond-IsSealed :
    (packet : Report) (state : InfinityBaseState)
    → length state.figures ≡ 9
    → IsSealed (respond packet state).1
unfolding respond
respond-IsSealed packet state size =
    let command = get_or packet 2 0 in
    let sequence = get_or packet 3 0 in
    let order = get_or packet 4 0 in
    let block = get_or packet 5 0 in
    if_keeps AnswerIsSealed (command == 0x80) _ _ (activate_response-IsSealed) (
      if_keeps AnswerIsSealed (command == 0x81) _ _ (blank_response-IsSealed sequence) (
        if_keeps AnswerIsSealed (command == 0x83) _ _ (next_random_response-IsSealed sequence state)
          (if_keeps AnswerIsSealed (command == 0xa1) _ _
            (present_figures_response-IsSealed sequence state size)
            (if_keeps AnswerIsSealed (command == 0xa2) _ _
              (query_block_response-IsSealed order block sequence state)
              (if_keeps AnswerIsSealed (command == 0xa3) _ _
                (write_block_response-IsSealed order block (slice 7 16 packet) sequence state)
                (if_keeps AnswerIsSealed (command == 0xb4) _ _
                  (figure_identifier_response-IsSealed order sequence state)
                  (blank_response-IsSealed sequence)))))))

answer_of-IsSealed :
    (refused : Bool) (packet : Report) (state : InfinityBaseState)
    (answered : InfinityBaseState × Report) (answer : CommandResponse)
    → AnswerIsSealed answered
    → (if◌then◌else◌ {A = InfinityBaseState × Option CommandResponse} refused
        (state, none)
        (answered.0, some (record { echo = packet; response = answered.1 }))).1
      ≡ some answer
    → IsSealed answer.response
answer_of-IsSealed true packet state answered answer sealed h = absurd (ground arith)
answer_of-IsSealed false packet state answered answer sealed h =
    subst (λ a. IsSealed a.response) (some-injective _ _ h) sealed

-- In a state with nine places, whatever packet the base answers, its response passes the test
-- that the base puts the host's packets to: it has the right checksum behind its payload.
pub handle_command_packet-IsSealed :
    (packet : Report) (state : InfinityBaseState) (answer : CommandResponse)
    → length state.figures ≡ 9
    → (handle_command_packet packet state).1 ≡ some answer
    → IsSealed answer.response
unfolding handle_command_packet
handle_command_packet-IsSealed packet state answer size h =
    answer_of-IsSealed (not (get_or packet 0 0 == 0xff) || not (valid_command_packet packet)) packet
      state (respond packet state) answer (respond-IsSealed packet state size) h
