-- ===== src/Usb/Infinity/Examples.antt =====
-- Packets and states on which the theorems on src/usb/infinity.rs apply.
use omniportal.Base.{
  ℕ, ◌≡◌, refl, List, [], ◌∷◌, ◌++◌, true, none, some, arith, length, replicate, take, splice, map,
}
use omniportal.Usb.Infinity.Position.{player_one, index}
use omniportal.Usb.Infinity.Packets.{
  Report, command_packet, valid_command_packet, checksum, fold_bytes, response_head, seal,
}
use omniportal.Usb.Infinity.Packets.RoundTrip.{IsCommand, command_packet-IsCommand}
use omniportal.Usb.Infinity.{
  InfinityBaseState, FigureSlot, new_state, new_slot, load_figure, add_figure, push_change_response,
  remove_figure, figure_position_by_order, figure_at, find_order, command_block_to_file_block,
  pop_change_response,
}
use omniportal.Usb.Infinity.Commands.{
  CommandResponse, handle_command_packet, respond, present_figures_response, query_block_response,
  write_block_response,
}
use omniportal.Usb.Infinity.Sealed.{handle_command_packet-IsSealed}
use omniportal.Usb.Infinity.Queue.{pops, pushes, pops-pushes}
use omniportal.Usb.Infinity.Orders.{
  IsBase, new_state-IsBase, load_figure-IsBase, remove_figure-IsBase,
}
use omniportal.Usb.Infinity.Lookup.{figure_position_by_order-order_added}
use omniportal.Usb.Infinity.Blocks.{query_block_response-write_block_response}

-- The request for the list of the figures.
abbrev list_request : Report
list_request = 0xff ∷ 0x02 ∷ 0xa1 ∷ 0x05 ∷ 0xa7 ∷ replicate 27 0

abbrev list_answer : CommandResponse
list_answer = record { echo = list_request; response = present_figures_response 5 new_state }

list_answered : (handle_command_packet list_request new_state).1 ≡ some list_answer
unfolding handle_command_packet respond valid_command_packet checksum fold_bytes
list_answered = refl

nine_figures : length new_state.figures ≡ 9
unfolding new_state
nine_figures = refl

handle_command_packet-IsSealed_example :
    valid_command_packet (present_figures_response 5 new_state) ≡ true
handle_command_packet-IsSealed_example =
    handle_command_packet-IsSealed list_request new_state list_answer nine_figures list_answered

command_packet-IsCommand_example :
    (packet : Report) × (command_packet 0xa2 5 (1 ∷ 2 ∷ []) ≡ some packet)
    × IsCommand 0xa2 5 (1 ∷ 2 ∷ []) packet
command_packet-IsCommand_example = command_packet-IsCommand 0xa2 5 (1 ∷ 2 ∷ []) (omega arith)

abbrev two_changes : List Report
two_changes = response_head 1 2 ∷ response_head 3 4 ∷ []

abbrev changed : InfinityBaseState
changed = record new_state { queued_changes = map some two_changes ++ replicate 1 none }

abbrev third_change : Report
third_change = 3 ∷ []

abbrev fourth_change : Report
fourth_change = 4 ∷ []

-- A queue with one free place, and two more changes: the last one is lost.
abbrev after_pushes : InfinityBaseState
after_pushes = record changed {
  queued_changes = pushes (third_change ∷ fourth_change ∷ []) changed.queued_changes;
}

pops-pushes_example :
    ((pops 3 after_pushes).1 ≡ map some (two_changes ++ third_change ∷ []))
    × ((pop_change_response (pops 3 after_pushes).0).1 ≡ none)
pops-pushes_example = pops-pushes 1 two_changes (third_change ∷ fourth_change ∷ []) changed refl

abbrev image : List ℕ
image = replicate 320 7

abbrev loaded : InfinityBaseState
loaded = (load_figure player_one image new_state).0

load_figure-IsBase_example : IsBase loaded
load_figure-IsBase_example = load_figure-IsBase player_one image new_state new_state-IsBase

loaded-IsBase : IsBase loaded
loaded-IsBase = load_figure-IsBase player_one image new_state new_state-IsBase

remove_figure-IsBase_example : IsBase (remove_figure player_one loaded)
remove_figure-IsBase_example = remove_figure-IsBase player_one loaded loaded-IsBase

loaded_present : (figure_at player_one loaded).present ≡ true
unfolding load_figure add_figure push_change_response new_state new_slot index
loaded_present = refl

loaded_order : (figure_at player_one loaded).order_added ≡ 0
unfolding load_figure add_figure push_change_response new_state new_slot index
loaded_order = refl

figure_position_by_order-order_added_example :
    figure_position_by_order (figure_at player_one loaded).order_added loaded ≡ some player_one
figure_position_by_order-order_added_example =
    figure_position_by_order-order_added player_one loaded loaded-IsBase loaded_present
      (λ e. omega (arith, e, loaded_order))

abbrev figure : FigureSlot
figure = record { present = true; order_added = 0; figure_data = image }

abbrev one_figure : InfinityBaseState
one_figure = record new_state { figures = figure ∷ [] }

abbrev written_block : List ℕ
written_block = replicate 16 9

query_block_response-write_block_response_example :
    query_block_response 0 1 5 (write_block_response 0 1 written_block 5 one_figure).0
    ≡ seal 20 (splice 4 (take 16 written_block) (response_head 0x12 5))
unfolding find_order command_block_to_file_block
query_block_response-write_block_response_example =
    query_block_response-write_block_response one_figure 0 1 5 written_block 0 4 figure refl refl
      refl refl (omega arith)
