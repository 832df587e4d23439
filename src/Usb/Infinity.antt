-- ===== src/Usb/Infinity.antt =====
-- `InfinityBaseState` and `handle_command_packet` of src/usb/infinity.rs: nine places, the queue of
-- the changes that the host is still to see, and the commands of the USB host. Arrays of a fixed
-- size are lists; an index that the source takes from a position is always in range.
pub mod Position
pub mod Packets
pub mod Random
pub mod Commands
pub mod Sealed
pub mod Queue
pub mod Orders
pub mod Lookup
pub mod Blocks
pub mod Examples
use mathlib.Core.Option
use mathlib.Core.Option.{Option}
use omniportal.Base.{
  ℕ, zero, suc, ◌+◌, ◌-◌, ◌*◌, ◌/◌, ◌%◌, ◌^◌, min, List, [], ◌∷◌, ◌++◌, Bool, true, false, not,
  ◌&&◌, ◌||◌, none, some, ltb, leb, ◌==◌, if◌then◌else◌, length, get_elem?, get_or, set, take,
  slice, overwrite, splice, replicate, is_some,
}
use omniportal.Base.Bytes.{add8, from_bool}
use Position.{
  FigurePosition, index, figure_position_from_index, derive_base_position, base_code,
  presence_position_byte,
}
use Packets.{
  Report, report_bytes, blank, checksum, seal, response_head, blank_response, valid_command_packet,
}
use Random.{RandomState, next_random, generate_seed, scramble, descramble}

abbrev pub max_figures : ℕ
max_figures = 9

abbrev pub figure_block_bytes : ℕ
figure_block_bytes = 16

abbrev pub figure_block_count : ℕ
figure_block_count = 0x14

abbrev pub figure_image_bytes : ℕ
figure_image_bytes = figure_block_bytes * figure_block_count

pub record FigureSlot : Type 0 where
  pub present : Bool
  pub order_added : ℕ
  pub figure_data : List ℕ

unfoldable pub new_slot : FigureSlot
new_slot = record {
  present = false;
  order_added = 0xff;
  figure_data = replicate figure_image_bytes 0;
}

abbrev pub ReportQueue : Type 0
ReportQueue = List (Option Report)

pub record InfinityBaseState : Type 0 where
  pub figures : List FigureSlot
  pub next_order : ℕ
  pub queued_changes : ReportQueue
  pub random : RandomState

unfoldable pub new_state : InfinityBaseState
unfolding new_slot
new_state = record {
  figures = replicate max_figures new_slot;
  next_order = 0;
  queued_changes = replicate (max_figures * 2) none;
  random = record { random_a = 0; random_b = 0; random_c = 0; random_d = 0 };
}

-- `self.figures[position.index()]`.
abbrev pub figure_at : FigurePosition → InfinityBaseState → FigureSlot
figure_at position state = get_or state.figures (index position) new_slot

-- `iter_mut().find(|slot| slot.is_none())`, and the report is put there.
unfoldable pub push_report : Report → ReportQueue → ReportQueue
push_report report [] = []
push_report report (none ∷ queue) = some report ∷ queue
push_report report (some r ∷ queue) = some r ∷ push_report report queue

-- The queue moves up by one place.
unfoldable pub pop_report : ReportQueue → Option (Report × ReportQueue)
pop_report [] = none
pop_report (none ∷ queue) = none
pop_report (some report ∷ queue) = some (report, queue ++ none ∷ [])

unfoldable pub change_report : FigurePosition → ℕ → Bool → Report
unfolding derive_base_position base_code checksum
change_report position order_added was_removed =
    let report = set blank 0 0xab in
    let report = set report 1 0x04 in
    let report = set report 2 (base_code (derive_base_position position)) in
    let report = set report 3 0x09 in
    let report = set report 4 order_added in
    let report = set report 5 (from_bool was_removed) in seal 6 report

unfoldable pub push_change_response : FigurePosition → Bool → InfinityBaseState → InfinityBaseState
unfolding change_report push_report
push_change_response position was_removed state = record state {
  queued_changes =
      push_report (change_report position (figure_at position state).order_added was_removed)
        state.queued_changes;
}

-- The image is copied in and the figure gets its order, if it has none.
unfoldable pub add_figure : FigurePosition → List ℕ → InfinityBaseState → InfinityBaseState
unfolding index
add_figure position image state =
    let slot = figure_at position state in
    let fresh = slot.order_added == 0xff in
    record state {
      figures = set state.figures (index position) (record {
        present = true;
        order_added = if fresh then state.next_order else slot.order_added;
        figure_data = overwrite image slot.figure_data;
      });
      next_order = if fresh then add8 state.next_order 1 else state.next_order;
    }

unfoldable pub load_figure : FigurePosition → List ℕ → InfinityBaseState → InfinityBaseState × Bool
unfolding add_figure push_change_response
load_figure position image state =
    if not (length image == figure_image_bytes)
    then (state, false)
    else (push_change_response position false (add_figure position image state), true)

unfoldable pub remove_figure : FigurePosition → InfinityBaseState → InfinityBaseState
unfolding index push_change_response
remove_figure position state =
    let slot = figure_at position state in
    if not slot.present
    then state
    else push_change_response position true (record state {
      figures = set state.figures (index position) (record slot { present = false });
    })

abbrev any_some : ReportQueue → Bool
any_some [] = false
any_some (r ∷ queue) = is_some r || any_some queue

unfoldable pub has_change_response : InfinityBaseState → Bool
has_change_response state = any_some state.queued_changes

abbrev pub popped :
    InfinityBaseState → Option (Report × ReportQueue) → InfinityBaseState × Option Report
popped state none = (state, none)
popped state (some (report, queue)) = (record state { queued_changes = queue }, some report)

unfoldable pub pop_change_response : InfinityBaseState → InfinityBaseState × Option Report
unfolding pop_report
pop_change_response state = popped state (pop_report state.queued_changes)

-- The place in the list of the present figure with that order.
unfoldable pub find_order : ℕ → List FigureSlot → Option ℕ
find_order order [] = none
find_order order (figure ∷ figures) =
    let rest = find_order order figures in
    if figure.present && (figure.order_added == order) then some zero else Option.map suc rest

unfoldable pub figure_by_order : ℕ → List FigureSlot → Option FigureSlot
unfolding find_order
figure_by_order order figures = elim (find_order order figures) [
  | none ↦ none
  | some i ↦ get_elem? figures i
]

unfoldable pub figure_position_by_order : ℕ → InfinityBaseState → Option FigurePosition
unfolding find_order figure_position_from_index
figure_position_by_order order state = elim (find_order order state.figures) [
  | none ↦ none
  | some i ↦ figure_position_from_index i
]

unfoldable pub figure_image : FigurePosition → InfinityBaseState → Option (List ℕ)
unfolding index
figure_image position state =
    let figure = figure_at position state in
    if figure.present then some figure.figure_data else none

-- `block.saturating_mul(4)` on `u8`.
unfoldable pub command_block_to_file_block : ℕ → Option ℕ
command_block_to_file_block block =
    let file_block = if block == 0 then 1 else min (block * 4) 0xff in
    if ltb file_block figure_block_count then some file_block else none
