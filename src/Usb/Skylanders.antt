-- ===== src/Usb/Skylanders.antt =====
-- `PortalState` and `handle_command` of src/usb/skylanders.rs: sixteen slots, and the commands of
-- the USB host. An operation returns the new state, and its report where it has one.
pub mod Slot
pub mod Reports
pub mod Invariant
pub mod Commands
pub mod Blocks
pub mod Placement
pub mod Readable
pub mod Examples
use omniportal.Base.{
  ℕ, ◌+◌, ◌*◌, ◌%◌, ◌^◌, List, [], ◌∷◌, Bool, true, false, not, ◌&&◌, ◌||◌, Option, none, some, map,
  ltb, leb, ◌==◌, if◌then◌else◌, length, get_elem?, get_or, set, take, drop, slice, splice,
  get_range, copy_into, copy_all, replicate, is_some,
}
use omniportal.Base.Bytes.{add8, bytes_eq}
use omniportal.Storage.Catalog.{first_some}
use Slot.{
  SlotStatus, removed, ready, removing, added, PortalSlot, new_slot, is_present, status_queue,
  queue_present_cycle, collapse_for_deactivate, next_status, figure_block_bytes, figure_block_count,
  figure_image_bytes,
}
use Reports.{
  Report, max_figures, status_report, activate_response, ready_response, audio_firmware_response,
  color_response, query_response, query_error_response, write_response, ack_response,
}

pub record PortalState : Type 0 where
  pub active : Bool
  pub interrupt_counter : ℕ
  pub slots : List PortalSlot

unfoldable pub new_state : PortalState
unfolding new_slot
new_state = record { active = true; interrupt_counter = 0; slots = replicate max_figures new_slot }

abbrev slot_entity : Option PortalSlot → Option ℕ
slot_entity none = none
slot_entity (some slot) = slot.active_entity_id

unfoldable pub active_entity_id : PortalState → Option ℕ
active_entity_id state = first_some (map (λ slot. slot.active_entity_id) state.slots)

unfoldable pub slot_entity_id : ℕ → PortalState → Option ℕ
slot_entity_id slot state = slot_entity (get_elem? state.slots slot)

-- `iter().any(…)`.
unfoldable pub any_slot : (PortalSlot → Bool) → List PortalSlot → Bool
any_slot test [] = false
any_slot test (slot ∷ slots) = test slot || any_slot test slots

unfoldable pub is_dirty : PortalState → Bool
unfolding any_slot
is_dirty state = any_slot (λ slot. slot.dirty) state.slots

abbrev pub is_occupied : PortalSlot → Bool
is_occupied slot = is_some slot.active_entity_id && is_present slot.slot_status

unfoldable pub has_present_entities : PortalState → Bool
unfolding any_slot
has_present_entities state = any_slot is_occupied state.slots

abbrev slot_dirty : Option PortalSlot → Bool
slot_dirty none = false
slot_dirty (some slot) = slot.dirty

unfoldable pub is_slot_dirty : ℕ → PortalState → Bool
is_slot_dirty slot state = slot_dirty (get_elem? state.slots slot)

-- `if let Some(slot) = self.slots.get_mut(slot)` and a change of that slot.
unfoldable pub update_slot : ℕ → (PortalSlot → PortalSlot) → PortalState → PortalState
update_slot slot change state = elim (get_elem? state.slots slot) [
  | none ↦ state
  | some s ↦ record state { slots = set state.slots slot (change s) }
]

abbrev clean : PortalSlot → PortalSlot
clean slot = record slot { dirty = false }

unfoldable pub clear_dirty : PortalState → PortalState
clear_dirty state = record state { slots = map clean state.slots }

unfoldable pub clear_slot_dirty : ℕ → PortalState → PortalState
unfolding update_slot
clear_slot_dirty slot = update_slot slot clean

abbrev slot_bytes : Option PortalSlot → Option (List ℕ)
slot_bytes none = none
slot_bytes (some slot) = some slot.image

unfoldable pub slot_image : ℕ → PortalState → Option (List ℕ)
slot_image slot state = slot_bytes (get_elem? state.slots slot)

-- What `load_entity_into_slot` does to the slot.
unfoldable pub place : ℕ → List ℕ → PortalSlot → PortalSlot
place entity_id image slot = record slot {
  active_entity_id = some entity_id;
  image = splice 0 image slot.image;
  slot_status = added;
  queued_status_hold = 0;
  queued_status =
      if is_occupied slot
      then status_queue (removing ∷ removed ∷ added ∷ ready ∷ [])
      else status_queue (added ∷ ready ∷ []);
  dirty = false;
}

-- The slot's array and the image are of the same length, or the copy panics.
abbrev pub place_image : ℕ → List ℕ → PortalSlot → Option PortalSlot
place_image entity_id image s = elim (copy_all image s.image) [
  | none ↦ none
  | some image' ↦ some (place entity_id image' s)
]

unfoldable pub load_entity_into_slot : ℕ → ℕ → List ℕ → PortalState → Option (PortalState × Bool)
unfolding place
load_entity_into_slot slot entity_id image state =
    if not (length image == figure_image_bytes)
    then some (state, false)
    else elim (get_elem? state.slots slot) [
      | none ↦ some (state, false)
      | some s ↦ elim (place_image entity_id image s) [
        | none ↦ none
        | some s' ↦ some (record state { slots = set state.slots slot s' }, true)
      ]
    ]

unfoldable pub load_entity : ℕ → List ℕ → PortalState → Option (PortalState × Bool)
unfolding load_entity_into_slot
load_entity = load_entity_into_slot 0

abbrev pub is_removed : SlotStatus → Bool
is_removed removed = true
is_removed _ = false

-- What `clear_slot` does to the slot.
unfoldable pub lift : PortalSlot → PortalSlot
lift slot =
    if not (is_some slot.active_entity_id) && is_removed slot.slot_status
    then slot
    else record slot {
      active_entity_id = none;
      slot_status = removing;
      queued_status_hold = 0;
      queued_status = status_queue (removing ∷ removed ∷ []);
      dirty = false;
    }

unfoldable pub clear_slot : ℕ → PortalState → PortalState
unfolding update_slot lift
clear_slot slot = update_slot slot lift

unfoldable pub clear_entity : PortalState → PortalState
unfolding clear_slot
clear_entity = clear_slot 0

-- The loop `for slot in 0..MAX_FIGURES`, from slot `slot` on with `n` rounds left.
unfoldable pub clear_slots : ℕ → ℕ → PortalState → PortalState
unfolding clear_slot
clear_slots ℕ.zero slot state = state
clear_slots (ℕ.suc n) slot state = clear_slots n (slot + 1) (clear_slot slot state)

unfoldable pub clear_all_entities : PortalState → PortalState
unfolding clear_slots
clear_all_entities = clear_slots max_figures 0

abbrev cycle_if_present : PortalSlot → PortalSlot
cycle_if_present slot = if is_present slot.slot_status then queue_present_cycle slot else slot

unfoldable pub activate : PortalState → PortalState
activate state =
    if state.active
    then state
    else record state { slots = map cycle_if_present state.slots; active = true }

unfoldable pub deactivate : PortalState → PortalState
deactivate state = record state { slots = map collapse_for_deactivate state.slots; active = false }

unfoldable pub next_status_report : PortalState → PortalState × Report
next_status_report state =
    let slots = map next_status state.slots in
    let report =
      status_report (map (λ slot. slot.slot_status) slots) state.interrupt_counter state.active in
    (record state { slots = slots; interrupt_counter = add8 state.interrupt_counter 1 }, report)

abbrev pub is_ready : SlotStatus → Bool
is_ready ready = true
is_ready _ = false

-- The bytes of a block of an image.
abbrev pub block_of : ℕ → List ℕ → List ℕ
block_of block image = slice (block * figure_block_bytes) figure_block_bytes image

abbrev pub read_block : ℕ → ℕ → PortalSlot → Option Report
read_block slot block s = elim (get_range (block * figure_block_bytes) figure_block_bytes s.image) [
  | none ↦ none
  | some new_bytes ↦ some (query_response slot block new_bytes)
]

-- Where a range lies outside of its array, a query and a write of a block panic, which is `none`.
unfoldable pub query_block : ℕ → ℕ → PortalState → Option Report
query_block slot block state = elim (get_elem? state.slots slot) [
  | none ↦ some (query_error_response block)
  | some s ↦
      if leb figure_block_count block || not (is_ready s.slot_status)
      then some (query_error_response block)
      else read_block slot block s
]

abbrev pub written : PortalState → ℕ → PortalSlot → List ℕ → PortalState
written state slot s image = record state {
  slots = set state.slots slot (record s { image = image; dirty = true });
}

-- The new data is not what the block holds.
abbrev pub overwrite_block :
    PortalState → ℕ → ℕ → List ℕ → PortalSlot → Option (PortalState × Report)
overwrite_block state slot block new_bytes s =
    elim (copy_into (block * figure_block_bytes) new_bytes s.image) [
      | none ↦ none
      | some image ↦ some (written state slot s image, write_response slot block true)
    ]

-- The comparison of the old and the new data, and the copy.
unfoldable pub write_in_range :
    PortalState → ℕ → ℕ → List ℕ → PortalSlot → Option (PortalState × Report)
write_in_range state slot block source s =
    elim (get_range (block * figure_block_bytes) figure_block_bytes s.image) [
      | none ↦ none
      | some old ↦ elim (get_range 0 figure_block_bytes source) [
        | none ↦ none
        | some new_bytes ↦
            if bytes_eq old new_bytes
            then some (state, write_response slot block true)
            else overwrite_block state slot block new_bytes s
      ]
    ]

-- The slot is on the portal, and the block and the data are long enough.
unfoldable pub write_to_slot :
    PortalState → ℕ → ℕ → List ℕ → PortalSlot → Option (PortalState × Report)
unfolding write_in_range
write_to_slot state slot block source s =
    if leb figure_block_count block
      || not (is_present s.slot_status)
      || ltb (length source) figure_block_bytes
    then some (state, write_response 0xff block false)
    else write_in_range state slot block source s

unfoldable pub write_block : ℕ → ℕ → List ℕ → PortalState → Option (PortalState × Report)
unfolding write_to_slot
write_block slot block source state = elim (get_elem? state.slots slot) [
  | none ↦ some (state, write_response 0xff block false)
  | some s ↦ write_to_slot state slot block source s
]

pub record CommandResponse : Type 0 where
  pub report : Report
  pub queue_report : Bool

-- `slot_id & 0x0f`, which is below 16.
unfoldable pub command_slot : ℕ → Option ℕ
command_slot slot_id =
    let slot = slot_id % 2 ^ 4 in if ltb slot max_figures then some slot else none

abbrev respond : Bool → PortalState × Report → Option (PortalState × Option CommandResponse)
respond queued (state, report) =
    some (state, some (record { report = report; queue_report = queued }))

unfoldable pub query_command : List ℕ → PortalState → Option Report
query_command command state =
    let block = get_or command 2 0 in
    elim (command_slot (get_or command 1 0xff)) [
      | none ↦ some (query_error_response block)
      | some slot ↦ query_block slot block state
    ]

unfoldable pub write_command : List ℕ → PortalState → Option (PortalState × Report)
write_command command state =
    let block = get_or command 2 0 in
    elim (command_slot (get_or command 1 0xff)) [
      | none ↦ some (state, write_response 0xff block false)
      | some slot ↦ write_block slot block (drop 3 command) state
    ]

unfoldable pub activate_command : List ℕ → PortalState → PortalState × Report
activate_command command state =
    let state' = if not (get_or command 1 0 == 0) then activate state else deactivate state in
    (state', activate_response state'.active)

abbrev pub respond_read :
    PortalState → Option Report → Option (PortalState × Option CommandResponse)
respond_read state none = none
respond_read state (some report) = respond true (state, report)

abbrev pub respond_written :
    Option (PortalState × Report) → Option (PortalState × Option CommandResponse)
respond_written none = none
respond_written (some result) = respond true result

unfoldable pub handle_op : ℕ → List ℕ → PortalState → Option (PortalState × Option CommandResponse)
unfolding query_command write_command activate_command
handle_op op command state =
    if op == b'A'
    then respond true (activate_command command state)
    else if op == b'R'
    then respond true (state, ready_response)
    else if op == b'S'
    then respond false (next_status_report state)
    else if op == b'Q'
    then respond_read state (query_command command state)
    else if op == b'W'
    then respond_written (write_command command state)
    else if op == b'M'
    then respond true (state, audio_firmware_response (get_or command 1 0) 0x19)
    else if op == b'J'
    then respond true (state, ack_response op)
    else if op == b'C'
    then respond false
        (state, color_response (get_or command 1 0) (get_or command 2 0) (get_or command 3 0))
    else if (op == b'L') || (op == b'V') || (op == b'Z')
    then respond false (state, ack_response op)
    else some (state, none)

-- `none` is a panic of a command that reads or writes a block.
unfoldable pub handle_command : List ℕ → PortalState → Option (PortalState × Option CommandResponse)
unfolding handle_op
handle_command [] state = some (state, none)
handle_command (op ∷ rest) state = handle_op op (op ∷ rest) state
