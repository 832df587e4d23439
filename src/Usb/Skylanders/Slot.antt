-- ===== src/Usb/Skylanders/Slot.antt =====
-- `SlotStatus` and `PortalSlot` of src/usb/skylanders.rs: a figure on the portal, and the queue of
-- the statuses that the host is still to see.
pub mod Settles
use mathlib.Core.List.{reverse}
use omniportal.Base.{
  ℕ, ◌-◌, ◌*◌, List, [], ◌∷◌, ◌++◌, Bool, true, false, Option, none, some, map, ltb, if◌then◌else◌,
  replicate, splice, take, is_some,
}

abbrev pub figure_block_bytes : ℕ
figure_block_bytes = 16

abbrev pub figure_block_count : ℕ
figure_block_count = 64

abbrev pub figure_image_bytes : ℕ
figure_image_bytes = figure_block_bytes * figure_block_count

abbrev pub placement_status_hold_reports : ℕ
placement_status_hold_reports = 8

pub data SlotStatus : Type 0 where
  removed ready removing added : SlotStatus

unfoldable pub status_code : SlotStatus → ℕ
status_code removed = 0
status_code ready = 1
status_code removing = 2
status_code added = 3

unfoldable pub is_present : SlotStatus → Bool
is_present ready = true
is_present added = true
is_present _ = false

abbrev pub StatusQueue : Type 0
StatusQueue = List (Option SlotStatus)

pub record PortalSlot : Type 0 where
  pub active_entity_id : Option ℕ
  pub slot_status : SlotStatus
  pub queued_status : StatusQueue
  pub queued_status_hold : ℕ
  pub image : List ℕ
  pub dirty : Bool

abbrev pub empty_queue : StatusQueue
empty_queue = replicate 8 none

unfoldable pub new_slot : PortalSlot
new_slot = record {
  active_entity_id = none;
  slot_status = removed;
  queued_status = empty_queue;
  queued_status_hold = 0;
  image = replicate figure_image_bytes 0;
  dirty = false;
}

unfoldable pub status_queue : List SlotStatus → StatusQueue
status_queue statuses = splice 0 (map some (take 8 statuses)) empty_queue

-- The queue moves up by one place; `none` if nothing is queued.
unfoldable pub pop_status : StatusQueue → Option (SlotStatus × StatusQueue)
pop_status [] = none
pop_status (none ∷ queue) = none
pop_status (some status ∷ queue) = some (status, queue ++ none ∷ [])

-- `iter_mut().find(|slot| slot.is_none())`, and the status is put there.
unfoldable pub enqueue_status : SlotStatus → StatusQueue → StatusQueue
enqueue_status status [] = []
enqueue_status status (none ∷ queue) = some status ∷ queue
enqueue_status status (some s ∷ queue) = some s ∷ enqueue_status status queue

unfoldable pub enqueue_statuses : List SlotStatus → StatusQueue → StatusQueue
unfolding enqueue_status
enqueue_statuses [] queue = queue
enqueue_statuses (status ∷ statuses) queue = enqueue_statuses statuses (enqueue_status status queue)

unfoldable pub queue_present_cycle : PortalSlot → PortalSlot
unfolding enqueue_statuses
queue_present_cycle slot = record slot {
  queued_status_hold = 0;
  queued_status = enqueue_statuses (added ∷ ready ∷ []) slot.queued_status;
}

unfoldable pub any_queued : StatusQueue → Bool
any_queued [] = false
any_queued (none ∷ queue) = any_queued queue
any_queued (some s ∷ queue) = true

-- The loop from the back of the queue: the status that is found first, or the slot's own.
unfoldable pub last_queued : SlotStatus → StatusQueue → SlotStatus
last_queued own [] = own
last_queued own (none ∷ queue) = last_queued own queue
last_queued own (some s ∷ queue) = last_queued s queue

abbrev settle : PortalSlot → PortalSlot
settle slot = record slot { slot_status = if is_present slot.slot_status then ready else removed }

unfoldable pub collapse_for_deactivate : PortalSlot → PortalSlot
unfolding any_queued last_queued
collapse_for_deactivate slot =
    if any_queued slot.queued_status
    then settle (record slot {
      slot_status = last_queued slot.slot_status slot.queued_status;
      queued_status = empty_queue;
      queued_status_hold = 0;
    })
    else settle slot

abbrev next_queued : PortalSlot → Option (SlotStatus × StatusQueue) → PortalSlot
next_queued slot none = slot
next_queued slot (some (status, queue)) = record slot {
  queued_status = queue;
  slot_status = status;
  queued_status_hold = placement_status_hold_reports - 1;
}

-- The slot afterwards; the status that is reported is the one that it then has.
unfoldable pub next_status : PortalSlot → PortalSlot
unfolding pop_status
next_status slot =
    if ltb 0 slot.queued_status_hold
    then record slot { queued_status_hold = slot.queued_status_hold - 1 }
    else next_queued slot (pop_status slot.queued_status)
