-- ===== src/Usb/Skylanders/Slot/Settles.antt =====
-- How a slot's status moves as the host polls: src/usb/skylanders.rs, `next_status`.
use omniportal.Base.{ℕ, zero, suc, ◌≡◌, arith}
use omniportal.Usb.Skylanders.Slot.{SlotStatus, PortalSlot, empty_queue, next_status}

-- The slot after `n` status reports.
unfoldable pub polls : ℕ → PortalSlot → PortalSlot
polls zero slot = slot
polls (suc n) slot = polls n (next_status slot)

-- Nothing is queued and nothing is held, so the status stays.
pub record IsSettled (status : SlotStatus) (slot : PortalSlot) : Type 0 where
  pub shows : slot.slot_status ≡ status
  pub idle : slot.queued_status ≡ empty_queue

next_status-IsSettled :
    (status : SlotStatus) (slot : PortalSlot)
    → IsSettled status slot
    → IsSettled status (next_status slot)
unfolding next_status
next_status-IsSettled status slot v = ground arith

pub polls-IsSettled :
    (n : ℕ) (status : SlotStatus) (slot : PortalSlot)
    → IsSettled status slot
    → IsSettled status (polls n slot)
unfolding polls
polls-IsSettled zero status slot v = v
polls-IsSettled (suc n) status slot v =
    polls-IsSettled n status (next_status slot) (next_status-IsSettled status slot v)
