-- ===== src/Usb/Skylanders/Invariant.antt =====
-- The shape of the portal's state in src/usb/skylanders.rs, and the operations on it.
use omniportal.Base.{
  ℕ, suc, ◌≤◌, ◌<◌, ◌≡◌, refl, ap, ◌∙◌, List, [], ◌∷◌, none, some, map, length, get_elem?, set,
  length-splice, length-set, length-map, length-append, arith, Option-cases, Bool-cases, inl, inr,
}
use omniportal.Base.All.{All, All-set, All-map, All-replicate, All-get_elem?}
use omniportal.Usb.Skylanders.Slot.{
  PortalSlot, StatusQueue, SlotStatus, added, ready, new_slot, next_status, pop_status,
  enqueue_status, enqueue_statuses, queue_present_cycle, collapse_for_deactivate, status_queue,
  any_queued,
}
use omniportal.Usb.Skylanders.{
  PortalState, new_state, place, lift, update_slot, clear_slot, activate, deactivate,
  next_status_report, activate_command, cycle_if_present,
}

-- A slot has a whole image, eight places for statuses, and holds a status for seven reports.
pub record IsSlot (s : PortalSlot) : Type 0 where
  pub image_size : length s.image ≡ 1024
  pub queue_size : length s.queued_status ≡ 8
  pub hold_le : s.queued_status_hold ≤ 7

pub record IsPortal (state : PortalState) : Type 0 where
  pub slot_count : length state.slots ≡ 16
  pub all_slots : All IsSlot state.slots
  pub counter_lt : state.interrupt_counter < 256

new_slot-IsSlot : IsSlot new_slot
unfolding new_slot
new_slot-IsSlot = record { image_size = refl; queue_size = refl; hold_le = omega arith }

length-enqueue_status :
    (status : SlotStatus) (queue : StatusQueue)
    → length (enqueue_status status queue) ≡ length queue
unfolding enqueue_status
length-enqueue_status status [] = refl
length-enqueue_status status (none ∷ queue) = refl
length-enqueue_status status (some s ∷ queue) = ap suc (length-enqueue_status status queue)

length-pop_status :
    (queue rest : StatusQueue) (status : SlotStatus)
    → pop_status queue ≡ some (status, rest)
    → length rest ≡ length queue
unfolding pop_status
length-pop_status [] rest status h = ground arith
length-pop_status (none ∷ queue) rest status h = ground arith
length-pop_status (some s ∷ queue) rest status h = ground (arith, length-append queue (none ∷ []))

next_status-IsSlot : (s : PortalSlot) → IsSlot s → IsSlot (next_status s)
unfolding next_status
next_status-IsSlot s v = elim (Option-cases (pop_status s.queued_status)) [
  | inl e ↦ ground (arith, e)
  | inr (p, e) ↦ let size = length-pop_status s.queued_status p.1 p.0 e in ground (arith, e, size)
]

queue_present_cycle-IsSlot : (s : PortalSlot) → IsSlot s → IsSlot (queue_present_cycle s)
unfolding queue_present_cycle enqueue_statuses
queue_present_cycle-IsSlot s v = record {
  image_size = v.image_size;
  queue_size =
      length-enqueue_status ready (enqueue_status added s.queued_status)
      ∙ length-enqueue_status added s.queued_status
      ∙ v.queue_size;
  hold_le = omega arith;
}

cycle_if_present-IsSlot : (s : PortalSlot) → IsSlot s → IsSlot (cycle_if_present s)
cycle_if_present-IsSlot s v = ground (arith, queue_present_cycle-IsSlot s v)

collapse-IsSlot : (s : PortalSlot) → IsSlot s → IsSlot (collapse_for_deactivate s)
unfolding collapse_for_deactivate
collapse-IsSlot s v = elim (Bool-cases (any_queued s.queued_status)) [
  | inl e ↦ ground (arith, e)
  | inr e ↦ ground (arith, e)
]

pub place-IsSlot : (id : ℕ) (image : List ℕ) (s : PortalSlot) → IsSlot s → IsSlot (place id image s)
unfolding place status_queue
place-IsSlot id image s v = ground (arith, length-splice 0 image s.image)

lift-IsSlot : (s : PortalSlot) → IsSlot s → IsSlot (lift s)
unfolding lift status_queue
lift-IsSlot s v = ground arith

pub set-IsPortal :
    (state : PortalState) (slot : ℕ) (s : PortalSlot)
    → IsPortal state
    → IsSlot s
    → IsPortal (record state { slots = set state.slots slot s })
set-IsPortal state slot s v w = record {
  slot_count = length-set state.slots slot s ∙ v.slot_count;
  all_slots = All-set IsSlot state.slots slot s w v.all_slots;
  counter_lt = v.counter_lt;
}

map-slots :
    (f : PortalSlot → PortalSlot) (state : PortalState)
    → ((s : PortalSlot) → IsSlot s → IsSlot (f s))
    → IsPortal state
    → (length (map f state.slots) ≡ 16) × All IsSlot (map f state.slots)
map-slots f state keep v =
    (length-map f state.slots ∙ v.slot_count, All-map IsSlot f state.slots keep v.all_slots)

pub update_slot-IsPortal :
    (slot : ℕ) (f : PortalSlot → PortalSlot) (state : PortalState)
    → ((s : PortalSlot) → IsSlot s → IsSlot (f s))
    → IsPortal state
    → IsPortal (update_slot slot f state)
unfolding update_slot
update_slot-IsPortal slot f state keep v = elim (Option-cases (get_elem? state.slots slot)) [
  | inl e ↦ rw (e, update_slot) v
  | inr (s, e) ↦
      rw (e, update_slot)
        (set-IsPortal state slot (f s) v
          (keep s (All-get_elem? IsSlot state.slots slot s v.all_slots e)))
]

pub clear_slot-IsPortal :
    (slot : ℕ) (state : PortalState) → IsPortal state → IsPortal (clear_slot slot state)
unfolding clear_slot
clear_slot-IsPortal slot state v = update_slot-IsPortal slot lift state lift-IsSlot v

activate-IsPortal : (state : PortalState) → IsPortal state → IsPortal (activate state)
unfolding activate
activate-IsPortal state v =
    let mapped = map-slots cycle_if_present state cycle_if_present-IsSlot v in
    ground (arith, mapped)

deactivate-IsPortal : (state : PortalState) → IsPortal state → IsPortal (deactivate state)
unfolding deactivate
deactivate-IsPortal state v =
    let mapped = map-slots collapse_for_deactivate state collapse-IsSlot v in
    record { slot_count = mapped.0; all_slots = mapped.1; counter_lt = v.counter_lt }

pub next_status_report-IsPortal :
    (state : PortalState) → IsPortal state → IsPortal (next_status_report state).0
unfolding next_status_report
next_status_report-IsPortal state v =
    let mapped = map-slots next_status state next_status-IsSlot v in
    record { slot_count = mapped.0; all_slots = mapped.1; counter_lt = omega arith }

pub activate_command-IsPortal :
    (command : List ℕ) (state : PortalState)
    → IsPortal state
    → IsPortal (activate_command command state).0
unfolding activate_command
activate_command-IsPortal command state v =
    ground (arith, activate-IsPortal state v, deactivate-IsPortal state v)

pub new_state-IsPortal : IsPortal new_state
unfolding new_state
new_state-IsPortal = record {
  slot_count = refl;
  all_slots = All-replicate IsSlot 16 new_slot new_slot-IsSlot;
  counter_lt = omega arith;
}
