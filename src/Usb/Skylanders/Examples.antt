-- ===== src/Usb/Skylanders/Examples.antt =====
-- Portals on which the theorems on src/usb/skylanders.rs apply.
use mathlib.Core.Option
use omniportal.Base.{Option}
use omniportal.Base.{
  ℕ, ◌≡◌, refl, List, [], ◌∷◌, ◌++◌, true, false, some, arith, get_elem?, replicate, take, inl,
}
use omniportal.Usb.Skylanders.Slot.{
  PortalSlot, removed, ready, removing, added, new_slot, is_present, empty_queue,
}
use omniportal.Usb.Skylanders.Reports.{Report, query_response, write_response}
use omniportal.Usb.Skylanders.{
  PortalState, CommandResponse, new_state, place, lift, load_entity_into_slot, handle_command,
  write_block, query_block, block_of,
}
use omniportal.Usb.Skylanders.Invariant.{IsPortal, new_state-IsPortal}
use omniportal.Usb.Skylanders.Commands.{handle_command-IsPortal}
use omniportal.Usb.Skylanders.Blocks.{query_block-write_block, block_of-write_block}
use omniportal.Usb.Skylanders.Readable.{reports, query_block-load_entity_into_slot}
use omniportal.Usb.Skylanders.Placement.{
  shown, replaced, shown-place_free, shown-place_taken, shown-lift,
}

abbrev image : List ℕ
image = replicate 1024 5

-- A write of a block of the third figure.
abbrev write_request : List ℕ
write_request = b'W' ∷ 0x12 ∷ 3 ∷ replicate 16 1

handle_command-IsPortal_example :
    (result : PortalState × Option CommandResponse) × (handle_command write_request new_state
      ≡ some result)
    × IsPortal result.0
handle_command-IsPortal_example = handle_command-IsPortal write_request new_state new_state-IsPortal

shown-place_free_example :
    shown 11 (place 7 image new_slot) ≡ replicate 8 added ++ replicate 3 ready
unfolding new_slot is_present
shown-place_free_example = shown-place_free 7 2 image new_slot refl

abbrev figure : PortalSlot
figure = record {
  active_entity_id = some 1;
  slot_status = ready;
  queued_status = empty_queue;
  queued_status_hold = 0;
  image = image;
  dirty = false;
}

shown-place_taken_example : shown 26 (place 7 image figure) ≡ replaced ++ replicate 2 ready
unfolding is_present
shown-place_taken_example = shown-place_taken 7 1 image figure refl

shown-lift_example : shown 10 (lift figure) ≡ replicate 8 removing ++ replicate 2 removed
shown-lift_example = shown-lift 1 figure refl

abbrev portal : PortalState
portal = record { active = true; interrupt_counter = 0; slots = new_slot ∷ figure ∷ [] }

abbrev written_block : List ℕ
written_block = replicate 20 9

query_block-write_block_example :
    (state' : PortalState) × (write_block 1 3 written_block portal
      ≡ some (state', write_response 1 3 true))
    × (query_block 1 3 state' ≡ some (query_response 1 3 (take 16 written_block)))
query_block-write_block_example =
    query_block-write_block portal 1 3 written_block figure refl refl refl (omega arith)
      (omega arith)

block_of-write_block_example :
    (result : PortalState × Report) × (write_block 1 3 written_block portal ≡ some result)
    × (Option.map (λ s. block_of 3 s.image) (get_elem? result.0.slots 0)
        ≡ Option.map (λ s. block_of 3 s.image) (get_elem? portal.slots 0))
block_of-write_block_example =
    block_of-write_block portal 1 3 written_block figure refl refl refl (omega arith) (omega arith)
      0 3 (inl (λ e. omega (arith, e)))

query_block-load_entity_into_slot_example :
    (state' : PortalState) × (load_entity_into_slot 0 7 image portal ≡ some (state', true))
    × (query_block 0 2 (reports 9 state') ≡ some (query_response 0 2 (block_of 2 image)))
unfolding new_slot is_present
query_block-load_entity_into_slot_example =
    query_block-load_entity_into_slot 0 7 2 image portal new_slot refl refl refl refl (omega arith)
