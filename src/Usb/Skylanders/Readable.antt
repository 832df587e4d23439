-- ===== src/Usb/Skylanders/Readable.antt =====
-- From the placement of a figure to the host's first read of it: src/usb/skylanders.rs.
use omniportal.Base.{
  ℕ, zero, suc, ◌<◌, ◌≡◌, refl, sym, ap, ◌∙◌, List, [], ◌∷◌, true, false, some, arith, length,
  get_elem?, set, splice, overwrite_all, copy_all-some, get_elem?-set_self, get_elem?-map-some,
  get_elem?-lt, ◌==◌,
}
use omniportal.Usb.Skylanders.Slot.{PortalSlot, ready, added, next_status, pop_status, status_queue}
use omniportal.Usb.Skylanders.Slot.Settles.{polls}
use omniportal.Usb.Skylanders.Reports.{query_response}
use omniportal.Usb.Skylanders.{
  PortalState, place, load_entity_into_slot, next_status_report, query_block, block_of, is_occupied,
}
use omniportal.Usb.Skylanders.Placement.{placed, place-free, placed_free-IsSettled}
use omniportal.Usb.Skylanders.Blocks.{query_block-ready}

-- The portal after `n` status reports.
unfoldable pub reports : ℕ → PortalState → PortalState
reports zero state = state
reports (suc n) state = reports n (next_status_report state).0

reports-slot :
    (n slot : ℕ) (state : PortalState) (s : PortalSlot)
    → get_elem? state.slots slot ≡ some s
    → get_elem? (reports n state).slots slot ≡ some (polls n s)
unfolding reports polls next_status_report
reports-slot zero slot state s h = h
reports-slot (suc n) slot state s h =
    reports-slot n slot (next_status_report state).0 (next_status s)
      (get_elem?-map-some next_status state.slots slot s h)

image-placed_free :
    (id : ℕ) (image : List ℕ) (s : PortalSlot)
    → (polls 9 (placed id image (added ∷ ready ∷ []) s)).image ≡ splice 0 image s.image
unfolding polls next_status pop_status status_queue
image-placed_free id image s = refl

load_entity_into_slot-free :
    (slot id : ℕ) (image : List ℕ) (state : PortalState) (s : PortalSlot)
    → get_elem? state.slots slot ≡ some s
    → length image ≡ 1024
    → length s.image ≡ 1024
    → load_entity_into_slot slot id image state
      ≡ some (record state { slots = set state.slots slot (place id image s) }, true)
unfolding load_entity_into_slot
load_entity_into_slot-free slot id image state s at_slot size room =
    let whole : (length image == 1024) ≡ true = ground arith in
    rw (whole, at_slot, copy_all-some image s.image (size ∙ sym room), load_entity_into_slot) refl

-- A figure whose image has 1,024 bytes is placed on a slot of the portal that is not occupied and has
-- room for such an image: the placement does not panic, and after nine status reports, a query of
-- any block below 64 returns the bytes that the image has there.
pub query_block-load_entity_into_slot :
    (slot id block : ℕ) (image : List ℕ) (state : PortalState) (s : PortalSlot)
    → get_elem? state.slots slot ≡ some s
    → is_occupied s ≡ false
    → length image ≡ 1024
    → length s.image ≡ 1024
    → block < 64
    → (state' : PortalState) × (load_entity_into_slot slot id image state ≡ some (state', true))
      × (query_block slot block (reports 9 state')
          ≡ some (query_response slot block (block_of block image)))
query_block-load_entity_into_slot slot id block image state s at_slot free size room lt =
    let state' = record state { slots = set state.slots slot (place id image s) } in
    let after = polls 9 (place id image s) in
    let there : get_elem? (reports 9 state').slots slot ≡ some after =
      reports-slot 9 slot state' (place id image s) (
        get_elem?-set_self state.slots slot (place id image s)
          (get_elem?-lt state.slots slot s at_slot)) in
    let settled : after.slot_status ≡ ready =
      ap (λ p. (polls 9 p).slot_status) (place-free id image s free)
      ∙ (placed_free-IsSettled id image s).shows in
    let kept : after.image ≡ image =
      ap (λ p. (polls 9 p).image) (place-free id image s free)
      ∙ image-placed_free id image s
      ∙ overwrite_all image s.image (size ∙ sym room) in
    (
      state',
      load_entity_into_slot-free slot id image state s at_slot size room,
      query_block-ready (reports 9 state') slot block after there settled lt (ap length kept ∙ size)
          ∙ ap (λ i. some (query_response slot block (block_of block i))) kept,
    )
