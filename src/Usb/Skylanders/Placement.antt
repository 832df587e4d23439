-- ===== src/Usb/Skylanders/Placement.antt =====
-- What the host sees when a figure is placed, replaced or lifted: src/usb/skylanders.rs.
use omniportal.Base.{
  splice, ap₂, ℕ, zero, suc, ◌+◌, ◌≡◌, refl, ap, ◌∙◌, List, [], ◌∷◌, ◌++◌, true, false, not, ◌&&◌,
  none, some, arith, replicate, is_some,
}
use omniportal.Usb.Skylanders.Slot.{
  PortalSlot, SlotStatus, removed, ready, removing, added, next_status, pop_status, status_queue,
}
use omniportal.Usb.Skylanders.Slot.Settles.{polls, IsSettled, polls-IsSettled}
use omniportal.Usb.Skylanders.{place, lift, is_occupied, is_removed}

-- The statuses of the next `n` reports.
unfoldable pub shown : ℕ → PortalSlot → List SlotStatus
shown zero slot = []
shown (suc n) slot = let slot' = next_status slot in slot'.slot_status ∷ shown n slot'

shown-add :
    (m n : ℕ) (slot : PortalSlot) → shown (m + n) slot ≡ shown m slot ++ shown n (polls m slot)
unfolding shown polls
shown-add zero n slot = let same : 0 + n ≡ n = omega arith in ap (λ k. shown k slot) same
shown-add (suc m) n slot =
    let same : suc m + n ≡ suc (m + n) = omega arith in
    ap (λ k. shown k slot) same
    ∙ ap (◌∷◌ (next_status slot).slot_status) (shown-add m n (next_status slot))

shown-IsSettled :
    (n : ℕ) (status : SlotStatus) (slot : PortalSlot)
    → IsSettled status slot
    → shown n slot ≡ replicate n status
unfolding shown next_status polls
shown-IsSettled zero status slot v = refl
shown-IsSettled (suc n) status slot v =
    ap₂ ◌∷◌ ((polls-IsSettled 1 status slot v).shows)
      (shown-IsSettled n status (next_status slot) (polls-IsSettled 1 status slot v))

-- What a slot shows from a state on from which it settles after `m` reports.
shown-then_IsSettled :
    (m n : ℕ) (status : SlotStatus) (slot : PortalSlot) (first : List SlotStatus)
    → shown m slot ≡ first
    → IsSettled status (polls m slot)
    → shown (m + n) slot ≡ first ++ replicate n status
shown-then_IsSettled m n status slot first h settled =
    shown-add m n slot ∙ ap₂ ◌++◌ h (shown-IsSettled n status (polls m slot) settled)

abbrev pub placed : ℕ → List ℕ → List SlotStatus → PortalSlot → PortalSlot
placed id image statuses slot = record slot {
  active_entity_id = some id;
  image = splice 0 image slot.image;
  slot_status = added;
  queued_status_hold = 0;
  queued_status = status_queue statuses;
  dirty = false;
}

pub place-free :
    (id : ℕ) (image : List ℕ) (slot : PortalSlot)
    → is_occupied slot ≡ false
    → place id image slot ≡ placed id image (added ∷ ready ∷ []) slot
unfolding place
place-free id image slot h = rw (h, place) refl

place-taken :
    (id : ℕ) (image : List ℕ) (slot : PortalSlot)
    → is_occupied slot ≡ true
    → place id image slot ≡ placed id image (removing ∷ removed ∷ added ∷ ready ∷ []) slot
unfolding place
place-taken id image slot h = rw (h, place) refl

pub placed_free-IsSettled :
    (id : ℕ) (image : List ℕ) (slot : PortalSlot)
    → IsSettled ready (polls 9 (placed id image (added ∷ ready ∷ []) slot))
unfolding polls next_status pop_status status_queue
placed_free-IsSettled id image slot = record { shows = refl; idle = refl }

shown-placed_free :
    (id : ℕ) (image : List ℕ) (slot : PortalSlot)
    → shown 9 (placed id image (added ∷ ready ∷ []) slot) ≡ replicate 8 added ++ ready ∷ []
unfolding shown next_status pop_status status_queue
shown-placed_free id image slot = refl

-- A figure that is placed on a place that is not occupied shows as added in eight reports, and as ready in every
-- report after these.
pub shown-place_free :
    (id n : ℕ) (image : List ℕ) (slot : PortalSlot)
    → is_occupied slot ≡ false
    → shown (9 + n) (place id image slot) ≡ replicate 8 added ++ replicate (suc n) ready
shown-place_free id n image slot h =
    ap (shown (9 + n)) (place-free id image slot h)
    ∙ shown-then_IsSettled 9 n ready (placed id image (added ∷ ready ∷ []) slot)
        (replicate 8 added ++ ready ∷ []) (shown-placed_free id image slot)
        (placed_free-IsSettled id image slot)

placed_taken-IsSettled :
    (id : ℕ) (image : List ℕ) (slot : PortalSlot)
    → IsSettled ready (polls 25 (placed id image (removing ∷ removed ∷ added ∷ ready ∷ []) slot))
unfolding polls next_status pop_status status_queue
placed_taken-IsSettled id image slot = record { shows = refl; idle = refl }

abbrev pub replaced : List SlotStatus
replaced = replicate 8 removing ++ (replicate 8 removed ++ replicate 8 added)

shown-placed_taken :
    (id : ℕ) (image : List ℕ) (slot : PortalSlot)
    → shown 25 (placed id image (removing ∷ removed ∷ added ∷ ready ∷ []) slot)
      ≡ replaced ++ ready ∷ []
unfolding shown next_status pop_status status_queue
shown-placed_taken id image slot = refl

-- When a figure is placed on an occupied place, the old figure first shows as removing and then as removed, and the new one as
-- added, in eight reports each; then the new one shows as ready in every report.
pub shown-place_taken :
    (id n : ℕ) (image : List ℕ) (slot : PortalSlot)
    → is_occupied slot ≡ true
    → shown (25 + n) (place id image slot) ≡ replaced ++ replicate (suc n) ready
shown-place_taken id n image slot h =
    ap (shown (25 + n)) (place-taken id image slot h)
    ∙ shown-then_IsSettled 25 n ready
        (placed id image (removing ∷ removed ∷ added ∷ ready ∷ []) slot) (replaced ++ ready ∷ [])
        (shown-placed_taken id image slot) (placed_taken-IsSettled id image slot)

abbrev lifted : PortalSlot → PortalSlot
lifted slot = record slot {
  active_entity_id = none;
  slot_status = removing;
  queued_status_hold = 0;
  queued_status = status_queue (removing ∷ removed ∷ []);
  dirty = false;
}

lift-taken :
    (slot : PortalSlot)
    → (not (is_some slot.active_entity_id) && is_removed slot.slot_status) ≡ false
    → lift slot ≡ lifted slot
unfolding lift
lift-taken slot h = rw (h, lift) refl

lifted-IsSettled : (slot : PortalSlot) → IsSettled removed (polls 9 (lifted slot))
unfolding polls next_status pop_status status_queue
lifted-IsSettled slot = record { shows = refl; idle = refl }

shown-lifted : (slot : PortalSlot) → shown 9 (lifted slot) ≡ replicate 8 removing ++ removed ∷ []
unfolding shown next_status pop_status status_queue
shown-lifted slot = refl

-- A figure that is lifted from a place that is not empty and settled shows as removing in eight reports, and its place as empty in every
-- report after these.
pub shown-lift :
    (n : ℕ) (slot : PortalSlot)
    → (not (is_some slot.active_entity_id) && is_removed slot.slot_status) ≡ false
    → shown (9 + n) (lift slot) ≡ replicate 8 removing ++ replicate (suc n) removed
shown-lift n slot h =
    ap (shown (9 + n)) (lift-taken slot h)
    ∙ shown-then_IsSettled 9 n removed (lifted slot) (replicate 8 removing ++ removed ∷ [])
        (shown-lifted slot) (lifted-IsSettled slot)
