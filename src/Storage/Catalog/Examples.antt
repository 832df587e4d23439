-- ===== src/Storage/Catalog/Examples.antt =====
-- A catalog on which the theorem on the active slots of src/storage/catalog.rs applies.
use omniportal.Base.{ℕ, ◌≡◌, ◌↔◌, none, some, arith, get_elem?, ◌∷◌, replicate}
use omniportal.Storage.Catalog.{Catalog, new_catalog, place_entity_in_slot}
use omniportal.Storage.Catalog.Slots.{place_entity_in_slot_iff}

-- The entity 7 stands in the second slot.
abbrev occupied : Catalog
occupied = record new_catalog { active_slots = none ∷ some 7 ∷ replicate 14 none }

place_entity_in_slot_iff_example :
    (get_elem? (place_entity_in_slot 7 3 occupied).active_slots 1 ≡ some (some 7))
    ↔ (◌≡◌ {A = ℕ} 3 1)
place_entity_in_slot_iff_example = place_entity_in_slot_iff 7 3 1 occupied (omega arith)
