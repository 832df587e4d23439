-- ===== src/Storage/Catalog/Slots.antt =====
-- The active slots of the catalog: src/storage/catalog.rs, `place_entity_in_slot`.
use mathlib.Core.Path.{subst}
use omniportal.Base.{
  ℕ, zero, suc, ◌<◌, ◌≡◌, ◌≢◌, ◌↔◌, sym, ◌∙◌, List, [], ◌∷◌, Option, none, some, arith, map, length,
  get_elem?, set, length-map, get_elem?-set_self, get_elem?-set_ne, Bool-cases, inl, inr, ==_iff,
  ◌==◌,
}
use omniportal.Storage.Records.{RecordId}
use omniportal.Storage.Catalog.{Catalog, place_entity_in_slot, clear_active_entity, clear_if}

-- Once it is cleared, no slot holds the id.
cleared :
    (id j : ℕ) (slots : List (Option RecordId))
    → get_elem? (map (clear_if id) slots) j ≢ some (some id)
cleared id j [] h = ground arith
cleared id zero (none ∷ slots) h = ground arith
cleared id zero (some other ∷ slots) h = ground arith
cleared id (suc j) (slot ∷ slots) h = cleared id j slots h

-- After an entity was placed in one of the slots, this slot and no other holds it.
pub place_entity_in_slot_iff :
    (id slot j : ℕ) (c : Catalog)
    → slot < length c.active_slots
    → (get_elem? (place_entity_in_slot id slot c).active_slots j ≡ some (some id)) ↔ (slot ≡ j)
unfolding place_entity_in_slot clear_active_entity
place_entity_in_slot_iff id slot j c lt = (only, there)
  where
    only :
        get_elem? (set (map (clear_if id) c.active_slots) slot (some id)) j ≡ some (some id)
        → slot ≡ j
    only h = elim (Bool-cases (slot == j)) [
      | inl e ↦ (==_iff slot j).0 e
      | inr e ↦ absurd (
          cleared id j c.active_slots (
            sym
              (get_elem?-set_ne (map (clear_if id) c.active_slots) slot j (some id) (ground arith))
            ∙ h))
    ]

    there :
        slot ≡ j
        → get_elem? (set (map (clear_if id) c.active_slots) slot (some id)) j ≡ some (some id)
    there e =
        subst
          (λ k.
            get_elem? (set (map (clear_if id) c.active_slots) slot (some id)) k ≡ some (some id))
          e
          (get_elem?-set_self (map (clear_if id) c.active_slots) slot (some id)
            (omega (arith, lt, length-map (clear_if id) c.active_slots)))
