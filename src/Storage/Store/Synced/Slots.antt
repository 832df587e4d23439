-- ===== src/Storage/Store/Synced/Slots.antt =====
-- The active slots and the mode of the USB port keep a store in step with its flash.
use omniportal.Base.{
  ℕ, ◌+◌, refl, ◌∙◌, set, List, Bool, true, false, not, Option, none, some, if◌then◌else◌,
}
use omniportal.Base.Exec.{pure, gets}
use omniportal.Domain.{GameLine}
use omniportal.Storage.Records.{Entity, RecordId, is_swapper_combo}
use omniportal.Storage.Table.{bad_request, not_found}
use omniportal.Storage.Catalog.{
  Catalog, entity, take_generation, clear_active_entity, place_entity_in_slot,
}
use omniportal.Storage.Journal.Config.{encode_config}
use omniportal.Storage.Store.{failed, append, find, set_catalog, take_next}
use omniportal.Storage.Store.Figures.{entity_can_use_active_slot}
use omniportal.Storage.Store.Slots.{
  no_slots, set_usb_mode, clear_half, make_room, select_entity, clear_active,
}
use omniportal.Storage.Store.Synced.{Valid}
use omniportal.Storage.Store.Synced.Blobs.{Safe-append_config}
use omniportal.Storage.Store.Synced.Images.{Safe-find-entity}
use omniportal.Storage.Store.Synced.Rules.{
  Safe, Any, KeepsTables, Safe-bind, Safe-pure, Safe-raise, Safe-if, Safe-gets, Safe-set_catalog,
  Safe-take_generation,
}

-- Other slots, another mode and another generation of the two.
keeps_settings :
    (c : Catalog) (slots : List (Option RecordId)) (mode : GameLine) (generation : ℕ)
    → Valid c
    → KeepsTables c
        (record c { active_slots = slots; usb_mode = mode; active_config_generation = generation })
keeps_settings c slots mode generation v = record {
  same = record { identities_eq = refl; entities_eq = refl; blobs_eq = refl };
  valid = record {
    record_id_lt = v.record_id_lt;
    blob_id_lt = v.blob_id_lt;
    generation_lt = v.generation_lt;
    identities = v.identities;
    entities = v.entities;
    blobs = v.blobs;
  };
  offset_eq = refl;
  format_eq = refl;
}

keeps_trans : (a b c : Catalog) → KeepsTables a b → KeepsTables b c → KeepsTables a c
keeps_trans a b c f g = record {
  same = record {
    identities_eq = f.same.identities_eq ∙ g.same.identities_eq;
    entities_eq = f.same.entities_eq ∙ g.same.entities_eq;
    blobs_eq = f.same.blobs_eq ∙ g.same.blobs_eq;
  };
  valid = g.valid;
  offset_eq = g.offset_eq ∙ f.offset_eq;
  format_eq = g.format_eq ∙ f.format_eq;
}

pub Safe-set_usb_mode : (mode : GameLine) → Safe (set_usb_mode mode) Any
unfolding set_usb_mode
Safe-set_usb_mode mode = Safe-bind (gets _) _ (Safe-gets {Q = Any} _ (λ s z. tt)) (λ same _.
    Safe-if same (pure (mode, false)) _ (Safe-pure _ tt) (
      Safe-bind (take_next take_generation) _ Safe-take_generation (λ generation g.
        Safe-bind (set_catalog _) _
          (Safe-set_catalog _ (λ c v. keeps_settings c no_slots mode generation v))
          (λ _ _.
            Safe-bind (append 8 0 generation (encode_config no_slots mode)) _
              (Safe-append_config generation no_slots mode g) (λ _ _. Safe-pure _ tt)))))

keeps_clear_half : (o : Option RecordId) (c : Catalog) → Valid c → KeepsTables c (clear_half o c)
unfolding clear_active_entity
keeps_clear_half none c v = keeps_settings c c.active_slots c.usb_mode c.active_config_generation v
keeps_clear_half (some id) c v = keeps_settings c _ c.usb_mode c.active_config_generation v

keeps_make_room :
    (e : Entity) (slot : ℕ) (c : Catalog) → Valid c → KeepsTables c (make_room e slot c)
unfolding make_room
keeps_make_room e slot c v = either (is_swapper_combo e)
  where
    cleared : Catalog
    cleared = record c { active_slots = set (set c.active_slots slot none) (slot + 1) none }

    halves :
        KeepsTables c
          (clear_half e.swapper_bottom_entity_id (clear_half e.swapper_top_entity_id cleared))
    halves =
        let first =
          keeps_settings c (set (set c.active_slots slot none) (slot + 1) none) c.usb_mode
            c.active_config_generation v in
        let second = keeps_clear_half e.swapper_top_entity_id cleared first.valid in
        keeps_trans c cleared _ first (
          keeps_trans cleared _ _ second (
            keeps_clear_half e.swapper_bottom_entity_id (clear_half e.swapper_top_entity_id cleared)
              second.valid))

    either :
        (b : Bool)
        → KeepsTables c (
            if b
            then clear_half e.swapper_bottom_entity_id (clear_half e.swapper_top_entity_id cleared)
            else c)
    either true = halves
    either false = keeps_settings c c.active_slots c.usb_mode c.active_config_generation v

pub Safe-select_entity : (id : RecordId) (slot : ℕ) → Safe (select_entity id slot) Any
unfolding select_entity place_entity_in_slot clear_active_entity
Safe-select_entity id slot =
    Safe-bind (find (entity id) not_found) _ (Safe-find-entity id not_found) (λ e _.
      Safe-if (not (entity_can_use_active_slot e slot)) _ _ (Safe-raise (failed bad_request)) (
        Safe-bind (take_next take_generation) _ Safe-take_generation (λ generation g.
          Safe-set_catalog _ (λ c v.
            let room = keeps_make_room e slot c v in
            keeps_trans c (make_room e slot c) _ room (
              keeps_settings (make_room e slot c) _ (make_room e slot c).usb_mode generation
                room.valid)))))

pub Safe-clear_active : (slot : Option ℕ) → Safe (clear_active slot) Any
unfolding clear_active
Safe-clear_active slot =
    Safe-bind (take_next take_generation) _ Safe-take_generation
      (λ generation g. Safe-set_catalog _ (λ c v. keeps_settings c _ c.usb_mode generation v))
