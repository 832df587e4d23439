-- ===== src/Storage/Store/Slots.antt =====
-- The active slots and the mode of the USB port: src/storage/mod.rs.
use omniportal.Base.{
  ℕ, ◌+◌, List, Bool, true, false, not, Option, none, some, leb, if◌then◌else◌, set, replicate,
}
use omniportal.Base.Bytes.{bytes_eq}
use omniportal.Base.Result.{Result, ok, err}
use omniportal.Base.Ascii.{ascii}
use omniportal.Base.Exec.{Exec, pure, raise, lift, gets, ◌>>=◌, ◌>>◌}
use omniportal.Domain.{GameLine}
use omniportal.Storage.Records.{Entity, RecordId, is_swapper_combo}
use omniportal.Storage.Table.{bad_request, not_found}
use omniportal.Storage.Catalog.{
  Catalog, entity, take_generation, clear_active_entity, place_entity_in_slot, max_figures,
}
use omniportal.Storage.Journal.{Store, record_kind_config_upsert}
use omniportal.Storage.Journal.Config.{encode_config}
use omniportal.Storage.Forms.{query_param}
use omniportal.Storage.Store.{
  Fault, failed, Action, append, find, take_next, with_store_mut, or_fail, set_catalog,
}
use omniportal.Storage.Store.Figures.{entity_can_use_active_slot}
use omniportal.Storage.Store.Images.{same_game}
use omniportal.Storage.Store.Params.{or_else, number_param, required_number}

abbrev pub no_slots : List (Option RecordId)
no_slots = replicate max_figures none

abbrev pub mode_of : List ℕ → Result {0, 0} Fault GameLine
mode_of mode =
    if bytes_eq mode (ascii "skylanders")
    then ok GameLine.skylanders
    else if bytes_eq mode (ascii "infinity")
    then ok GameLine.infinity
    else err (failed bad_request)

-- The result is the mode, and whether it changed.
unfoldable pub set_usb_mode : GameLine → Action (GameLine × Bool)
unfolding take_next append set_catalog
set_usb_mode mode = do
  same ← gets (λ s. same_game s.catalog.usb_mode mode)
  if same then pure (mode, false) else do
    generation ← take_next take_generation
    set_catalog (λ c. record c {
      usb_mode = mode;
      active_slots = no_slots;
      active_config_generation = generation;
    })
    append record_kind_config_upsert 0 generation (encode_config no_slots mode)
    pure (mode, true)

unfoldable pub set_usb_mode_from_params : List ℕ → Exec (Option Store) Fault (GameLine × Bool)
unfolding query_param set_usb_mode with_store_mut
set_usb_mode_from_params params = do
  mode ← lift (
      or_fail (or_else (query_param params (ascii "mode")) (query_param params (ascii "game")))
        bad_request)
  mode ← lift (mode_of mode)
  with_store_mut (set_usb_mode mode)

abbrev pub clear_half : Option RecordId → Catalog → Catalog
clear_half none c = c
clear_half (some id) c = clear_active_entity id c

-- A combination takes two slots, and its halves are taken off theirs.
unfoldable pub make_room : Entity → ℕ → Catalog → Catalog
unfolding is_swapper_combo clear_active_entity
make_room e slot c =
    if is_swapper_combo e
    then clear_half e.swapper_bottom_entity_id (
        clear_half e.swapper_top_entity_id
          (record c { active_slots = set (set c.active_slots slot none) (slot + 1) none }))
    else c

unfoldable pub select_entity : RecordId → ℕ → Action Unit
unfolding find entity_can_use_active_slot take_next set_catalog make_room place_entity_in_slot
select_entity id slot = do
  e ← find (entity id) not_found
  if not (entity_can_use_active_slot e slot) then raise (failed bad_request) else do
    generation ← take_next take_generation
    set_catalog (λ c. record (place_entity_in_slot id slot (make_room e slot c)) {
      active_config_generation = generation;
    })

-- `unwrap_or(0)`.
abbrev pub slot_or_first : Option ℕ → ℕ
slot_or_first none = 0
slot_or_first (some slot) = slot

unfoldable pub select_entity_from_params : List ℕ → Exec (Option Store) Fault Unit
unfolding select_entity with_store_mut
select_entity_from_params params = do
  id ← lift (required_number params (ascii "id"))
  slot ← pure (slot_or_first (number_param params (ascii "slot")))
  if leb max_figures slot
      then raise (failed bad_request)
      else with_store_mut (select_entity id slot)

abbrev pub past_end : Option ℕ → Bool
past_end none = false
past_end (some slot) = leb max_figures slot

abbrev clear_slots : Option ℕ → List (Option RecordId) → List (Option RecordId)
clear_slots none slots = no_slots
clear_slots (some slot) slots = set slots slot none

unfoldable pub clear_active : Option ℕ → Action Unit
unfolding take_next set_catalog
clear_active slot = do
  generation ← take_next take_generation
  set_catalog (λ c. record c {
    active_slots = clear_slots slot c.active_slots;
    active_config_generation = generation;
  })

unfoldable pub clear_active_entity_from_params : List ℕ → Exec (Option Store) Fault Unit
unfolding clear_active with_store_mut
clear_active_entity_from_params params =
    let slot = number_param params (ascii "slot") in
    if past_end slot then raise (failed bad_request) else with_store_mut (clear_active slot)
