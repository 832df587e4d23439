-- ===== src/Storage/Table.antt =====
-- The fixed arrays of src/storage/catalog.rs: `upsert_by_id`, `delete_by_id` and the searches
-- `iter().flatten().find(|item| item.id == id)`, over records that carry a number as their id.
pub mod Laws
pub mod Contents
pub mod Examples
use omniportal.Base.{
  ℕ, ◌≡◌, List, [], ◌∷◌, Bool, true, false, Option, none, some, ◌==◌, if◌then◌else◌,
}

-- `StorageError` of src/storage/mod.rs.
pub data StorageError : Type 0 where
  uninitialized needs_format bad_request not_found full flash_error corrupt : StorageError

module _ {ℓ} {T : Type ℓ} (id_of : T → ℕ) where
  -- `slot.map(|item| id_of(item) == id).unwrap_or(false)`.
  abbrev pub holds : ℕ → Option T → Bool
  holds id none = false
  holds id (some item) = id_of item == id

  unfoldable pub find_by_id : ℕ → List (Option T) → Option T
  find_by_id id [] = none
  find_by_id id (none ∷ items) = find_by_id id items
  find_by_id id (some item ∷ items) = if id_of item == id then some item else find_by_id id items

  -- The first slot that holds the id is given `value`; `none` if there is no such slot.
  unfoldable pub replace_found : ℕ → Option T → List (Option T) → Option (List (Option T))
  replace_found id value [] = none
  replace_found id value (slot ∷ items) =
      let rest = replace_found id value items in
      if holds id slot
      then some (value ∷ items)
      else elim rest [ none ↦ none | some items' ↦ some (slot ∷ items') ]

  -- The first empty slot is given `value`; `none` if the array is full.
  unfoldable pub fill_empty : T → List (Option T) → Option (List (Option T))
  fill_empty value [] = none
  fill_empty value (none ∷ items) = some (some value ∷ items)
  fill_empty value (some item ∷ items) = elim (fill_empty value items) [
    | none ↦ none
    | some items' ↦ some (some item ∷ items')
  ]

  abbrev or_error :
      List (Option T)
      → Option (List (Option T))
      → StorageError
      → List (Option T) × Option StorageError
  or_error items none e = (items, some e)
  or_error items (some items') e = (items', none)

  -- The array afterwards, with the error if there is one.
  unfoldable pub upsert_by_id : T → List (Option T) → List (Option T) × Option StorageError
  unfolding replace_found fill_empty
  upsert_by_id value items = elim (replace_found (id_of value) (some value) items) [
    | some items' ↦ (items', none)
    | none ↦ or_error items (fill_empty value items) full
  ]

  unfoldable pub delete_by_id : ℕ → List (Option T) → List (Option T) × Option StorageError
  unfolding replace_found
  delete_by_id id items = or_error items (replace_found id none items) not_found
