-- ===== src/Storage/Table/Examples.antt =====
-- Arrays on which the theorems on src/storage/catalog.rs apply.
use omniportal.Base.{ℕ, ◌≡◌, ◌↔◌, refl, List, [], ◌∷◌, Option, none, some, ◌==◌, if◌then◌else◌}
use omniportal.Storage.Table.{
  find_by_id, upsert_by_id, delete_by_id, replace_found, fill_empty, full,
}
use omniportal.Storage.Table.Laws.{
  Unique, IsFull, find-upsert_by_id, upsert_by_id_fails, find-delete_by_id, upsert_by_id-Unique,
}

-- Items that carry their id in front.
abbrev Item : Type 0
Item = ℕ × ℕ

abbrev item_id : Item → ℕ
item_id (id, value) = id

abbrev one_item : List (Option Item)
one_item = none ∷ some (5, 50) ∷ []

one_item-Unique : Unique item_id one_item
unfolding find_by_id
one_item-Unique = (refl, tt)

find-upsert_by_id_example :
    find_by_id item_id 5 (some (7, 70) ∷ some (5, 50) ∷ [])
    ≡ (if 7 == 5 then some (7, 70) else find_by_id item_id 5 one_item)
unfolding upsert_by_id replace_found fill_empty
find-upsert_by_id_example =
    find-upsert_by_id item_id 5 (7, 70) one_item (some (7, 70) ∷ some (5, 50) ∷ []) refl

upsert_by_id_fails_example :
    (upsert_by_id item_id (7, 70) one_item ≡ (one_item, some full))
    ↔ (IsFull item_id one_item × (find_by_id item_id 7 one_item ≡ none))
upsert_by_id_fails_example = upsert_by_id_fails item_id (7, 70) one_item

find-delete_by_id_example :
    find_by_id item_id 5 (none ∷ none ∷ [])
    ≡ (if 5 == 5 then none else find_by_id item_id 5 one_item)
unfolding delete_by_id replace_found
find-delete_by_id_example =
    find-delete_by_id item_id 5 5 one_item (none ∷ none ∷ []) one_item-Unique refl

upsert_by_id-Unique_example : Unique item_id (upsert_by_id item_id (7, 70) one_item).0
upsert_by_id-Unique_example = upsert_by_id-Unique item_id (7, 70) one_item one_item-Unique
