-- ===== src/Storage/Store/Edit.antt =====
-- The operations of src/storage/mod.rs that delete or rename a record.
use omniportal.Base.{ℕ, List, [], ◌∷◌, Bool, false, ◌||◌, Option, none, some, ◌==◌, if◌then◌else◌}
use omniportal.Base.Result.{ok, err}
use omniportal.Base.Ascii.{ascii}
use omniportal.Base.Exec.{Exec, pure, raise, lift, ◌>>=◌, ◌>>◌}
use omniportal.Storage.Records.{Entity, RecordId}
use omniportal.Storage.Table.{StorageError, uninitialized, bad_request, not_found}
use omniportal.Storage.Catalog.{
  Catalog, take_generation, identity, entity, upsert_identity, upsert_entity, delete_identity,
  delete_entity,
}
use omniportal.Storage.Journal.{
  Store, record_kind_identity_upsert, record_kind_identity_delete, record_kind_entity_delete,
  record_kind_entity_upsert,
}
use omniportal.Storage.Journal.EntityRecord.{encode_entity}
use omniportal.Storage.Store.{
  Fault, failed, Action, append, change, find, take_next, with_store_mut,
}
use omniportal.Storage.Store.Compact.{encoded_identity}
use omniportal.Storage.Store.Create.{name_text}
use omniportal.Storage.Store.Params.{required, required_number}

unfoldable pub delete_record :
    ℕ → (RecordId → Catalog → Catalog × Option StorageError) → RecordId → Action Unit
unfolding take_next append change
delete_record record_kind apply id = do
  generation ← take_next take_generation
  append record_kind id generation []
  change (apply id)

unfoldable pub delete_record_from_query :
    List ℕ
    → ℕ
    → (RecordId → Catalog → Catalog × Option StorageError)
    → Exec (Option Store) Fault Unit
unfolding with_store_mut delete_record
delete_record_from_query query record_kind apply = do
  id ← lift (required_number query (ascii "id"))
  with_store_mut (delete_record record_kind apply id)

unfoldable pub delete_identity_from_query : List ℕ → Exec (Option Store) Fault Unit
unfolding delete_record_from_query delete_identity
delete_identity_from_query query =
    delete_record_from_query query record_kind_identity_delete delete_identity

abbrev is_half : RecordId → Option RecordId → Bool
is_half id none = false
is_half id (some half) = half == id

-- `entities.iter().flatten().any(…)`: an entity is a half of a combination.
unfoldable pub referenced_by_combo : RecordId → List (Option Entity) → Bool
referenced_by_combo id [] = false
referenced_by_combo id (none ∷ entities) = referenced_by_combo id entities
referenced_by_combo id (some e ∷ entities) =
    is_half id e.swapper_top_entity_id
    || is_half id e.swapper_bottom_entity_id
    || referenced_by_combo id entities

-- `with_store(…).ok_or(StorageError::Uninitialized)?`.
abbrev pub with_store : {A : Type 0} → (Store → A) → Exec (Option Store) Fault A
with_store f none = (none, err (failed uninitialized))
with_store f (some s) = (some s, ok (f s))

unfoldable pub delete_entity_from_query : List ℕ → Exec (Option Store) Fault Unit
unfolding delete_record_from_query delete_entity referenced_by_combo
delete_entity_from_query query = do
  id ← lift (required_number query (ascii "id"))
  referenced ← with_store (λ s. referenced_by_combo id s.catalog.entities)
  if referenced
      then raise (failed bad_request)
      else delete_record_from_query query record_kind_entity_delete delete_entity

unfoldable pub rename_identity : RecordId → List ℕ → Action Unit
unfolding find take_next encoded_identity append change
rename_identity id name = do
  i ← find (identity id) not_found
  fixed ← name_text name
  generation ← take_next take_generation
  i ← pure (record i { name = fixed; generation = generation })
  payload ← encoded_identity i
  append record_kind_identity_upsert id i.generation payload
  change (upsert_identity i)

unfoldable pub rename_identity_from_query : List ℕ → Exec (Option Store) Fault Unit
unfolding with_store_mut rename_identity
rename_identity_from_query query = do
  id ← lift (required_number query (ascii "id"))
  name ← lift (required query (ascii "name"))
  with_store_mut (rename_identity id name)

-- The record is appended under the id of the query, which is the entity's.
unfoldable pub rename_entity : RecordId → List ℕ → Action Unit
unfolding find take_next append change
rename_entity id name = do
  e ← find (entity id) not_found
  fixed ← name_text name
  generation ← take_next take_generation
  e ← pure (record e { name = fixed; updated_generation = generation })
  append record_kind_entity_upsert id e.updated_generation (encode_entity e)
  change (upsert_entity e)

unfoldable pub rename_entity_from_query : List ℕ → Exec (Option Store) Fault Unit
unfolding with_store_mut rename_entity
rename_entity_from_query query = do
  id ← lift (required_number query (ascii "id"))
  name ← lift (required query (ascii "name"))
  with_store_mut (rename_entity id name)
