-- ===== src/Storage/Store/Requests.antt =====
-- The operations of src/storage/mod.rs, as requests to the store that `init` has put into its place.
use omniportal.Base.{ℕ, List, Option}
use omniportal.Base.Exec.{Exec, pure, ◌>>◌}
use omniportal.Storage.Records.{RecordId}
use omniportal.Storage.Journal.{Store}
use omniportal.Storage.Store.{Fault, with_store_mut}
use omniportal.Storage.Store.Compact.{compact_store, format_storage}
use omniportal.Storage.Store.Create.{
  create_identity_from_query, create_entity_from_query, create_entity_from_catalog_params,
  create_swapper_combo_from_params,
}
use omniportal.Storage.Store.Edit.{
  delete_identity_from_query, delete_entity_from_query, rename_identity_from_query,
  rename_entity_from_query,
}
use omniportal.Storage.Store.Figures.{Figures}
use omniportal.Storage.Store.Images.{replace_entity_blob_in_store}
use omniportal.Storage.Store.Import.{
  upload_entity_from_params, upload_entity_from_form_params, clone_entity_from_params,
}
use omniportal.Storage.Store.Slots.{
  set_usb_mode_from_params, select_entity_from_params, clear_active_entity_from_params,
}

-- A call of one of the operations that change the store, with its parameters.
pub data Request : Type 0 where
  create_identity_request : List ℕ → Request
  create_entity_request : List ℕ → Request
  create_from_catalog_request : List ℕ → Request
  create_combo_request : List ℕ → Request
  upload_request : List ℕ → List ℕ → Request
  upload_form_request : List ℕ → Request
  clone_request : List ℕ → Request
  delete_identity_request : List ℕ → Request
  delete_entity_request : List ℕ → Request
  rename_identity_request : List ℕ → Request
  rename_entity_request : List ℕ → Request
  replace_blob_request : RecordId → List ℕ → Request
  select_request : List ℕ → Request
  clear_request : List ℕ → Request
  mode_request : List ℕ → Request
  compact_request : Request
  format_request : Request

-- The value is left out.
abbrev pub done : {A : Type 0} → Exec (Option Store) Fault A → Exec (Option Store) Fault Unit
done m = m >> pure tt

module _ (figures : Figures) where
  unfoldable pub serve : Request → Exec (Option Store) Fault Unit
  unfolding create_identity_from_query create_entity_from_query create_entity_from_catalog_params
      create_swapper_combo_from_params upload_entity_from_params upload_entity_from_form_params
      clone_entity_from_params delete_identity_from_query delete_entity_from_query
      rename_identity_from_query rename_entity_from_query replace_entity_blob_in_store
      select_entity_from_params clear_active_entity_from_params set_usb_mode_from_params
      compact_store format_storage with_store_mut
  serve (create_identity_request q) = done (create_identity_from_query q)
  serve (create_entity_request q) = done (create_entity_from_query figures q)
  serve (create_from_catalog_request q) = done (create_entity_from_catalog_params figures q)
  serve (create_combo_request q) = done (create_swapper_combo_from_params q)
  serve (upload_request q image) = done (upload_entity_from_params figures q image)
  serve (upload_form_request q) = done (upload_entity_from_form_params figures q)
  serve (clone_request q) = done (clone_entity_from_params figures q)
  serve (delete_identity_request q) = delete_identity_from_query q
  serve (delete_entity_request q) = delete_entity_from_query q
  serve (rename_identity_request q) = rename_identity_from_query q
  serve (rename_entity_request q) = rename_entity_from_query q
  serve (replace_blob_request id image) =
      with_store_mut (replace_entity_blob_in_store figures id image)
  serve (select_request q) = select_entity_from_params q
  serve (clear_request q) = clear_active_entity_from_params q
  serve (mode_request q) = done (set_usb_mode_from_params q)
  serve compact_request = with_store_mut compact_store
  serve format_request = with_store_mut format_storage
