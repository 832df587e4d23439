-- ===== src/Storage/Store/Synced/Serves.antt =====
-- Every request leaves the store in step with its flash, unless it finds no room.
use omniportal.Base.{ℕ, ◌≡◌, List, Option, leb}
use omniportal.Base.All.{All}
use omniportal.Base.Ascii.{ascii}
use omniportal.Base.Result.{ok}
use omniportal.Base.Exec.{Exec, pure}
use omniportal.Domain.{GameLine}
use omniportal.Storage.Table.{bad_request, not_found}
use omniportal.Storage.Catalog.{max_figures}
use omniportal.Storage.Journal.{Store}
use omniportal.Storage.Forms.{decode_hex_bytes}
use omniportal.Storage.Forms.Params.{IsByte}
use omniportal.Storage.Store.{Fault, failed, or_fail}
use omniportal.Storage.Store.Create.{
  create_identity_from_query, create_entity_from_query, create_entity_from_catalog_params,
  create_swapper_combo_from_params, game_param, from_catalog,
}
use omniportal.Storage.Store.Edit.{
  delete_record_from_query, delete_identity_from_query, delete_entity_from_query,
  rename_identity_from_query, rename_entity_from_query, referenced_by_combo,
}
use omniportal.Storage.Store.Figures.{Figures, FiguresFit}
use omniportal.Storage.Store.Images.{parse_skylanders, parse_infinity}
use omniportal.Storage.Store.Import.{
  upload, upload_entity_from_params, upload_entity_from_form_params, clone_entity_from_params,
}
use omniportal.Storage.Store.Params.{required, required_number, number_param}
use omniportal.Storage.Store.Slots.{
  set_usb_mode_from_params, select_entity_from_params, clear_active_entity_from_params, mode_of,
  past_end,
}
use omniportal.Storage.Store.Requests.{done}
use omniportal.Storage.Store.Synced.Combine.{
  Safe-create_swapper_combo, Safe-upload_skylanders, Safe-upload_infinity, Safe-clone_entity,
}
use omniportal.Storage.Store.Synced.Create.{
  Safe-create_entity, Safe-create_skylanders, Safe-create_infinity,
}
use omniportal.Storage.Store.Synced.Edit.{
  Safe-create_identity, Safe-rename_identity, Safe-rename_entity, Safe-delete_identity_record,
  Safe-delete_entity_record,
}
use omniportal.Storage.Store.Synced.Params.{
  or_fail-ok, required-Utf8, required_number-lt, number_param-Fits, optional-Utf8,
  parse_skylanders-Fits, parse_infinity-Fits, decode_hex_bytes-IsByte,
}
use omniportal.Storage.Store.Synced.Served.{
  Served, Served-pure, Served-raise, Served-if, Served-store, Served-bind, Served-lift, Served-look,
}
use omniportal.Storage.Store.Synced.Slots.{Safe-set_usb_mode, Safe-select_entity, Safe-clear_active}

pub Served-done : {A : Type 0} → (m : Exec (Option Store) Fault A) → Served m → Served (done m)
Served-done m k = Served-bind m (λ _. pure tt) k (λ _. Served-pure tt)

module _ (q : List ℕ) (bytes : All IsByte q) where
  pub Served-create_identity : Served (create_identity_from_query q)
  unfolding create_identity_from_query
  Served-create_identity = Served-lift (required q (ascii "name")) _ (λ name n.
      Served-lift (required_number q (ascii "character_id")) _ (λ character_id c. Served-store _ (
        Safe-create_identity name (required-Utf8 q _ name bytes n) character_id _ _
          (required_number-lt q _ character_id c) (number_param-Fits q (ascii "variant_id"))
          (optional-Utf8 q (ascii "source") bytes))))

  pub Served-create_combo : Served (create_swapper_combo_from_params q)
  unfolding create_swapper_combo_from_params
  Served-create_combo = Served-lift (required_number q (ascii "top_id")) _ (λ top_id _.
      Served-lift (required_number q (ascii "bottom_id")) _ (λ bottom_id _.
        Served-lift (required q (ascii "name")) _ (λ name n.
          Served-store _
            (Safe-create_swapper_combo name (required-Utf8 q _ name bytes n) top_id bottom_id))))

  pub Served-rename_identity : Served (rename_identity_from_query q)
  unfolding rename_identity_from_query
  Served-rename_identity = Served-lift (required_number q (ascii "id")) _ (λ id _.
      Served-lift (required q (ascii "name")) _
        (λ name n. Served-store _ (Safe-rename_identity name (required-Utf8 q _ name bytes n) id)))

  pub Served-rename_entity : Served (rename_entity_from_query q)
  unfolding rename_entity_from_query
  Served-rename_entity = Served-lift (required_number q (ascii "id")) _ (λ id _.
      Served-lift (required q (ascii "name")) _
        (λ name n. Served-store _ (Safe-rename_entity name (required-Utf8 q _ name bytes n) id)))

module _ (q : List ℕ) where
  pub Served-delete_identity : Served (delete_identity_from_query q)
  unfolding delete_identity_from_query delete_record_from_query
  Served-delete_identity =
      Served-lift (required_number q (ascii "id")) _
        (λ id n. Served-store _ (Safe-delete_identity_record id (required_number-lt q _ id n)))

  pub Served-delete_entity : Served (delete_entity_from_query q)
  unfolding delete_entity_from_query delete_record_from_query
  Served-delete_entity = Served-lift (required_number q (ascii "id")) _ (λ id _.
      Served-look (λ s. referenced_by_combo id s.catalog.entities) _
        (λ referenced. Served-if referenced _ _ (Served-raise (failed bad_request)) (
          Served-lift (required_number q (ascii "id")) _
            (λ id n. Served-store _ (Safe-delete_entity_record id (required_number-lt q _ id n))))))

  pub Served-select : Served (select_entity_from_params q)
  unfolding select_entity_from_params
  Served-select = Served-lift (required_number q (ascii "id")) _ (λ id _.
      Served-bind (pure _) _ (Served-pure _) (λ slot.
        Served-if (leb max_figures slot) _ _ (Served-raise (failed bad_request))
          (Served-store _ (Safe-select_entity id slot))))

  pub Served-clear : Served (clear_active_entity_from_params q)
  unfolding clear_active_entity_from_params
  Served-clear =
      Served-if (past_end (number_param q (ascii "slot"))) _ _ (Served-raise (failed bad_request))
        (Served-store _ (Safe-clear_active (number_param q (ascii "slot"))))

  pub Served-mode : Served (set_usb_mode_from_params q)
  unfolding set_usb_mode_from_params
  Served-mode =
      Served-lift _ _
        (λ raw _. Served-lift (mode_of raw) _ (λ mode _. Served-store _ (Safe-set_usb_mode mode)))

module _ (figures : Figures) (fit : FiguresFit figures) (q : List ℕ) (bytes : All IsByte q) where
  pub Served-create_entity : Served (create_entity_from_query figures q)
  unfolding create_entity_from_query
  Served-create_entity = Served-lift (required_number q (ascii "identity_id")) _ (λ identity_id _.
      Served-lift (required q (ascii "name")) _ (λ name n.
        Served-store _
          (Safe-create_entity figures fit name (required-Utf8 q _ name bytes n) identity_id)))

  pub Served-of_game :
      (game : GameLine) (catalog_index : ℕ) (name : List ℕ)
      → required q (ascii "name") ≡ ok name
      → Served (from_catalog figures game catalog_index name)
  Served-of_game GameLine.skylanders catalog_index name n =
      Served-lift (or_fail (figures.skylanders_catalog_entry catalog_index) not_found) _ (λ entry e.
        Served-store _ (
          Safe-create_skylanders figures fit name (required-Utf8 q _ name bytes n) entry
            (fit.skylanders_entry catalog_index entry (or_fail-ok _ not_found entry e))))
  Served-of_game GameLine.infinity catalog_index name n =
      Served-lift (or_fail (figures.infinity_catalog_entry catalog_index) not_found) _ (λ entry e.
        Served-store _ (
          Safe-create_infinity figures fit name (required-Utf8 q _ name bytes n) entry
            (fit.infinity_entry catalog_index entry (or_fail-ok _ not_found entry e))))

  pub Served-create_from_catalog : Served (create_entity_from_catalog_params figures q)
  unfolding create_entity_from_catalog_params
  Served-create_from_catalog = Served-lift (game_param q) _ (λ game _.
      Served-lift _ _ (λ catalog_index _.
        Served-lift (required q (ascii "name")) _
          (λ name n. Served-of_game game catalog_index name n)))

  module _ (image : List ℕ) (image_bytes : All IsByte image) where
    pub Served-upload_game : (game : GameLine) → Served (upload figures game q image)
    Served-upload_game GameLine.skylanders = Served-lift (required q (ascii "name")) _ (λ name n.
        Served-lift (or_fail (parse_skylanders figures image) bad_request) _ (λ imported e.
          let fits =
            parse_skylanders-Fits figures fit image imported image_bytes
              (or_fail-ok _ bad_request imported e) in
          Served-store _ (
            Safe-upload_skylanders name (required-Utf8 q _ name bytes n) _ imported image fits.0
              fits.1)))
    Served-upload_game GameLine.infinity = Served-lift (required q (ascii "name")) _ (λ name n.
        Served-lift (or_fail (parse_infinity figures image) bad_request) _ (λ imported e.
          let fits =
            parse_infinity-Fits figures fit image imported (or_fail-ok _ bad_request imported e) in
          Served-store _ (
            Safe-upload_infinity name (required-Utf8 q _ name bytes n) _ imported image fits.0
              fits.1)))

    pub Served-upload : Served (upload_entity_from_params figures q image)
    unfolding upload_entity_from_params
    Served-upload = Served-lift (game_param q) _ (λ game _. Served-upload_game game)

  pub Served-upload_form : Served (upload_entity_from_form_params figures q)
  unfolding upload_entity_from_form_params
  Served-upload_form = Served-lift (required q (ascii "image_hex")) _ (λ image_hex _.
      Served-lift (or_fail (decode_hex_bytes image_hex) bad_request) _ (λ image e.
        Served-upload image
          (decode_hex_bytes-IsByte image_hex image (or_fail-ok _ bad_request image e))))

  pub Served-clone : Served (clone_entity_from_params figures q)
  unfolding clone_entity_from_params
  Served-clone = Served-lift _ _ (λ source_id _.
      Served-lift (required q (ascii "name")) _ (λ name n.
        Served-store _
          (Safe-clone_entity name (required-Utf8 q _ name bytes n) figures fit source_id)))
