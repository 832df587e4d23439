-- ===== src/Storage/Store/Synced/Reboot.antt =====
-- The store of src/storage/mod.rs over its life: requests, and then a boot of the flash.
use mathlib.Core.Path.{subst}
use omniportal.Base.{◌≡◌, ◌≢◌, refl, ap, ◌∙◌, ◌⊎◌, inl, inr, false, Option, none, some}
use omniportal.Base.All.{All}
use omniportal.Base.Result.{Result, ok, err}
use omniportal.Storage.Table.{full}
use omniportal.Storage.Catalog.{new_catalog, clear_transient_active_slots}
use omniportal.Storage.Forms.Params.{IsByte}
use omniportal.Storage.Journal.{Store}
use omniportal.Storage.Journal.Replay.Extend.{replay-needs_format}
use omniportal.Storage.Journal.{returned}
use omniportal.Storage.Journal.Replay.Tail.{scan_flash-replay}
use omniportal.Storage.Store.{Fault, failed, init}
use omniportal.Storage.Store.Figures.{Figures, FiguresFit}
use omniportal.Storage.Store.Requests.{
  Request, serve, create_identity_request, create_entity_request, create_from_catalog_request,
  create_combo_request, upload_request, upload_form_request, clone_request, delete_identity_request,
  delete_entity_request, rename_identity_request, rename_entity_request, replace_blob_request,
  select_request, clear_request, mode_request, compact_request, format_request,
}
use omniportal.Storage.Store.Synced.{Synced, SameTables}
use omniportal.Storage.Store.Synced.Blobs.{IsImage}
use omniportal.Storage.Store.Synced.Images.{Safe-replace_entity_blob, Safe-format_storage}
use omniportal.Storage.Store.Synced.Rewrite.{Safe-compact_store}
use omniportal.Storage.Store.Synced.Served.{Served, InPlace, Served-store}
use omniportal.Storage.Store.Synced.Serves.{
  Served-done, Served-create_identity, Served-create_entity, Served-create_from_catalog,
  Served-create_combo, Served-upload, Served-upload_form, Served-clone, Served-delete_identity,
  Served-delete_entity, Served-rename_identity, Served-rename_entity, Served-select, Served-clear,
  Served-mode,
}

-- The parameters are bytes, and an image is not larger than the flash.
abbrev pub IsRequest : Request → Type 0
IsRequest (create_identity_request q) = All IsByte q
IsRequest (create_entity_request q) = All IsByte q
IsRequest (create_from_catalog_request q) = All IsByte q
IsRequest (create_combo_request q) = All IsByte q
IsRequest (upload_request q image) = All IsByte q × All IsByte image
IsRequest (upload_form_request q) = All IsByte q
IsRequest (clone_request q) = All IsByte q
IsRequest (delete_identity_request q) = All IsByte q
IsRequest (delete_entity_request q) = All IsByte q
IsRequest (rename_identity_request q) = All IsByte q
IsRequest (rename_entity_request q) = All IsByte q
IsRequest (replace_blob_request id image) = IsImage image
IsRequest (select_request q) = All IsByte q
IsRequest (clear_request q) = All IsByte q
IsRequest (mode_request q) = All IsByte q
IsRequest compact_request = Unit
IsRequest format_request = Unit

module _ (figures : Figures) where
  module _ (fit : FiguresFit figures) where
    serve-Served : (request : Request) → IsRequest request → Served (serve figures request)
    unfolding serve
    serve-Served (create_identity_request q) h = Served-done _ (Served-create_identity q h)
    serve-Served (create_entity_request q) h = Served-done _ (Served-create_entity figures fit q h)
    serve-Served (create_from_catalog_request q) h =
        Served-done _ (Served-create_from_catalog figures fit q h)
    serve-Served (create_combo_request q) h = Served-done _ (Served-create_combo q h)
    serve-Served (upload_request q image) h =
        Served-done _ (Served-upload figures fit q h.0 image h.1)
    serve-Served (upload_form_request q) h = Served-done _ (Served-upload_form figures fit q h)
    serve-Served (clone_request q) h = Served-done _ (Served-clone figures fit q h)
    serve-Served (delete_identity_request q) h = Served-delete_identity q
    serve-Served (delete_entity_request q) h = Served-delete_entity q
    serve-Served (rename_identity_request q) h = Served-rename_identity q h
    serve-Served (rename_entity_request q) h = Served-rename_entity q h
    serve-Served (replace_blob_request id image) h =
        Served-store _ (Safe-replace_entity_blob figures fit id image h)
    serve-Served (select_request q) h = Served-select q
    serve-Served (clear_request q) h = Served-clear q
    serve-Served (mode_request q) h = Served-done _ (Served-mode q)
    serve-Served compact_request h = Served-store _ Safe-compact_store
    serve-Served format_request h = Served-store _ Safe-format_storage

  -- A run of the device: requests, none of which ended with the error `full`.
  pub data Session (s : Store) : Store → Type 0 where
    begins : Session s s
    serves :
        (t u : Store) (request : Request) (result : Result {0, 0} Fault Unit)
        → Session s t
        → IsRequest request
        → serve figures request (some t) ≡ (some u, result)
        → result ≢ err (failed full)
        → Session s u

  InPlace-Synced :
      (u : Store) (result : Result {0, 0} Fault Unit)
      → InPlace (some u, result)
      → result ≢ err (failed full)
      → Synced u
  InPlace-Synced u (ok a) h unfailed = h.0
  InPlace-Synced u (err e) (inl is_full) unfailed = absurd (unfailed (ap err is_full))
  InPlace-Synced u (err e) (inr z) unfailed = z

  Session-Synced : (fit : FiguresFit figures) (s t : Store) → Synced s → Session s t → Synced t
  Session-Synced fit s t z begins = z
  Session-Synced fit s u z (serves t _ request result run valid step unfailed) =
      InPlace-Synced u result
        (subst InPlace step ((serve-Served fit request valid).at t (Session-Synced fit s t z run)))
        unfailed

-- A boot of the flash rebuilds the tables.
booted-SameTables :
    (s : Store)
    → Synced s
    → (booted : Store) × (init s.flash ≡ some booted)
      × (booted.flash ≡ s.flash)
      × SameTables booted.catalog s.catalog
      × (booted.catalog.needs_format ≡ false)
unfolding init clear_transient_active_slots new_catalog
booted-SameTables s z =
    let scan =
      scan_flash-replay z.written z.represents.free s.flash new_catalog z.represents.stored
        z.represents.size z.represents.records refl
      ∙ ap returned z.replayed in
    (
      record { flash = s.flash; catalog = clear_transient_active_slots z.booted },
      rw (init, scan) refl,
      refl,
      record {
        identities_eq = z.same.identities_eq;
        entities_eq = z.same.entities_eq;
        blobs_eq = z.same.blobs_eq;
      },
      replay-needs_format z.written 0 new_catalog z.booted z.replayed,
    )

-- The storage survives a restart. From a store that is in step with its flash, after any sequence of
-- requests none of which ended with the error `full`, whether they succeeded or were refused, with a compaction or a format among
-- them or not, a boot finds the identities, the entities and the blobs that the store had, and the storage
-- does not need a format. Assumed of the figures' code: its numbers fit the records, and its images
-- have the two fixed sizes.
pub tables_survive_reboot :
    (figures : Figures) (s t : Store)
    → FiguresFit figures
    → Synced s
    → Session figures s t
    → (booted : Store) × (init t.flash ≡ some booted)
      × (booted.flash ≡ t.flash)
      × SameTables booted.catalog t.catalog
      × (booted.catalog.needs_format ≡ false)
tables_survive_reboot figures s t fit z run =
    booted-SameTables t (Session-Synced figures fit s t z run)

-- A request to a store in step with its flash ends: the store is in its place again, and in step with the flash, or
-- the request has found no room and says so.
pub serve_settles :
    (figures : Figures) (request : Request) (s : Store)
    → FiguresFit figures
    → IsRequest request
    → Synced s
    → (t : Store) × (result : Result {0, 0} Fault Unit) × (serve figures request (some s)
        ≡ (some t, result))
      × ((result ≡ err (failed full)) ⊎ Synced t)
serve_settles figures request s fit valid z =
    settled (serve figures request (some s)) ((serve-Served figures fit request valid).at s z)
  where
    settled :
        (r : Option Store × Result {0, 0} Fault Unit)
        → InPlace r
        → (t : Store) × (result : Result {0, 0} Fault Unit) × (r ≡ (some t, result))
          × ((result ≡ err (failed full)) ⊎ Synced t)
    settled (none, result) h = absurd h
    settled (some t, ok a) h = (t, ok a, refl, inr h.0)
    settled (some t, err e) (inl is_full) = (t, err e, refl, inl (ap err is_full))
    settled (some t, err e) (inr z) = (t, err e, refl, inr z)
