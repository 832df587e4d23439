-- ===== src/Storage/Store/Synced/Edit.antt =====
-- Identities that are made, and records that are renamed or deleted, keep a store in step with its
-- flash: src/storage/mod.rs.
use mathlib.Core.Path.{subst}
use omniportal.Base.{ℕ, ◌^◌, ◌<◌, ◌≡◌, refl, inl, inr, List, [], ◌∷◌, Option, none, some, true}
use omniportal.Base.Exec.{pure, ◌>>=◌}
use omniportal.Base.Utf8.{is_utf8}
use omniportal.Storage.Records.{RecordId, FixedText}
use omniportal.Storage.Table.{not_found}
use omniportal.Storage.Catalog.{
  identity, entity, take_record_id, take_generation, upsert_identity, upsert_entity,
  delete_identity, delete_entity,
}
use omniportal.Storage.Journal.Crc.{crc32-lt}
use omniportal.Storage.Journal.EntityRecord.{encode_entity}
use omniportal.Storage.Journal.Fields.{Fits}
use omniportal.Storage.Journal.Identity.RoundTrip.{NotesMade}
use omniportal.Storage.Store.{append, change, find, take_next, append_entity_record}
use omniportal.Storage.Store.Compact.{encoded_identity}
use omniportal.Storage.Store.Create.{name_text, notes_text, create_identity}
use omniportal.Storage.Store.Edit.{delete_record, rename_identity, rename_entity}
use omniportal.Storage.Store.Synced.{StoredEntity}
use omniportal.Storage.Store.Synced.Create.{Safe-text, Safe-find-identity}
use omniportal.Storage.Store.Synced.Identities.{
  MadeIdentity, Safe-write_identity, Safe-write_identity_then, Safe-delete_identity,
  Safe-delete_entity,
}
use omniportal.Storage.Store.Synced.Images.{Safe-find-entity}
use omniportal.Storage.Store.Synced.Rules.{
  Safe, Any, IsU32, Safe-bind, Safe-pure, Safe-weaken, Safe-take_record_id, Safe-take_generation,
}
use omniportal.Storage.Store.Synced.Writes.{Safe-append_entity_record}

-- A parameter that may be left out is UTF-8.
abbrev pub OptionalUtf8 : Option (List ℕ) → Type 0
OptionalUtf8 none = Unit
OptionalUtf8 (some raw) = is_utf8 raw ≡ true

abbrev SomeNotes : FixedText → Type 0
SomeNotes notes = (raw : List ℕ) × NotesMade raw notes

Safe-notes : (source : Option (List ℕ)) → OptionalUtf8 source → Safe (notes_text source) SomeNotes
Safe-notes none utf8 = Safe-pure _ ([], inl (refl, refl))
Safe-notes (some []) utf8 = Safe-pure _ ([], inl (refl, refl))
Safe-notes (some (b ∷ bs)) utf8 =
    Safe-weaken _ (Safe-text 96 (b ∷ bs)) (λ notes h. (b ∷ bs, inr (h, utf8)))

module _ (name : List ℕ) (utf8 : is_utf8 name ≡ true) where
  pub Safe-create_identity :
      (character_id : ℕ) (variant_id : Option ℕ) (source : Option (List ℕ))
      → character_id < 2 ^ 32
      → Fits (2 ^ 32) variant_id
      → OptionalUtf8 source
      → Safe (create_identity name character_id variant_id source) Any
  unfolding create_identity
  Safe-create_identity character_id variant_id source c v s =
      Safe-bind (take_next take_record_id) _ Safe-take_record_id (λ id id_lt.
        Safe-bind (take_next take_generation) _ Safe-take_generation (λ generation g.
          Safe-bind (name_text name) _ (Safe-text 64 name) (λ fixed h.
            Safe-bind (notes_text source) _ (Safe-notes source s) (λ notes made.
              Safe-bind (pure _) _
                (Safe-pure {Q = MadeIdentity} _ (
                  name,
                  made.0,
                  λ short. record {
                    name_made = h;
                    name_utf8 = utf8;
                    notes_made = made.1;
                    variant_fits = v;
                    notes_fit = short;
                    character_fits = c;
                    checksum_fits = crc32-lt name;
                  },
                  h,
                  made.1,
                  id_lt,
                  g,
                ))
                (λ i m. Safe-write_identity_then i m (pure i) (Safe-pure i tt))))))

  pub Safe-rename_identity : (id : RecordId) → Safe (rename_identity id name) Any
  unfolding rename_identity
  Safe-rename_identity id =
      Safe-bind (find (identity id) not_found) _ (Safe-find-identity id not_found) (λ i stored.
        Safe-bind (name_text name) _ (Safe-text 64 name) (λ fixed h.
          Safe-bind (take_next take_generation) _ Safe-take_generation (λ generation g.
            Safe-bind (pure _) _
              (Safe-pure {Q = λ renamed. MadeIdentity renamed × (renamed.id ≡ id)} _ (
                (
                  name,
                  stored.0.1,
                  λ short. record {
                    name_made = h;
                    name_utf8 = utf8;
                    notes_made = stored.0.2.notes_made;
                    variant_fits = stored.0.2.variant_fits;
                    notes_fit = short;
                    character_fits = stored.0.2.character_fits;
                    checksum_fits = stored.0.2.checksum_fits;
                  },
                  h,
                  stored.0.2.notes_made,
                  stored.0.3,
                  g,
                ),
                stored.1,
              ))
              (λ i m.
                subst
                  (λ k.
                    Safe
                      (encoded_identity i >>= λ p.
                        append 1 k i.generation p >>= λ _. change (upsert_identity i))
                      Any)
                  m.1 (Safe-write_identity i m.0)))))

  pub Safe-rename_entity : (id : RecordId) → Safe (rename_entity id name) Any
  unfolding rename_entity append_entity_record
  Safe-rename_entity id =
      Safe-bind (find (entity id) not_found) _ (Safe-find-entity id not_found) (λ e stored.
        Safe-bind (name_text name) _ (Safe-text 64 name) (λ fixed h.
          Safe-bind (take_next take_generation) _ Safe-take_generation (λ generation g.
            Safe-bind (pure _) _
              (Safe-pure {Q = λ renamed. StoredEntity renamed × (renamed.id ≡ id)} _ (
                (
                  name,
                  record {
                    name_made = h;
                    name_utf8 = utf8;
                    parent_fits = stored.0.1.parent_fits;
                    catalog_fits = stored.0.1.catalog_fits;
                    variant_fits = stored.0.1.variant_fits;
                    top_fits = stored.0.1.top_fits;
                    bottom_fits = stored.0.1.bottom_fits;
                    blob_matches = stored.0.1.blob_matches;
                    character_fits = stored.0.1.character_fits;
                    image_len_fits = stored.0.1.image_len_fits;
                    image_crc_fits = stored.0.1.image_crc_fits;
                    created_fits = stored.0.1.created_fits;
                    updated_fits = g;
                  },
                  stored.0.2,
                ),
                stored.1,
              ))
              (λ e m.
                subst
                  (λ k.
                    Safe
                      (append 3 k e.updated_generation (encode_entity e) >>= λ _.
                        change (upsert_entity e))
                      Any)
                  m.1 (Safe-append_entity_record e m.0)))))

module _ (id : RecordId) (id_lt : IsU32 id) where
  pub Safe-delete_identity_record : Safe (delete_record 2 delete_identity id) Any
  unfolding delete_record
  Safe-delete_identity_record =
      Safe-bind (take_next take_generation) _ Safe-take_generation
        (λ generation g. Safe-delete_identity id generation id_lt g)

  pub Safe-delete_entity_record : Safe (delete_record 4 delete_entity id) Any
  unfolding delete_record
  Safe-delete_entity_record =
      Safe-bind (take_next take_generation) _ Safe-take_generation
        (λ generation g. Safe-delete_entity id generation id_lt g)
