-- ===== src/Storage/Store/Synced/Rewrite.antt =====
-- `compact_store`, `ensure_journal_space` and `format_storage` of src/storage/mod.rs keep a store in
-- step with its flash.
use omniportal.Base.{
  ℕ, refl, List, [], ◌∷◌, Bool, true, false, Option, none, some, arith, if◌then◌else◌,
}
use omniportal.Base.All.{All}
use omniportal.Base.Bytes.{add32}
use omniportal.Base.Exec.{gets, ◌>>=◌}
use omniportal.Storage.Records.{BlobId, CharacterIdentity, Entity, StoredBlob}
use omniportal.Storage.Table.Contents.{Held}
use omniportal.Storage.Catalog.{Catalog, upsert_entity}
use omniportal.Storage.Journal.Config.{encode_config}
use omniportal.Storage.Journal.EntityRecord.{encode_entity}
use omniportal.Storage.Store.{append, change, set_catalog, append_entity_record}
use omniportal.Storage.Store.Compact.{
  live_blobs, read_blobs, erase_all, write_blobs, write_identities, write_entities, rewrite,
  compact_store, any_uses_blob, format_name,
}
use omniportal.Storage.Store.Synced.{Valid, StoredIdentity, StoredEntity, StoredId}
use omniportal.Storage.Store.Synced.Blobs.{Safe-append_format, Safe-append_config}
use omniportal.Storage.Store.Synced.Compaction.{
  IsBlob, fresh, Safe-restart, Safe-read_blobs, Safe-write_blobs,
}
use omniportal.Storage.Store.Synced.Identities.{StoredIdentity-Made, Safe-write_identity_then}
use omniportal.Storage.Store.Synced.Rules.{
  Safe, Any, IsU32, Safe-bind, Safe-pure, Safe-gets, Safe-assoc, Safe-set_catalog,
}
use omniportal.Storage.Store.Synced.Writes.{Safe-append_entity_record}

-- A record is still a stored one with another generation.
renewed_identity :
    (i : CharacterIdentity) (generation : ℕ)
    → StoredIdentity i
    → IsU32 generation
    → StoredIdentity (record i { generation = generation })
renewed_identity i generation (text, source, v, id, _) g = (
  text,
  source,
  record {
    name_made = v.name_made;
    name_utf8 = v.name_utf8;
    notes_made = v.notes_made;
    variant_fits = v.variant_fits;
    notes_fit = v.notes_fit;
    character_fits = v.character_fits;
    checksum_fits = v.checksum_fits;
  },
  id,
  g,
)

renewed_entity :
    (e : Entity) (generation : ℕ)
    → StoredEntity e
    → IsU32 generation
    → StoredEntity (record e { updated_generation = generation })
renewed_entity e generation (text, v, id) g = (
  text,
  record {
    name_made = v.name_made;
    name_utf8 = v.name_utf8;
    parent_fits = v.parent_fits;
    catalog_fits = v.catalog_fits;
    variant_fits = v.variant_fits;
    top_fits = v.top_fits;
    bottom_fits = v.bottom_fits;
    blob_matches = v.blob_matches;
    character_fits = v.character_fits;
    image_len_fits = v.image_len_fits;
    image_crc_fits = v.image_crc_fits;
    created_fits = v.created_fits;
    updated_fits = g;
  },
  id,
)

Safe-write_identities :
    (identities : List (Option CharacterIdentity)) (generation : ℕ)
    → All (Held StoredIdentity) identities
    → IsU32 generation
    → Safe (write_identities identities generation) IsU32
unfolding write_identities
Safe-write_identities [] generation all g = Safe-pure generation g
Safe-write_identities (none ∷ identities) generation all g =
    Safe-write_identities identities generation all.1 g
Safe-write_identities (some i ∷ identities) generation all g =
    Safe-write_identity_then (record i { generation = generation })
      (StoredIdentity-Made _ (renewed_identity i generation all.0 g))
      (write_identities identities (add32 generation 1))
      (Safe-write_identities identities (add32 generation 1) all.1 (omega arith))

Safe-write_entities :
    (entities : List (Option Entity)) (generation : ℕ)
    → All (Held StoredEntity) entities
    → IsU32 generation
    → Safe (write_entities entities generation) IsU32
unfolding write_entities append_entity_record
Safe-write_entities [] generation all g = Safe-pure generation g
Safe-write_entities (none ∷ entities) generation all g =
    Safe-write_entities entities generation all.1 g
Safe-write_entities (some e ∷ entities) generation all g =
    let renewed = record e { updated_generation = generation } in
    Safe-assoc IsU32 (append 3 e.id generation (encode_entity renewed))
      (λ _. change (upsert_entity renewed)) (λ _. write_entities entities (add32 generation 1))
      (Safe-bind (append_entity_record renewed) _
        (Safe-append_entity_record renewed (renewed_entity e generation all.0 g))
        (λ _ _. Safe-write_entities entities (add32 generation 1) all.1 (omega arith)))

-- Of two blobs' ids: the ids that are kept are ids of the table.
live_blobs-All :
    (c : Catalog) (blobs : List (Option StoredBlob))
    → All (Held StoredId) blobs
    → All IsU32 (live_blobs c blobs)
unfolding live_blobs
live_blobs-All c [] all = tt
live_blobs-All c (none ∷ blobs) all = live_blobs-All c blobs all.1
live_blobs-All c (some b ∷ blobs) all =
    kept (any_uses_blob c b.id c.entities) all.0 (live_blobs-All c blobs all.1)
  where
    kept :
        (used : Bool)
        → IsU32 b.id
        → All IsU32 (live_blobs c blobs)
        → All IsU32 (if used then b.id ∷ live_blobs c blobs else live_blobs c blobs)
    kept true i rest = (i, rest)
    kept false i rest = rest

-- The steps behind the erasure.
module _ (old : Catalog) (v : Valid old) (blobs : List (BlobId × List ℕ))
    (all : All IsBlob blobs) where
  Safe-settled :
      (generation : ℕ)
      → IsU32 generation
      → Safe
          (set_catalog (λ c. record c {
            active_slots = old.active_slots;
            usb_mode = old.usb_mode;
            active_config_generation = generation;
          })
            >>= λ _. append 8 0 generation (encode_config old.active_slots old.usb_mode) >>= λ _.
                set_catalog (λ c. record c { next_generation = add32 generation 1 }))
          Any
  Safe-settled generation g =
      Safe-bind (set_catalog _) _
        (Safe-set_catalog _ (λ c w. record {
          same = record { identities_eq = refl; entities_eq = refl; blobs_eq = refl };
          valid = record {
            record_id_lt = w.record_id_lt;
            blob_id_lt = w.blob_id_lt;
            generation_lt = w.generation_lt;
            identities = w.identities;
            entities = w.entities;
            blobs = w.blobs;
          };
          offset_eq = refl;
          format_eq = refl;
        }))
        (λ _ _.
          Safe-bind (append 8 0 generation _) _
            (Safe-append_config generation old.active_slots old.usb_mode g)
            (λ _ _. Safe-set_catalog _ (λ c w. record {
              same = record { identities_eq = refl; entities_eq = refl; blobs_eq = refl };
              valid = record {
                record_id_lt = w.record_id_lt;
                blob_id_lt = w.blob_id_lt;
                generation_lt = omega arith;
                identities = w.identities;
                entities = w.entities;
                blobs = w.blobs;
              };
              offset_eq = refl;
              format_eq = refl;
            })))

  Safe-rewrite : Safe (erase_all >>= λ _. rewrite old blobs) Any
  unfolding rewrite
  Safe-rewrite =
      Safe-assoc Any erase_all
        (λ _. set_catalog (λ c. fresh old.next_record_id old.next_blob_id old.next_generation)) _
        (Safe-bind (erase_all >>= _) _
          (Safe-restart old.next_record_id old.next_blob_id old.next_generation v.record_id_lt
            v.blob_id_lt v.generation_lt)
          (λ _ _.
            Safe-bind (append 254 0 old.next_generation format_name) _
              (Safe-append_format old.next_generation format_name v.generation_lt (omega arith))
              (λ _ _.
                Safe-bind (write_blobs blobs (add32 old.next_generation 1)) _
                  (Safe-write_blobs blobs _ all (omega arith))
                  (λ generation g.
                    Safe-bind (write_identities old.identities generation) _
                      (Safe-write_identities old.identities generation v.identities g)
                      (λ generation g.
                        Safe-bind (write_entities old.entities generation) _
                          (Safe-write_entities old.entities generation v.entities g)
                          Safe-settled)))))

pub Safe-compact_store : Safe compact_store Any
unfolding compact_store
Safe-compact_store =
    Safe-bind (gets _) _
      (Safe-gets {Q = All IsU32} _ (λ s z. live_blobs-All s.catalog s.catalog.blobs z.valid.blobs))
      (λ ids i. Safe-bind (read_blobs ids) _ (Safe-read_blobs ids i) (λ blobs b.
        Safe-bind (gets _) _ (Safe-gets {Q = Valid} _ (λ s z. z.valid))
          (λ old v. Safe-rewrite old v blobs b)))
