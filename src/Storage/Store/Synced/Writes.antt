-- ===== src/Storage/Store/Synced/Writes.antt =====
-- The records that src/storage/mod.rs writes keep a store in step with its flash.
use omniportal.Base.{ℕ, ◌+◌, ◌≡◌, refl, ap, Option, none, some, length, arith}
use omniportal.Base.Exec.{◌>>=◌}
use omniportal.Storage.Records.{Entity}
use omniportal.Storage.Table.{StorageError, upsert_by_id}
use omniportal.Storage.Table.Contents.{upsert_by_id-All, upsert_by_id_error}
use omniportal.Storage.Catalog.{Catalog, entity_id, upsert_entity, observe_record_id}
use omniportal.Storage.Journal.{apply_record, apply_entity}
use omniportal.Storage.Journal.Bytes.{JournalRecord, IsRecord, header_of, record_len}
use omniportal.Storage.Journal.EntityRecord.{encode_entity}
use omniportal.Storage.Journal.EntityRecord.RoundTrip.{
  decode_entity-encode_entity, length-encode_entity,
}
use omniportal.Storage.Store.{append, change, append_entity_record}
use omniportal.Storage.Store.Synced.{Valid, SameTables, StoredEntity, Applied, commit, behind}
use omniportal.Storage.Store.Synced.Rules.{Safe, Any}

abbrev written_behind : Catalog → JournalRecord → Catalog
written_behind c r = record c { write_offset = c.write_offset + record_len (length r.payload) }

same_behind :
    (b c : Catalog) (r : JournalRecord) → SameTables b c → SameTables b (written_behind c r)
same_behind b c r same = record {
  identities_eq = same.identities_eq;
  entities_eq = same.entities_eq;
  blobs_eq = same.blobs_eq;
}

Valid-behind : (c : Catalog) (r : JournalRecord) → Valid c → Valid (written_behind c r)
Valid-behind c r v = record {
  record_id_lt = v.record_id_lt;
  blob_id_lt = v.blob_id_lt;
  generation_lt = v.generation_lt;
  identities = v.identities;
  entities = v.entities;
  blobs = v.blobs;
}

-- The record and the change have the same effect on the tables, wherever the record is written.
abbrev pub Applies : JournalRecord → (Catalog → Catalog × Option StorageError) → Type 0
Applies r f =
    (offset : ℕ) (b c : Catalog)
    → SameTables b c
    → Valid c
    → Applied (apply_record b (header_of r) offset r.payload) (f c) c

pub Safe-commit :
    (r : JournalRecord) (f : Catalog → Catalog × Option StorageError)
    → IsRecord r
    → Applies r f
    → Safe (append r.kind r.id r.generation r.payload >>= λ _. change f) Any
Safe-commit r f v k = record {
  at = λ s z. commit s z r v f (
      k (s.catalog.write_offset + 24) z.booted (behind s z r v f)
        (same_behind z.booted s.catalog r z.same) (Valid-behind s.catalog r z.valid));
}

abbrev entity_record : Entity → JournalRecord
entity_record e = record {
  kind = 3;
  id = e.id;
  generation = e.updated_generation;
  payload = encode_entity e;
}

entity_record-IsRecord : (e : Entity) → StoredEntity e → IsRecord (entity_record e)
entity_record-IsRecord e (text, v, id_lt) = record {
  id_lt = id_lt;
  generation_lt = v.updated_fits;
  payload_le = omega (arith, length-encode_entity e);
}

-- What a boot makes of an entity's record.
apply_record-entity :
    (e : Entity) (offset : ℕ) (b : Catalog)
    → StoredEntity e
    → apply_record b (header_of (entity_record e)) offset (encode_entity e)
      ≡ upsert_entity e (observe_record_id e.id e.updated_generation b)
unfolding apply_record apply_entity
apply_record-entity e offset b (text, v, id_lt) =
    ap
      (λ o. elim o [
        | none ↦ (b, none)
        | some decoded ↦ upsert_entity decoded (observe_record_id e.id e.updated_generation b)
      ])
      (decode_entity-encode_entity text e e.updated_generation v)

entity-Applies : (e : Entity) → StoredEntity e → Applies (entity_record e) (upsert_entity e)
unfolding upsert_entity observe_record_id
entity-Applies e h offset b c same valid = rw (apply_record-entity e offset b h) (record {
  same = record {
    identities_eq = same.identities_eq;
    entities_eq = ap (λ items. (upsert_by_id entity_id e items).0) same.entities_eq;
    blobs_eq = same.blobs_eq;
  };
  valid = record {
    record_id_lt = valid.record_id_lt;
    blob_id_lt = valid.blob_id_lt;
    generation_lt = valid.generation_lt;
    identities = valid.identities;
    entities = upsert_by_id-All entity_id StoredEntity e c.entities h valid.entities;
    blobs = valid.blobs;
  };
  offset_eq = refl;
  format_eq = refl;
  applies = rw (same.entities_eq) (upsert_by_id_error entity_id e c.entities);
})

pub Safe-append_entity_record : (e : Entity) → StoredEntity e → Safe (append_entity_record e) Any
unfolding append_entity_record
Safe-append_entity_record e h =
    Safe-commit (entity_record e) (upsert_entity e) (entity_record-IsRecord e h)
      (entity-Applies e h)
