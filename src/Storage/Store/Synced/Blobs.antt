-- ===== src/Storage/Store/Synced/Blobs.antt =====
-- Blobs and the records without a table keep a store in step with its flash.
use omniportal.Base.{ℕ, ◌+◌, ◌≤◌, ◌≡◌, refl, ap, inl, List, Option, none, length, arith}
use omniportal.Base.Bytes.{add32}
use omniportal.Base.Result.{Result, ok, err}
use omniportal.Base.Exec.{pure, gets, ◌>>=◌, continue}
use omniportal.Domain.{GameLine}
use omniportal.Storage.Records.{BlobId, RecordId}
use omniportal.Storage.Table.{StorageError, upsert_by_id}
use omniportal.Storage.Table.Contents.{upsert_by_id-All, upsert_by_id_error}
use omniportal.Storage.Catalog.{
  Catalog, blob_id, upsert_blob, observe_blob_id, take_blob_id, take_generation,
}
use omniportal.Storage.Flash.{storage_flash_bytes}
use omniportal.Storage.Journal.{Store, apply_record, apply_config}
use omniportal.Storage.Journal.Bytes.{JournalRecord, IsRecord, header_of}
use omniportal.Storage.Journal.Config.{encode_config}
use omniportal.Storage.Journal.Config.RoundTrip.{length-encode_config}
use omniportal.Storage.Store.{append, change, Fault, append_blob, stored_blob, take_next}
use omniportal.Storage.Store.Synced.{
  Synced, Outcome, Valid, StoredId, SameTables, Applied, commit, behind,
}
use omniportal.Storage.Store.Synced.Rules.{
  Safe, Any, IsU32, Safe-bind, Safe-pure, Safe-take_blob_id, Safe-take_generation, Outcome-bind,
  Outcome-assoc,
}
use omniportal.Storage.Store.Synced.Writes.{Applies, Safe-commit}

abbrev pub IsImage : List ℕ → Type 0
IsImage image = length image ≤ storage_flash_bytes

abbrev pub blob_record : BlobId → ℕ → List ℕ → JournalRecord
blob_record id generation image = record {
  kind = 7;
  id = id;
  generation = generation;
  payload = image;
}

pub blob_record-IsRecord :
    (id generation : ℕ) (image : List ℕ)
    → IsU32 id
    → IsU32 generation
    → IsImage image
    → IsRecord (blob_record id generation image)
blob_record-IsRecord id generation image i g n = record {
  id_lt = i;
  generation_lt = g;
  payload_le = n;
}

-- What a boot makes of a blob's record, where the operation notes the offset behind the header.
blob-Applied :
    (id generation offset : ℕ) (image : List ℕ) (b c : Catalog)
    → IsU32 id
    → SameTables b c
    → Valid c
    → Applied
        (apply_record b (header_of (blob_record id generation image)) offset image)
        (upsert_blob (stored_blob id offset image generation) c)
        c
unfolding apply_record upsert_blob observe_blob_id
blob-Applied id generation offset image b c i same valid = record {
  same = record {
    identities_eq = same.identities_eq;
    entities_eq = same.entities_eq;
    blobs_eq =
        ap (λ items. (upsert_by_id blob_id (stored_blob id offset image generation) items).0)
          same.blobs_eq;
  };
  valid = record {
    record_id_lt = valid.record_id_lt;
    blob_id_lt = valid.blob_id_lt;
    generation_lt = valid.generation_lt;
    identities = valid.identities;
    entities = valid.entities;
    blobs =
        upsert_by_id-All blob_id StoredId (stored_blob id offset image generation) c.blobs i
          valid.blobs;
  };
  offset_eq = refl;
  format_eq = refl;
  applies =
      rw same.blobs_eq
        (upsert_by_id_error blob_id (stored_blob id offset image generation) c.blobs);
}

module _ (id generation : ℕ) (image : List ℕ) (i : IsU32 id) (g : IsU32 generation)
    (n : IsImage image) (s : Store) (z : Synced s)
    (f : Catalog → Catalog × Option StorageError) where
  abbrev record_of : JournalRecord
  record_of = blob_record id generation image

  abbrev valid_record : IsRecord record_of
  valid_record = blob_record-IsRecord id generation image i g n

  pub blob-Outcome :
      f (behind s z record_of valid_record f)
        ≡ upsert_blob
            (stored_blob id (s.catalog.write_offset + 24) image generation)
            (behind s z record_of valid_record f)
      → Outcome Any ((append 7 id generation image >>= λ _. change f) s)
  blob-Outcome e = commit s z record_of valid_record f (
      rw e (
        blob-Applied id generation (s.catalog.write_offset + 24) image z.booted
          (behind s z record_of valid_record f) i
          (record {
            identities_eq = z.same.identities_eq;
            entities_eq = z.same.entities_eq;
            blobs_eq = z.same.blobs_eq;
          })
          (record {
            record_id_lt = z.valid.record_id_lt;
            blob_id_lt = z.valid.blob_id_lt;
            generation_lt = z.valid.generation_lt;
            identities = z.valid.identities;
            entities = z.valid.entities;
            blobs = z.valid.blobs;
          })))

-- The place to write lies on the flash.
pub write_offset_le : (s : Store) → Synced s → s.catalog.write_offset ≤ storage_flash_bytes
write_offset_le s z =
    let size = z.represents.size in let offset = z.represents.offset in omega arith

pub Safe-append_blob : (image : List ℕ) → IsImage image → Safe (append_blob image) IsU32
unfolding append_blob gets ◌>>=◌
Safe-append_blob image n = Safe-bind (take_next take_blob_id) _ Safe-take_blob_id (λ id i.
    Safe-bind (take_next take_generation) _ Safe-take_generation (λ generation g. record {
      at = λ s z.
          let f = upsert_blob (stored_blob id (add32 s.catalog.write_offset 24) image generation) in
          let sum : add32 s.catalog.write_offset 24 ≡ s.catalog.write_offset + 24 =
            omega (arith, write_offset_le s z) in
          Outcome-assoc IsU32 (append 7 id generation image s) (λ _. change f) (λ _. pure id)
            (Outcome-bind ((append 7 id generation image >>= λ _. change f) s) (λ _. pure id)
              (blob-Outcome id generation image i g n s z f (
                ap
                  (λ o. upsert_blob (stored_blob id o image generation) (
                    behind s z (blob_record id generation image)
                      (blob_record-IsRecord id generation image i g n) f))
                  sum))
              (λ _ _. Safe-pure id i));
    }))

Outcome-alone :
    (r : Store × Result Fault Unit)
    → Outcome Any (continue r (λ _. change (λ c. (c, none))))
    → Outcome Any r
unfolding change
Outcome-alone (s, ok a) h = h
Outcome-alone (s, err e) h = h

-- A record that comes without a change of the catalog.
pub Safe-append :
    (r : JournalRecord)
    → IsRecord r
    → Applies r (λ c. (c, none))
    → Safe (append r.kind r.id r.generation r.payload) Any
unfolding ◌>>=◌
Safe-append r v k = record {
  at = λ s z.
      Outcome-alone (append r.kind r.id r.generation r.payload s)
        ((Safe-commit r (λ c. (c, none)) v k).at s z);
}

pub Safe-append_config :
    (generation : ℕ) (slots : List (Option RecordId)) (mode : GameLine)
    → IsU32 generation
    → Safe (append 8 0 generation (encode_config slots mode)) Any
unfolding apply_record apply_config
Safe-append_config generation slots mode g =
    Safe-append
      (record { kind = 8; id = 0; generation = generation; payload = encode_config slots mode })
      (record {
        id_lt = omega arith;
        generation_lt = g;
        payload_le = omega (arith, length-encode_config slots mode);
      })
      (λ offset b c same valid. record {
        same = record {
          identities_eq = same.identities_eq;
          entities_eq = same.entities_eq;
          blobs_eq = same.blobs_eq;
        };
        valid = valid;
        offset_eq = refl;
        format_eq = refl;
        applies = inl refl;
      })

pub Safe-append_format :
    (generation : ℕ) (name : List ℕ)
    → IsU32 generation
    → IsImage name
    → Safe (append 254 0 generation name) Any
unfolding apply_record
Safe-append_format generation name g n =
    Safe-append (record { kind = 254; id = 0; generation = generation; payload = name })
      (record { id_lt = omega arith; generation_lt = g; payload_le = n })
      (λ offset b c same valid. record {
        same = record {
          identities_eq = same.identities_eq;
          entities_eq = same.entities_eq;
          blobs_eq = same.blobs_eq;
        };
        valid = valid;
        offset_eq = refl;
        format_eq = refl;
        applies = inl refl;
      })
