-- ===== src/Storage/Store/Synced.antt =====
-- A store in step with its flash: a boot would rebuild its catalog. src/storage/mod.rs,
-- src/storage/journal.rs.
pub mod Rules
pub mod Writes
pub mod Blobs
pub mod Create
pub mod Overflow
pub mod Reboot
pub mod Params
pub mod Served
pub mod Serves
pub mod Edit
pub mod Slots
pub mod Combine
pub mod Images
pub mod Rewrite
pub mod Compaction
pub mod Identities
use omniportal.Base.{
  ℕ, ◌+◌, ◌^◌, ◌<◌, ◌≤◌, ◌≡◌, refl, sym, ap, ◌∙◌, ◌⊎◌, inl, inr, List, [], ◌∷◌, ◌++◌, Bool, true,
  false, Option, none, some, length, arith, ltb, Bool-cases,
}
use omniportal.Base.All.{All}
use omniportal.Base.Result.{Result, ok, err}
use omniportal.Base.Exec.{◌>>=◌, continue}
use omniportal.Storage.Records.{CharacterIdentity, Entity, StoredBlob}
use omniportal.Storage.Table.{StorageError, full}
use omniportal.Storage.Table.Contents.{Held}
use omniportal.Storage.Catalog.{Catalog, new_catalog}
use omniportal.Storage.Flash.{storage_flash_bytes}
use omniportal.Storage.Journal.{Store, apply_record, append_record}
use omniportal.Storage.Journal.Bytes.{
  JournalRecord, IsRecord, header_of, record_len, journal_bytes, record_bytes, length-record_bytes,
}
use omniportal.Storage.Journal.EntityRecord.RoundTrip.{IsEntity}
use omniportal.Storage.Journal.Identity.RoundTrip.{IsIdentity}
use omniportal.Storage.Journal.Replay.{replay}
use omniportal.Storage.Journal.Replay.Extend.{replay-append_ok}
use omniportal.Storage.Journal.Replay.Append.{
  Represents, appended, appended-Represents, appended-catalog, append_record-appended,
  append_record_full,
}
use omniportal.Storage.Store.{Fault, failed, append, change, from_error}

-- What a record in the catalog satisfies, so that its encoding says it all.
abbrev pub StoredEntity : Entity → Type 0
StoredEntity e = (text : List ℕ) × IsEntity text e × (e.id < 2 ^ 32)

abbrev pub StoredIdentity : CharacterIdentity → Type 0
StoredIdentity i =
    (text : List ℕ) × (source : List ℕ) × IsIdentity text source i
    × (i.id < 2 ^ 32)
    × (i.generation < 2 ^ 32)

abbrev pub StoredId : StoredBlob → Type 0
StoredId b = b.id < 2 ^ 32

-- The numbers are `u32`s, and the records are stored ones.
pub record Valid (c : Catalog) : Type 0 where
  pub record_id_lt : c.next_record_id < 2 ^ 32
  pub blob_id_lt : c.next_blob_id < 2 ^ 32
  pub generation_lt : c.next_generation < 2 ^ 32
  pub identities : All (Held StoredIdentity) c.identities
  pub entities : All (Held StoredEntity) c.entities
  pub blobs : All (Held StoredId) c.blobs

-- The same identities, entities and blobs.
pub record SameTables (b c : Catalog) : Type 0 where
  pub identities_eq : b.identities ≡ c.identities
  pub entities_eq : b.entities ≡ c.entities
  pub blobs_eq : b.blobs ≡ c.blobs

-- The flash holds a journal, and a boot replays it without an error to the identities, the entities
-- and the blobs of the catalog.
pub record Synced (s : Store) : Type 0 where
  pub written : List JournalRecord
  pub represents : Represents written s
  pub booted : Catalog
  pub replayed : replay 0 written new_catalog ≡ (booted, none)
  pub same : SameTables booted s.catalog
  pub formatted : s.catalog.needs_format ≡ false
  pub valid : Valid s.catalog

-- An operation that is safe on a store in step ends in step too, whether it returns or stops with
-- an error, unless the error is `full`.
abbrev pub Outcome : {A : Type 0} → (A → Type 0) → Store × Result Fault A → Type 0
Outcome Q (s, ok a) = Synced s × Q a
Outcome Q (s, err e) = (e ≡ failed full) ⊎ Synced s

-- What a record does to the catalog of a boot, next to what the operation does to the store's.
pub record Applied (b c : Catalog × Option StorageError) (before : Catalog) : Type 0 where
  pub same : SameTables b.0 c.0
  pub valid : Valid c.0
  pub offset_eq : c.0.write_offset ≡ before.write_offset
  pub format_eq : c.0.needs_format ≡ before.needs_format
  pub applies : (b.1 ≡ none) ⊎ (c.1 ≡ some full)

-- The record is behind the others on the flash, and the catalog is changed.
committed :
    (rs : List JournalRecord) (r : JournalRecord) (s : Store) (booted : Catalog)
    → Represents (rs ++ r ∷ []) s
    → s.catalog.needs_format ≡ false
    → replay 0 rs new_catalog ≡ (booted, none)
    → (b c : Catalog × Option StorageError)
    → apply_record booted (header_of r) (length (journal_bytes rs) + 24) r.payload ≡ b
    → Applied b c s.catalog
    → Outcome (λ _. Unit) (record s { catalog = c.0 }, from_error c.1)
committed rs r s booted rep formatted h b (c, e) step a = elim a.applies [
  | inr is_full ↦ rw is_full (inl refl)
  | inl is_ok ↦
      let in_step : Synced (record s { catalog = c }) = record {
        written = rs ++ r ∷ [];
        represents = record {
          free = rep.free;
          stored = rep.stored;
          size = rep.size;
          offset = a.offset_eq ∙ rep.offset;
          records = rep.records;
        };
        booted = record b.0 {
          write_offset = length (journal_bytes rs) + record_len (length r.payload);
        };
        replayed = replay-append_ok rs r booted b.0 h (step ∙ ap (λ x. (b.0, x)) is_ok);
        same = record {
          identities_eq = a.same.identities_eq;
          entities_eq = a.same.entities_eq;
          blobs_eq = a.same.blobs_eq;
        };
        formatted = a.format_eq ∙ formatted;
        valid = a.valid;
      } in
      ended e in_step
]
  where
    ended :
        (e : Option StorageError)
        → Synced (record s { catalog = c })
        → Outcome (λ _. Unit) (record s { catalog = c }, from_error e)
    ended none z = (z, tt)
    ended (some er) z = inr z

-- An operation's record and its change of the catalog go together.
module _ (s : Store) (z : Synced s) (r : JournalRecord) (v : IsRecord r)
    (f : Catalog → Catalog × Option StorageError) where
  -- The catalog with the record written.
  abbrev pub behind : Catalog
  behind = record s.catalog {
    write_offset = s.catalog.write_offset + record_len (length r.payload);
  }

  pub commit :
      Applied
        (apply_record z.booted (header_of r) (s.catalog.write_offset + 24) r.payload)
        (f behind)
        behind
      → Outcome (λ _. Unit) ((append r.kind r.id r.generation r.payload >>= λ _. change f) s)
  unfolding append change ◌>>=◌
  commit a =
      elim (Bool-cases (
        ltb storage_flash_bytes
          (length (journal_bytes z.written) + record_len (length r.payload)))) [
            | inl over ↦
                rw (append_record_full z.written s r z.represents v z.formatted (ground arith))
                  (inl refl)
            | inr fits ↦
                let le : length (journal_bytes z.written) + record_len (length r.payload)
                    ≤ storage_flash_bytes =
                  ground arith in
                let rep' = appended-Represents z.written s r z.represents v le in
                let cat : (appended z.written s r z.represents v le).catalog ≡ behind =
                  appended-catalog z.written s r z.represents v le
                  ∙ ap (λ w. record s.catalog { write_offset = w + record_len (length r.payload) })
                      (sym z.represents.offset) in
                rw (append_record-appended z.written s r z.represents v le z.formatted) (
                  committed z.written r (appended z.written s r z.represents v le) z.booted rep'
                    (ap (λ c. c.needs_format) cat ∙ z.formatted) z.replayed
                    (apply_record z.booted (header_of r) (length (journal_bytes z.written) + 24)
                      r.payload)
                    (f (appended z.written s r z.represents v le).catalog) refl
                    (rw (cat, sym z.represents.offset) a))
          ]
