-- ===== src/Storage/Store/Synced/Identities.antt =====
-- Identities that are written and records that are deleted keep a store in step with its flash.
use omniportal.Base.{
  ℕ, ◌^◌, ◌<◌, ◌≡◌, refl, ap, inl, inr, List, [], Option, none, some, length, arith, ◌≤◌,
}
use omniportal.Base.Result.{ok, err}
use omniportal.Base.Exec.{◌>>=◌}
use omniportal.Storage.Records.{CharacterIdentity, RecordId, from_str}
use omniportal.Storage.Table.{upsert_by_id, delete_by_id}
use omniportal.Storage.Table.Contents.{upsert_by_id-All, delete_by_id-All, upsert_by_id_error}
use omniportal.Storage.Catalog.{
  Catalog, entity_id, identity_id, upsert_identity, delete_entity, delete_identity,
  observe_record_id,
}
use omniportal.Storage.Journal.{Store, apply_record, apply_identity}
use omniportal.Storage.Journal.Bytes.{JournalRecord, IsRecord, header_of}
use omniportal.Storage.Journal.Identity.{encode_identity, decode_identity}
use omniportal.Storage.Journal.Identity.RoundTrip.{
  IsIdentity, NotesMade, encode_identity_fits, encode_identity_back,
}
use omniportal.Storage.Store.{Action, append, change, Fault}
use omniportal.Storage.Store.Compact.{encoded_identity}
use omniportal.Storage.Store.Synced.{Synced, Outcome, StoredEntity, StoredIdentity}
use omniportal.Storage.Store.Synced.Rules.{Safe, Any, IsU32, Safe-bind, Safe-assoc}
use omniportal.Storage.Store.Synced.Writes.{Applies, Safe-commit}

-- An identity that can be stored, if its notes turn out to be short enough for the encoder.
abbrev pub MadeIdentity : CharacterIdentity → Type 0
MadeIdentity i =
    (text : List ℕ) × (source : List ℕ) × (length source ≤ 92 → IsIdentity text source i)
    × (from_str 64 text ≡ ok i.name)
    × NotesMade source i.source_notes
    × (i.id < 2 ^ 32)
    × (i.generation < 2 ^ 32)

pub StoredIdentity-Made : (i : CharacterIdentity) → StoredIdentity i → MadeIdentity i
StoredIdentity-Made i (text, source, v, id, generation) =
    (text, source, λ _. v, v.name_made, v.notes_made, id, generation)

-- The payload that an identity was encoded to.
abbrev IsPayload : CharacterIdentity → List ℕ → Type 0
IsPayload i p = StoredIdentity i × (length p ≡ 176) × (decode_identity i.id i.generation p ≡ some i)

IsPayload-encoded :
    (i : CharacterIdentity) (p : List ℕ)
    → MadeIdentity i
    → encode_identity i ≡ some p
    → IsPayload i p
IsPayload-encoded i p (text, source, v, name, notes, id, generation) h =
    let made = v (encode_identity_fits text source p i name notes h) in
    let back = encode_identity_back text source p i made h in
    ((text, source, made, id, generation), back.0, back.1)

Safe-encoded_identity :
    (i : CharacterIdentity) → MadeIdentity i → Safe (encoded_identity i) (IsPayload i)
unfolding encoded_identity
Safe-encoded_identity i m = record { at = λ s z. go s z (encode_identity i) (IsPayload-encoded i) }
  where
    go :
        (s : Store)
        → Synced s
        → (o : Option (List ℕ)) → ((p : List ℕ) → MadeIdentity i → o ≡ some p → IsPayload i p)
        → Outcome (IsPayload i) (elim o [ none ↦ (s, err Fault.panicked) | some p ↦ (s, ok p) ])
    go s z none k = inr z
    go s z (some p) k = (z, k p m refl)

abbrev identity_record : CharacterIdentity → List ℕ → JournalRecord
identity_record i p = record { kind = 1; id = i.id; generation = i.generation; payload = p }

-- What a boot makes of an identity's record.
apply_record-identity :
    (i : CharacterIdentity) (p : List ℕ) (offset : ℕ) (b : Catalog)
    → IsPayload i p
    → apply_record b (header_of (identity_record i p)) offset p
      ≡ upsert_identity i (observe_record_id i.id i.generation b)
unfolding apply_record apply_identity
apply_record-identity i p offset b h =
    ap
      (λ o. elim o [
        | none ↦ (b, none)
        | some decoded ↦ upsert_identity decoded (observe_record_id i.id i.generation b)
      ])
      h.2

identity-Applies :
    (i : CharacterIdentity) (p : List ℕ)
    → IsPayload i p
    → Applies (identity_record i p) (upsert_identity i)
unfolding upsert_identity observe_record_id
identity-Applies i p h offset b c same valid = rw (apply_record-identity i p offset b h) (record {
  same = record {
    identities_eq = ap (λ items. (upsert_by_id identity_id i items).0) same.identities_eq;
    entities_eq = same.entities_eq;
    blobs_eq = same.blobs_eq;
  };
  valid = record {
    record_id_lt = valid.record_id_lt;
    blob_id_lt = valid.blob_id_lt;
    generation_lt = valid.generation_lt;
    identities = upsert_by_id-All identity_id StoredIdentity i c.identities h.0 valid.identities;
    entities = valid.entities;
    blobs = valid.blobs;
  };
  offset_eq = refl;
  format_eq = refl;
  applies = rw same.identities_eq (upsert_by_id_error identity_id i c.identities);
})

-- The three steps that store an identity, and what comes behind them.
module _ (i : CharacterIdentity) (m : MadeIdentity i) where
  Safe-commit_identity :
      (p : List ℕ)
      → IsPayload i p
      → Safe (append 1 i.id i.generation p >>= λ _. change (upsert_identity i)) Any
  Safe-commit_identity p h =
      Safe-commit (identity_record i p) (upsert_identity i)
        (record { id_lt = h.0.3; generation_lt = h.0.4; payload_le = omega (arith, h.1) })
        (identity-Applies i p h)

  pub Safe-write_identity :
      Safe
        (encoded_identity i >>= λ p.
          append 1 i.id i.generation p >>= λ _. change (upsert_identity i))
        Any
  Safe-write_identity =
      Safe-bind (encoded_identity i) _ (Safe-encoded_identity i m) Safe-commit_identity

  pub Safe-write_identity_then :
      {A : Type 0}
      → {Q : A → Type 0} → (rest : Action A) → Safe rest Q
      → Safe
          (encoded_identity i >>= λ p.
            append 1 i.id i.generation p >>= λ _. change (upsert_identity i) >>= λ _. rest)
          Q
  Safe-write_identity_then {Q = Q} rest k =
      Safe-bind (encoded_identity i) _ (Safe-encoded_identity i m) (λ p h.
        Safe-assoc Q (append 1 i.id i.generation p) (λ _. change (upsert_identity i)) (λ _. rest)
          (Safe-bind (append 1 i.id i.generation p >>= λ _. change (upsert_identity i)) (λ _. rest)
            (Safe-commit_identity p h) (λ _ _. k)))

abbrev deletion : ℕ → RecordId → ℕ → JournalRecord
deletion kind id generation = record { kind = kind; id = id; generation = generation; payload = [] }

deletion-IsRecord :
    (kind id generation : ℕ) → IsU32 id → IsU32 generation → IsRecord (deletion kind id generation)
deletion-IsRecord kind id generation i g = record {
  id_lt = i;
  generation_lt = g;
  payload_le = omega arith;
}

-- A deletion that finds nothing is an error here and none for a boot; nothing changes in either.
pub Safe-delete_identity :
    (id generation : ℕ)
    → IsU32 id
    → IsU32 generation
    → Safe (append 2 id generation [] >>= λ _. change (delete_identity id)) Any
unfolding apply_record delete_identity observe_record_id
Safe-delete_identity id generation i g =
    Safe-commit (deletion 2 id generation) (delete_identity id)
      (deletion-IsRecord 2 id generation i g)
      (λ offset b c same valid. record {
        same = record {
          identities_eq = ap (λ items. (delete_by_id identity_id id items).0) same.identities_eq;
          entities_eq = same.entities_eq;
          blobs_eq = same.blobs_eq;
        };
        valid = record {
          record_id_lt = valid.record_id_lt;
          blob_id_lt = valid.blob_id_lt;
          generation_lt = valid.generation_lt;
          identities = delete_by_id-All identity_id StoredIdentity id c.identities valid.identities;
          entities = valid.entities;
          blobs = valid.blobs;
        };
        offset_eq = refl;
        format_eq = refl;
        applies = inl refl;
      })

pub Safe-delete_entity :
    (id generation : ℕ)
    → IsU32 id
    → IsU32 generation
    → Safe (append 4 id generation [] >>= λ _. change (delete_entity id)) Any
unfolding apply_record delete_entity observe_record_id
Safe-delete_entity id generation i g =
    Safe-commit (deletion 4 id generation) (delete_entity id)
      (deletion-IsRecord 4 id generation i g)
      (λ offset b c same valid. record {
        same = record {
          identities_eq = same.identities_eq;
          entities_eq = ap (λ items. (delete_by_id entity_id id items).0) same.entities_eq;
          blobs_eq = same.blobs_eq;
        };
        valid = record {
          record_id_lt = valid.record_id_lt;
          blob_id_lt = valid.blob_id_lt;
          generation_lt = valid.generation_lt;
          identities = valid.identities;
          entities = delete_by_id-All entity_id StoredEntity id c.entities valid.entities;
          blobs = valid.blobs;
        };
        offset_eq = refl;
        format_eq = refl;
        applies = inl refl;
      })
