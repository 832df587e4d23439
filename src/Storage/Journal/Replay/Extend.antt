-- ===== src/Storage/Journal/Replay/Extend.antt =====
-- A replay of one record more.
use omniportal.Base.{
  ℕ, ◌+◌, ◌≡◌, refl, sym, ap, ◌∙◌, List, [], ◌∷◌, ◌++◌, Option, none, some, length, length-append,
  arith, Bool, true, false, ◌==◌, if◌then◌else◌,
}
use omniportal.Storage.Table.{StorageError}
use omniportal.Storage.Catalog.{
  Catalog, new_catalog, upsert_identity, upsert_entity, upsert_blob, delete_identity, delete_entity,
  observe_record_id, observe_blob_id,
}
use omniportal.Storage.Journal.Bytes.{
  JournalRecord, header_of, record_len, journal_bytes, record_bytes, length-record_bytes,
}
use omniportal.Storage.Journal.{apply_record, apply_identity, apply_entity, apply_config}
use omniportal.Storage.Journal.EntityRecord.{decode_entity}
use omniportal.Storage.Journal.Header.{JournalHeader}
use omniportal.Storage.Journal.Identity.{decode_identity}
use omniportal.Storage.Records.{CharacterIdentity, Entity}
use omniportal.Storage.Journal.Replay.{replay, unless_failed}

-- The last record, behind those that end at `end`.
abbrev last_applied : JournalRecord → ℕ → Catalog → Catalog × Option StorageError
last_applied r end b =
    unless_failed (λ d. (record d { write_offset = end + record_len (length r.payload) }, none))
      (end + record_len (length r.payload)) (apply_record b (header_of r) (end + 24) r.payload)

unless_failed-replay :
    (rs : List JournalRecord) (r : JournalRecord) (o end : ℕ)
    → ((c b : Catalog)
        → replay o rs c ≡ (b, none)
        → c.write_offset ≡ o
        → replay o (rs ++ r ∷ []) c ≡ last_applied r end b)
    → (result : Catalog × Option StorageError) (b : Catalog)
    → unless_failed (replay o rs) o result ≡ (b, none)
    → unless_failed (replay o (rs ++ r ∷ [])) o result ≡ last_applied r end b
unless_failed-replay rs r o end ih (c, none) b h = ih (record c { write_offset = o }) b h refl
unless_failed-replay rs r o end ih (c, some e) b h = absurd (ground arith)

same_offset : (c : Catalog) (o : ℕ) → c.write_offset ≡ o → record c { write_offset = o } ≡ c
same_offset c o w = ap (λ k. record c { write_offset = k }) (sym w)

replay-append :
    (rs : List JournalRecord) (r : JournalRecord) (o : ℕ) (c b : Catalog)
    → replay o rs c ≡ (b, none)
    → c.write_offset ≡ o
    → replay o (rs ++ r ∷ []) c ≡ last_applied r (o + length (journal_bytes rs)) b
unfolding replay journal_bytes
replay-append [] r o c b h w =
    let e : o + 0 ≡ o = omega arith in
    let b_eq : c ≡ b = sym (same_offset c o w) ∙ ground arith in rw (e, sym b_eq) refl
replay-append (q ∷ rs) r o c b h w =
    let next = o + record_len (length q.payload) in
    let end : o + length (journal_bytes (q ∷ rs)) ≡ next + length (journal_bytes rs) =
      omega (arith, length-append (record_bytes q) (journal_bytes rs), length-record_bytes q) in
    rw end (
      unless_failed-replay rs r next (next + length (journal_bytes rs))
        (λ d d' e f. replay-append rs r next d d' e f)
        (apply_record c (header_of q) (o + 24) q.payload) b h)

-- Where the records were replayed to `b`, the new one is applied to `b`.
module _ (rs : List JournalRecord) (r : JournalRecord) (b b' : Catalog)
    (h : replay 0 rs new_catalog ≡ (b, none)) where
  start : new_catalog.write_offset ≡ 0
  unfolding new_catalog
  start = refl

  pub replay-append_ok :
      apply_record b (header_of r) (length (journal_bytes rs) + 24) r.payload ≡ (b', none)
      → replay 0 (rs ++ r ∷ []) new_catalog ≡ (
        record b' { write_offset = length (journal_bytes rs) + record_len (length r.payload) },
        none,
      )
  replay-append_ok a =
      let e : 0 + length (journal_bytes rs) ≡ length (journal_bytes rs) = omega arith in
      rw (replay-append rs r 0 new_catalog b h start, e, a) refl

  pub replay-append_err :
      (e : StorageError)
      → apply_record b (header_of r) (length (journal_bytes rs) + 24) r.payload ≡ (b', some e)
      → replay 0 (rs ++ r ∷ []) new_catalog ≡ (b', some e)
  replay-append_err er a =
      let e : 0 + length (journal_bytes rs) ≡ length (journal_bytes rs) = omega arith in
      rw (replay-append rs r 0 new_catalog b h start, e, a) refl

-- No record changes whether the storage needs a format.
abbrev SameFormat : Catalog → Catalog × Option StorageError → Type 0
SameFormat c result = result.0.needs_format ≡ c.needs_format

format-if :
    (c : Catalog) (b : Bool) (x y : Catalog × Option StorageError)
    → SameFormat c x
    → SameFormat c y
    → SameFormat c (if b then x else y)
format-if c true x y p q = p
format-if c false x y p q = q

apply_record-needs_format :
    (c : Catalog) (r : JournalHeader) (offset : ℕ) (payload : List ℕ)
    → SameFormat c (apply_record c r offset payload)
unfolding apply_record apply_identity apply_entity apply_config upsert_identity upsert_entity
    upsert_blob delete_identity delete_entity observe_record_id observe_blob_id
apply_record-needs_format c r offset payload =
    format-if c (r.kind == 1) _ _ (identity (decode_identity r.id r.generation payload)) (
      format-if c (r.kind == 2) _ _ refl (
        format-if c (r.kind == 3) _ _ (entity (decode_entity r.id r.generation payload)) (
          format-if c (r.kind == 4) _ _ refl (
            format-if c (r.kind == 7) _ _ refl
              (format-if c (r.kind == 254) _ _ refl (format-if c (r.kind == 8) _ _ refl refl))))))
  where
    identity :
        (o : Option CharacterIdentity)
        → SameFormat c (elim o [
          | none ↦ (c, none)
          | some i ↦ upsert_identity i (observe_record_id r.id r.generation c)
        ])
    identity none = refl
    identity (some i) = refl

    entity :
        (o : Option Entity)
        → SameFormat c (elim o [
          | none ↦ (c, none)
          | some e ↦ upsert_entity e (observe_record_id r.id r.generation c)
        ])
    entity none = refl
    entity (some e) = refl

unless_failed-needs_format :
    (go : Catalog → Catalog × Option StorageError) (offset : ℕ) (c c' : Catalog)
    → ((d d' : Catalog) → go d ≡ (d', none) → d'.needs_format ≡ d.needs_format)
    → (result : Catalog × Option StorageError) → SameFormat c result
    → unless_failed go offset result ≡ (c', none)
    → c'.needs_format ≡ c.needs_format
unless_failed-needs_format go offset c c' ih (d, some e) same h = absurd (ground arith)
unless_failed-needs_format go offset c c' ih (d, none) same h =
    ih (record d { write_offset = offset }) c' h ∙ same

pub replay-needs_format :
    (rs : List JournalRecord) (offset : ℕ) (c c' : Catalog)
    → replay offset rs c ≡ (c', none)
    → c'.needs_format ≡ c.needs_format
unfolding replay
replay-needs_format [] offset c c' h = ground arith
replay-needs_format (r ∷ rs) offset c c' h =
    unless_failed-needs_format (replay (offset + record_len (length r.payload)) rs) _ c c'
      (replay-needs_format rs (offset + record_len (length r.payload)))
      (apply_record c (header_of r) (offset + 24) r.payload)
      (apply_record-needs_format c (header_of r) (offset + 24) r.payload) h
