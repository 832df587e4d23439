-- ===== src/Storage/Store/Synced/Compaction.antt =====
-- `compact_store`, `ensure_journal_space` and `format_storage` of src/storage/mod.rs keep a store in
-- step with its flash.
use mathlib.Core.Path.{subst}
use mathlib.Core.Option.{some-injective}
use omniportal.Base.{
  Bool-cases, ◌||◌, ℕ, zero, suc, ◌+◌, ◌-◌, ◌%◌, ◌^◌, ◌≤◌, ◌≡◌, refl, sym, ap, ◌∙◌, inl, inr, List,
  [], ◌∷◌, true, not, Option, none, some, length, arith, replicate, splice, slice, drop,
  length-replicate, length-append, length-take, length-drop, leb, le→leb, ◌==◌,
}
use omniportal.Base.All.{All, All-replicate}
use omniportal.Base.Bytes.{add32, sub32}
use omniportal.Base.Result.{ok, err}
use omniportal.Base.Exec.{gets, ◌>>=◌, continue}
use omniportal.Storage.Records.{BlobId}
use omniportal.Storage.Table.{not_found, flash_error, corrupt}
use omniportal.Storage.Table.Contents.{Held}
use omniportal.Storage.Catalog.{Catalog, blob, new_catalog, upsert_blob}
use omniportal.Storage.Flash.{StorageFlash, read, erase, storage_flash_bytes, storage_flash_offset}
use omniportal.Storage.Journal.{Store}
use omniportal.Storage.Journal.Bytes.{journal_bytes, record_len, align4-record_len}
use omniportal.Storage.Journal.Crc.{crc32, align4}
use omniportal.Storage.Journal.Replay.{replay}
use omniportal.Storage.Store.{
  failed, append, change, find, read_flash, read_blob, stored_blob, set_catalog, or_fail,
}
use omniportal.Storage.Store.Compact.{read_blobs, erase_all, write_blobs}
use omniportal.Storage.Store.Synced.{
  Synced, Outcome, StoredIdentity, StoredEntity, StoredId, behind,
}
use omniportal.Storage.Store.Synced.Rules.{
  Safe, Any, IsU32, Safe-bind, Safe-pure, Safe-raise, Safe-if, Safe-find, Outcome-bind,
  Outcome-assoc,
}
use omniportal.Storage.Store.Synced.Blobs.{
  IsImage, blob_record, blob_record-IsRecord, blob-Outcome, write_offset_le,
}

length-slice-le : (off n : ℕ) (xs : List ℕ) → length (slice off n xs) ≤ length xs
length-slice-le off n xs = omega (arith, length-take n (drop off xs), length-drop off xs)

pub length-flash : (s : Store) → Synced s → length s.flash.bytes ≡ storage_flash_bytes
length-flash s z =
    let rep = z.represents in
    let size = rep.size in
    ap length rep.stored
    ∙ omega (
      arith,
      length-append (journal_bytes z.written) (replicate rep.free byte),
      length-replicate {0} rep.free byte,
    )
  where
    byte : ℕ
    byte = 0xff

read-IsImage :
    (s : Store) (offset n : ℕ) (bytes : List ℕ)
    → Synced s
    → read offset n s.flash ≡ some bytes
    → IsImage bytes
unfolding read
read-IsImage s offset n bytes z h =
    let size = length-flash s z in
    let le = length-slice-le offset n s.flash.bytes in
    elim (Bool-cases (not (offset % 4 == 0) || not (n % 4 == 0))) [
      | inl odd ↦ absurd (ground (arith, odd))
      | inr even ↦ elim (Bool-cases (leb (offset + n) (length s.flash.bytes))) [
        | inl fits ↦
            let e : slice offset n s.flash.bytes ≡ bytes = ground (arith, even, fits) in
            subst (λ b. length b ≤ storage_flash_bytes) e (omega arith)
        | inr over ↦ absurd (ground (arith, even, over))
      ]
    ]

Safe-read_flash : (offset n : ℕ) → Safe (read_flash offset n) IsImage
unfolding read_flash
Safe-read_flash offset n = record {
  at = λ s z. go s z (read offset n s.flash) (λ bytes. read-IsImage s offset n bytes z);
}
  where
    go :
        (s : Store)
        → Synced s
        → (o : Option (List ℕ)) → ((bytes : List ℕ) → o ≡ some bytes → IsImage bytes)
        → Outcome IsImage (s, or_fail o flash_error)
    go s z none k = inr z
    go s z (some bytes) k = (z, k bytes refl)

pub Safe-read_blob : (id : BlobId) → Safe (read_blob id) IsImage
unfolding read_blob
Safe-read_blob id =
    Safe-bind {P = Any} (find (blob id) not_found) _ (Safe-find (blob id) not_found (λ c b v h. tt))
      (λ b _.
        Safe-bind (read_flash (add32 storage_flash_offset b.offset) b.len) _ (Safe-read_flash _ _)
          (λ bytes n.
            Safe-if (not (crc32 bytes == b.crc32)) _ _ (Safe-raise (failed corrupt))
              (Safe-pure bytes n)))

abbrev pub IsBlob : BlobId × List ℕ → Type 0
IsBlob b = IsU32 b.0 × IsImage b.1

pub Safe-read_blobs : (ids : List BlobId) → All IsU32 ids → Safe (read_blobs ids) (All IsBlob)
unfolding read_blobs
Safe-read_blobs [] all = Safe-pure [] tt
Safe-read_blobs (id ∷ ids) all = Safe-bind (read_blob id) _ (Safe-read_blob id) (λ image n.
    Safe-bind (read_blobs ids) _ (Safe-read_blobs ids all.1)
      (λ rest r. Safe-pure ((id, image) ∷ rest) ((all.0, n), r)))

overwrite_all :
    (n b : ℕ) (xs : List ℕ) → length xs ≡ n → splice 0 (replicate n b) xs ≡ replicate n b
overwrite_all zero b [] h = refl
overwrite_all zero b (x ∷ xs) h = absurd (omega arith)
overwrite_all (suc n) b [] h = absurd (omega arith)
overwrite_all (suc n) b (x ∷ xs) h = ap (◌∷◌ b) (overwrite_all n b xs (omega arith))

erase_all_bytes :
    (n : ℕ) (flash : StorageFlash)
    → length flash.bytes ≡ n
    → erase 0 n flash ≡ some (record { bytes = replicate n 0xff })
unfolding erase
erase_all_bytes n flash h =
    let low : leb 0 n ≡ true = le→leb 0 n (omega arith) in
    let high : leb n (length flash.bytes) ≡ true = le→leb n _ (omega arith) in
    let diff : n - 0 ≡ n = omega arith in
    rw (low, high, diff)
      (ap (λ bytes. some (record { bytes = bytes })) (overwrite_all n 0xff flash.bytes h))

-- A name for the size of the flash that does not compute.
unfoldable whole : ℕ
whole = storage_flash_bytes

whole_eq : whole ≡ storage_flash_bytes
unfolding whole
whole_eq = refl

-- A catalog without records.
abbrev pub fresh : ℕ → ℕ → ℕ → Catalog
fresh record_id blob_id generation = record new_catalog {
  next_record_id = record_id;
  next_blob_id = blob_id;
  next_generation = generation;
}

module _ (record_id blob_id generation : ℕ) (r : IsU32 record_id) (b : IsU32 blob_id)
    (g : IsU32 generation) where
  Synced-fresh :
      (flash : StorageFlash)
      → flash.bytes ≡ replicate whole 0xff
      → Synced (record { flash = flash; catalog = fresh record_id blob_id generation })
  unfolding new_catalog journal_bytes replay
  Synced-fresh flash h = record {
    written = [];
    represents = record {
      free = whole;
      stored = h;
      size = omega (arith, whole_eq);
      offset = refl;
      records = tt;
    };
    booted = new_catalog;
    replayed = refl;
    same = record { identities_eq = refl; entities_eq = refl; blobs_eq = refl };
    formatted = refl;
    valid = record {
      record_id_lt = r;
      blob_id_lt = b;
      generation_lt = g;
      identities = All-replicate (Held StoredIdentity) 32 none tt;
      entities = All-replicate (Held StoredEntity) 64 none tt;
      blobs = All-replicate (Held StoredId) 64 none tt;
    };
  }

  -- Everything is erased, and the catalog starts again.
  pub Safe-restart :
      Safe (erase_all >>= λ _. set_catalog (λ c. fresh record_id blob_id generation)) Any
  unfolding erase_all set_catalog ◌>>=◌
  Safe-restart = record {
    at = λ s z.
        restarted s
          (erase storage_flash_offset (storage_flash_offset + storage_flash_bytes) s.flash)
          (ap (λ n. erase 0 n s.flash) (sym whole_eq)
            ∙ erase_all_bytes whole s.flash (length-flash s z ∙ sym whole_eq));
  }
    where
      restarted :
          (s : Store) (o : Option StorageFlash)
          → o ≡ some (record { bytes = replicate whole 0xff })
          → Outcome Any (
              continue {A = Unit}
                (elim o [
                  | none ↦ (s, err (failed flash_error))
                  | some flash ↦ (record s { flash = flash }, ok tt)
                ])
                (λ _. set_catalog (λ c. fresh record_id blob_id generation)))
      restarted s none h = absurd (ground arith)
      restarted s (some flash) h =
          (Synced-fresh flash (ap (λ f. f.bytes) (some-injective flash _ h)), tt)

pub Safe-write_blobs :
    (blobs : List (BlobId × List ℕ)) (generation : ℕ)
    → All IsBlob blobs
    → IsU32 generation
    → Safe (write_blobs blobs generation) IsU32
unfolding write_blobs gets ◌>>=◌ change align4
Safe-write_blobs [] generation all g = Safe-pure generation g
Safe-write_blobs ((id, image) ∷ blobs) generation all g = record {
  at = λ s z.
      let place = λ (c : Catalog).
        add32 (sub32 c.write_offset (align4 (add32 24 (length image % 2 ^ 32)))) 24 in
      let f = λ (c : Catalog). upsert_blob (stored_blob id (place c) image generation) c in
      Outcome-assoc IsU32 (append 7 id generation image s) (λ _. change f)
        (λ _. write_blobs blobs (add32 generation 1))
        (Outcome-bind ((append 7 id generation image >>= λ _. change f) s)
          (λ _. write_blobs blobs (add32 generation 1))
          (blob-Outcome id generation image all.0.0 g all.0.1 s z f (
            ap
              (λ o. upsert_blob (stored_blob id o image generation) (
                behind s z (blob_record id generation image)
                  (blob_record-IsRecord id generation image all.0.0 g all.0.1) f))
              (placed (length image) s all.0.1 (write_offset_le s z))))
          (λ _ _. Safe-write_blobs blobs (add32 generation 1) all.1 (omega arith)));
}
  where
    placed :
        (n : ℕ) (s : Store)
        → n ≤ storage_flash_bytes
        → s.catalog.write_offset ≤ storage_flash_bytes
        → add32 (sub32 (s.catalog.write_offset + record_len n) (align4 (add32 24 (n % 2 ^ 32)))) 24
          ≡ s.catalog.write_offset + 24
    placed n s h w = let e = align4-record_len n h in omega arith
