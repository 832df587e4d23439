-- ===== src/Storage/Journal/Bytes.antt =====
-- A journal as a list of records, and the bytes that src/storage/journal.rs writes for it.
use mathlib.Core.List.{append-nil, append_assoc}
use omniportal.Base.{
  ℕ, zero, suc, ◌+◌, ◌-◌, ◌*◌, ◌/◌, ◌%◌, ◌≤◌, ◌<◌, ◌^◌, ◌≡◌, refl, sym, ap, ap₂, ◌∙◌, List, [], ◌∷◌,
  ◌++◌, some, length, replicate, slice, slice-append, length-append, length-replicate, arith,
  splice, splice-append,
}
use omniportal.Base.Bytes.{add32}
use omniportal.Storage.Flash.{StorageFlash, read, write, storage_flash_offset, storage_flash_bytes}
use omniportal.Storage.Journal.Crc.{crc32-lt, align4}
use omniportal.Storage.Journal.Header.{JournalHeader, encode, IsHeader, length-encode}
use omniportal.Storage.Journal.{make_header, pad4}

pub record JournalRecord : Type 0 where
  pub kind : ℕ
  pub id : ℕ
  pub generation : ℕ
  pub payload : List ℕ

-- Its numbers are `u32`s, and its payload is one that the flash could hold.
pub record IsRecord (r : JournalRecord) : Type 0 where
  pub id_lt : r.id < 2 ^ 32
  pub generation_lt : r.generation < 2 ^ 32
  pub payload_le : length r.payload ≤ storage_flash_bytes

abbrev pub header_of : JournalRecord → JournalHeader
header_of r = make_header r.kind r.id r.generation r.payload

-- The bytes of a record: its header and its payload, filled up to a whole number of words.
abbrev pub record_len : ℕ → ℕ
record_len n = (24 + n + 3) / 4 * 4

abbrev pub padding : ℕ → List ℕ
padding n = replicate (record_len n - (24 + n)) 0xff

abbrev pub body : JournalRecord → List ℕ
body r = r.payload ++ padding (length r.payload)

unfoldable pub record_bytes : JournalRecord → List ℕ
record_bytes r = encode (header_of r) ++ body r

unfoldable pub journal_bytes : List JournalRecord → List ℕ
journal_bytes [] = []
journal_bytes (r ∷ rs) = record_bytes r ++ journal_bytes rs

-- What the header says is below the wrap-around of its fields.
pub header_of-IsHeader : (r : JournalRecord) → IsRecord r → IsHeader (header_of r)
header_of-IsHeader r v = record {
  id_lt = v.id_lt;
  generation_lt = v.generation_lt;
  payload_len_lt = omega arith;
  payload_crc_lt = crc32-lt r.payload;
}

pub align4-record_len :
    (n : ℕ) → n ≤ storage_flash_bytes → align4 (add32 24 (n % 2 ^ 32)) ≡ record_len n
unfolding align4
align4-record_len n h = omega arith

pub length-body : (r : JournalRecord) → length (body r) ≡ record_len (length r.payload) - 24
length-body r = omega (
  arith,
  length-append r.payload (padding (length r.payload)),
  length-replicate {0} (record_len (length r.payload) - (24 + length r.payload)) byte,
)
  where
    byte : ℕ
    byte = 0xff

pub length-record_bytes :
    (r : JournalRecord) → length (record_bytes r) ≡ record_len (length r.payload)
unfolding record_bytes
length-record_bytes r = omega (
  arith,
  length-append (encode (header_of r)) (body r),
  length-encode (header_of r),
  length-body r,
)

pub journal_bytes-append :
    (rs qs : List JournalRecord) → journal_bytes (rs ++ qs) ≡ journal_bytes rs ++ journal_bytes qs
unfolding journal_bytes
journal_bytes-append [] qs = refl
journal_bytes-append (r ∷ rs) qs =
    ap (λ bytes. record_bytes r ++ bytes) (journal_bytes-append rs qs)
    ∙ sym (append_assoc (record_bytes r) (journal_bytes rs) (journal_bytes qs))

pub length-journal_bytes_mod : (rs : List JournalRecord) → length (journal_bytes rs) % 4 ≡ 0
unfolding journal_bytes
length-journal_bytes_mod [] = refl
length-journal_bytes_mod (r ∷ rs) = omega (
  arith,
  length-append (record_bytes r) (journal_bytes rs),
  length-record_bytes r,
  length-journal_bytes_mod rs,
)

pad4-replicate :
    (rounds k : ℕ) (bytes : List ℕ)
    → k ≤ rounds
    → rounds < 4
    → (length bytes + k) % 4 ≡ 0
    → pad4 rounds bytes ≡ bytes ++ replicate k 0xff
unfolding pad4
pad4-replicate zero zero bytes h s e = sym (append-nil bytes)
pad4-replicate zero (suc k) bytes h s e = absurd (omega arith)
pad4-replicate (suc rounds) zero bytes h s e = ground (arith, append-nil bytes)
pad4-replicate (suc rounds) (suc k) bytes h s e =
    let last : List ℕ = 0xff ∷ [] in
    let ih =
      pad4-replicate rounds k (bytes ++ last) (omega arith) (omega arith)
        (omega (arith, length-append bytes last)) in
    ground (arith, ih, append_assoc bytes last (replicate k 0xff))

-- What `append_record` writes is the record's bytes.
pub pad4-record_bytes :
    (r : JournalRecord) → pad4 3 (encode (header_of r) ++ r.payload) ≡ record_bytes r
unfolding record_bytes
pad4-record_bytes r =
    let n = length r.payload in
    let head = encode (header_of r) in
    pad4-replicate 3 (record_len n - (24 + n)) (head ++ r.payload) (omega arith) (omega arith)
      (omega (arith, length-append head r.payload, length-encode (header_of r)))
    ∙ append_assoc head r.payload (padding n)

-- A read of a whole number of words that lie on the flash.
pub read_at :
    (off n : ℕ) (flash : StorageFlash) (pre xs post : List ℕ)
    → flash.bytes ≡ pre ++ (xs ++ post)
    → length pre ≡ off
    → length xs ≡ n
    → off % 4 ≡ 0
    → n % 4 ≡ 0
    → read (storage_flash_offset + off) n flash ≡ some xs
unfolding read
read_at off n flash pre xs post e p l o m =
    let whole : slice off n (pre ++ (xs ++ post)) ≡ xs =
      ap₂ (λ a b. slice a b (pre ++ (xs ++ post))) (sym p) (sym l) ∙ slice-append pre xs post in
    let size : off + n ≤ length (pre ++ (xs ++ post)) =
      omega (arith, length-append pre (xs ++ post), length-append xs post) in
    ground (arith, e, whole, size)

pub write_at :
    (off : ℕ) (flash : StorageFlash) (pre src old post : List ℕ)
    → flash.bytes ≡ pre ++ (old ++ post)
    → length pre ≡ off
    → length src ≡ length old
    → off % 4 ≡ 0
    → length src % 4 ≡ 0
    → write (storage_flash_offset + off) src flash ≡ some (record { bytes = pre ++ (src ++ post) })
unfolding write
write_at off flash pre src old post e p l o m =
    let whole : splice off src (pre ++ (old ++ post)) ≡ pre ++ (src ++ post) =
      ap (λ a. splice a src (pre ++ (old ++ post))) (sym p) ∙ splice-append pre src old post l in
    let size : off + length src ≤ length (pre ++ (old ++ post)) =
      omega (arith, length-append pre (old ++ post), length-append old post) in
    ground (arith, e, whole, size)
