-- ===== src/Storage/Journal/Replay/Panic.antt =====
-- The allocation in `scan_flash` of src/storage/journal.rs that panics.
use omniportal.Base.{ℕ, ◌+◌, ◌≤◌, ◌<◌, ◌^◌, ◌≡◌, refl, ap, ◌∙◌, List, ◌∷◌, [], ◌++◌, drop, arith}
use omniportal.Base.Bytes.{from_le_bytes}
use omniportal.Storage.Catalog.{Catalog}
use omniportal.Storage.Flash.{StorageFlash, storage_flash_bytes}
use omniportal.Storage.Journal.Bytes.{read_at}
use omniportal.Storage.Journal.Crc.{align4}
use omniportal.Storage.Journal.Header.{
  JournalHeader, IsHeader, encode, decode-encode, length-encode,
}
use omniportal.Storage.Journal.{
  panics, scan_record, scan_sized, scan_header, scan_step, scan_flash, scan_panicked,
}
use omniportal.Storage.Journal.Replay.{scan_loop-suc, go_on}

module _ (h : JournalHeader) (flash : StorageFlash) (catalog : Catalog) where
  scan_record-huge :
      2 ^ 32 ≤ h.payload_len + 27
      → h.payload_len + 3 < 2 ^ 32
      → scan_record flash catalog h 0 0 ≡ panics
  unfolding scan_record scan_sized align4
  scan_record-huge huge below = ground arith

  -- A header at the start of the flash, with a good magic number, whose payload is said to be of
  -- 2^32 - 27 to 2^32 - 4 bytes makes the scan panic: the record's length wraps around, passes the
  -- test against the flash's size, and the buffer for the payload is larger than any may be.
  pub scan_flash_panics :
      (rest : List ℕ)
      → flash.bytes ≡ encode h ++ rest
      → IsHeader h
      → 2 ^ 32 ≤ h.payload_len + 27
      → h.payload_len + 3 < 2 ^ 32
      → scan_flash flash catalog ≡ scan_panicked
  unfolding scan_flash scan_step scan_header from_le_bytes encode
  scan_flash_panics rest at v huge below =
      let magic : List ℕ = 0x49 ∷ 0x4e ∷ 0x4d ∷ 0x4f ∷ [] in
      let header = read_at 0 24 flash [] (encode h) rest at refl (length-encode h) refl refl in
      let word = read_at 0 4 flash [] magic (drop 4 (encode h) ++ rest) at refl refl refl refl in
      let step : scan_step flash catalog 0 0 ≡ panics =
        rw (scan_step, word, scan_header, header, decode-encode h v)
          (scan_record-huge huge below) in
      scan_loop-suc storage_flash_bytes flash catalog 0 0 (omega arith)
      ∙ ap (go_on storage_flash_bytes flash) step
