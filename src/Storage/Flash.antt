-- ===== src/Storage/Flash.antt =====
-- `StorageFlash` of src/storage/mod.rs, the flash of the host build, and the two constants of
-- src/config.rs. An `Err(())` is `none`. The device's flash is a driver of another crate.
use omniportal.Base.{
  ℕ, ◌+◌, ◌-◌, ◌*◌, ◌%◌, List, ◌&&◌, ◌||◌, Option, none, some, leb, ◌==◌, if◌then◌else◌, length,
  slice, splice, replicate, not,
}

abbrev pub storage_flash_offset : ℕ
storage_flash_offset = 0

abbrev pub storage_flash_bytes : ℕ
storage_flash_bytes = 2 * 1024 * 1024

pub record StorageFlash : Type 0 where
  pub bytes : List ℕ

unfoldable pub new_flash : StorageFlash
new_flash = record { bytes = replicate storage_flash_bytes 0xff }

-- The bytes that a read of `n` bytes fills its buffer with.
unfoldable pub read : ℕ → ℕ → StorageFlash → Option (List ℕ)
read offset n flash =
    if not (offset % 4 == 0) || not (n % 4 == 0)
    then none
    else if leb (offset + n) (length flash.bytes)
    then some (slice offset n flash.bytes)
    else none

unfoldable pub write : ℕ → List ℕ → StorageFlash → Option StorageFlash
write offset source flash =
    if not (offset % 4 == 0) || not (length source % 4 == 0)
    then none
    else if leb (offset + length source) (length flash.bytes)
    then some (record { bytes = splice offset source flash.bytes })
    else none

unfoldable pub erase : ℕ → ℕ → StorageFlash → Option StorageFlash
erase from to flash =
    if leb from to && leb to (length flash.bytes)
    then some (record { bytes = splice from (replicate (to - from) 0xff) flash.bytes })
    else none
