-- ===== src/Lib.antt =====
-- Verification of the OmniPortal firmware: a device that plays a Skylanders portal or an Infinity
-- base on USB, with figures that it keeps in flash. Paths are from the repository's root.
--
-- The parts and how they interact. The storage (src/storage) keeps identities, entities and image
-- blobs in a journal on flash, and a catalog of them in memory. At boot `scan_flash` rebuilds the
-- catalog from the journal; every change appends a record with `append_record`. The USB side
-- (src/usb) holds the images of the figures that are placed, and answers the host's commands.
--
-- Base: Boolean tests, lists over the native numbers, slices of byte arrays with their bounds
--   checks, little-endian bytes, ASCII and UTF-8 texts, results, actions on a state that may fail.
-- Domain: src/domain/entity.rs, the enumerations and their byte codes.
-- Storage/Records: src/storage/records.rs and src/storage/wear.rs; `FixedText` is its bytes and its
--   length.
-- Storage/Table and Storage/Catalog: src/storage/catalog.rs; an operation on `&mut Catalog` returns
--   the new catalog, with the error if there is one.
-- Storage/Flash: the flash of the host build in src/storage/mod.rs, and the sizes in src/config.rs.
-- Storage/Journal: src/storage/journal.rs; one function per loop round and branch of `scan_flash`.
--   Bytes gives the bytes of a list of records, Replay says what a scan of them does and where it
--   panics, and Terminates that the scan ends.
-- Storage/Forms and Storage/Json: src/storage/forms.rs, and the escaping and the hexadecimal digits
--   of src/storage/json.rs; a `&str` is its bytes.
-- Storage/Store: the operations of src/storage/mod.rs. An operation on `&mut Store` is an action
--   (Base/Exec): it returns the store beside its result, so that what was changed before an error
--   stays changed. Compact has the compaction and the format, Create, Import and Edit the
--   operations on identities and entities, Images the figures' images, Slots the active slots and
--   the mode; Figures is the interface to src/figures. Requests names the calls. Synced and the
--   modules below it say what it is to be in step with the flash, and show it for every operation:
--   Rules for each way to build an action, Writes, Blobs and Identities for each kind of record,
--   the others for the operations; Overflow is the case of a full table.
-- Dhcp: src/dhcp.rs; `respond` is a round of the loop of `run`, from a packet to its reply. Packets
--   has the parser and the addresses, Sent the bytes of a reply, Replies what is answered.
-- Usb/Skylanders: src/usb/skylanders.rs; Slot has the slots and their status queues, Reports the
--   reports; Settles, Placement and Readable follow a slot over several reports, and Commands is
--   about panics.
-- Usb/Infinity: src/usb/infinity.rs; Position, Packets, Random, the state, and Commands with the
--   responses.
-- Web/Http: the target, the parameters and the body of a request in src/web/http.rs.
--
-- Numbers are native, with the wrap-around of `u8`, `u32` and `u64` written out as in a release
-- build. An array of a fixed size is a list; that it keeps its size is part of the invariants. A
-- panic is `none`, and `scan_panicked` for the scan, where the code can reach one that matters; a
-- `Vec` of more than 2^31 - 1 bytes panics, as on the 32-bit target.
--
-- Fuel. The loop of `scan_flash` has the flash's size plus one as its fuel; each round moves on by a
-- header at least, so it never runs out (Terminates). The loop over the options of a DHCP packet
-- has the packet's length as its fuel, and is `none` if that ran out; each round takes a byte at
-- least. The other loops are structural.
--
-- Not modelled: the JSON text of the responses of src/storage (an operation returns the record that
-- goes into it), the figures' tables, images and ciphers (src/figures: an interface, Figures, whose
-- laws say that numbers fit the records and images have the two fixed sizes), the web server (the
-- rest of src/web), the sockets of src/dhcp.rs, the USB device tasks and the platform, which drive
-- network and USB stacks of other crates; the HID descriptors, which are data for these; the
-- exhaustion of the heap.
pub mod Base
pub mod Dhcp
pub mod Domain
pub mod Storage
pub mod Usb
pub mod Web
