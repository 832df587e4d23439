-- ===== src/Usb/Infinity/Packets/Seal.antt =====
-- The checksum of a packet of src/usb/infinity.rs.
use omniportal.Base.{
  ℕ, ◌+◌, ◌<◌, ◌≡◌, true, arith, length, get_or, set, ==_refl, lt→ltb, take-set, get_or-set_self,
  get_or-set_before,
}
use omniportal.Usb.Infinity.Packets.{Report, checksum, seal, valid_command_packet}

pub checksum-set : (report : Report) (i v : ℕ) → checksum (set report i v) i ≡ checksum report i
unfolding checksum
checksum-set report i v = rw (take-set report i i v (omega arith))

pub valid-seal :
    (report : Report) (index : ℕ)
    → length report ≡ 32
    → 2 + get_or report 1 0 ≡ index
    → index < 32
    → valid_command_packet (seal index report) ≡ true
unfolding valid_command_packet
valid-seal report index size len lt =
    let len' = get_or-set_before report index 1 (checksum report index) 0 (omega arith) in
    let same = checksum-set report index (checksum report index) in
    let kept = get_or-set_self report index (checksum report index) 0 (omega arith) in
    let at : 2 + get_or (seal index report) 1 0 ≡ index = rw len' len in
    rw (at, kept, same, ==_refl (checksum report index), lt→ltb index 32 lt)
