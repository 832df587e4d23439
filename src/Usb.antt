-- ===== src/Usb.antt =====
-- The USB portals that the device plays: src/usb.
pub mod Skylanders
pub mod Infinity
