-- ===== src/Networking.antt =====
-- crates/networking: the addresses and devices of a VM slot.
pub mod Ip
pub mod Tap
