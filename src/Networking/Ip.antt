-- ===== src/Networking/Ip.antt =====
-- crates/networking/src/ip.rs: the addresses of a slot. An Ipv4Addr is its four octets.
pub mod Slots
use spwn.Base.{ℕ, ◌+◌, ◌%◌, String}
use spwn.Base.Text.{show}
use Prim.Native.String.{◌++◌}

pub record Ipv4Addr : Type 0 where
  pub a : ℕ
  pub b : ℕ
  pub c : ℕ
  pub d : ℕ

-- `slot as u8` keeps the eight low bits.
unfoldable pub slot_octets : ℕ → ℕ × ℕ
slot_octets slot = (slot % 256, 1)

unfoldable pub host_ip : ℕ → Ipv4Addr
unfolding slot_octets
host_ip slot = let (a, b) = slot_octets slot in record { a = 172; b = 16; c = a; d = b }

unfoldable pub guest_ip : ℕ → Ipv4Addr
unfolding slot_octets
guest_ip slot = let (a, b) = slot_octets slot in record { a = 172; b = 16; c = a; d = b + 1 }

-- Display of an Ipv4Addr
unfoldable pub show_ip : Ipv4Addr → String
show_ip ip = show ip.a ++ ("." ++ (show ip.b ++ ("." ++ (show ip.c ++ ("." ++ show ip.d)))))

unfoldable pub kernel_boot_args : ℕ → String
kernel_boot_args slot =
    "ip="
    ++ (show_ip (guest_ip slot)
        ++ ("::" ++ (show_ip (host_ip slot) ++ ":255.255.255.252::eth0:off")))
