-- ===== src/Networking/Ip/Slots.antt =====
-- Which slots share their addresses.
use spwn.Base.{ℕ, ◌%◌, ◌≡◌, ◌↔◌, ap}
use spwn.Networking.Ip.{Ipv4Addr, host_ip, guest_ip}

abbrev third : Ipv4Addr → ℕ
third ip = ip.c

-- Two slots have the same host address, and the same guest address, exactly when they are equal
-- modulo 256.
pub same_addresses_iff :
    (s t : ℕ)
    → ((s % 256 ≡ t % 256) ↔ (host_ip s ≡ host_ip t))
      × ((s % 256 ≡ t % 256) ↔ (guest_ip s ≡ guest_ip t))
unfolding host_ip guest_ip
same_addresses_iff s t = (((λ e. rw e), (λ e. ap third e)), ((λ e. rw e), (λ e. ap third e)))
