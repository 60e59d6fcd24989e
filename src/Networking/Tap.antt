-- ===== src/Networking/Tap.antt =====
-- crates/networking/src/tap.rs: device names and traffic shaping. The `ip` and `tc` commands are
-- external commands; the devices that exist are the agent's `taps`.
use spwn.Base.{ℕ, ◌*◌, ◌/◌, String, ◌==◌, ◌∷◌, Bool, true, false, not, select, any}
use spwn.Base.Text.{show}
use spwn.Networking.Ip.{Ipv4Addr, host_ip, guest_ip}
use spwn.World.{Exec, Done, message, ◌>>=◌, ◌>>◌, pure, gets, set_agent, external, ignore}
use Prim.Native.String.{◌++◌}

unfoldable pub tap_name : ℕ → String
tap_name slot = "fc-tap-" ++ show slot

-- 1.5 times the bytes of ten milliseconds at the rate, in u64 arithmetic
unfoldable pub burst_bytes : ℕ → ℕ
burst_bytes mbps = mbps * 1000000 / 8 / 100 * 3 / 2

-- The old discipline is deleted first, whatever comes of that.
unfoldable pub apply_tc_shaping : String → ℕ → Exec Done
apply_tc_shaping tap mbps = do
  ignore (external (message "tc qdisc del"))
  external (message "tc qdisc add")

pub record TapDevice : Type 0 where
  pub name : String
  pub host_ip : Ipv4Addr
  pub guest_ip : Ipv4Addr
  pub slot : ℕ

unfoldable pub drop_tap : String → Exec Done
drop_tap name = set_agent (λ a. record a { taps = select (λ t. not (t == name)) a.taps })

unfoldable pub release_tap : ℕ → Exec Done
unfolding drop_tap
release_tap slot = do external (message "ip link delete"); drop_tap (tap_name slot)

unfoldable pub remove_stale : Bool → ℕ → Exec Done
unfolding drop_tap
remove_stale true slot = do external (message "remove stale tap"); drop_tap (tap_name slot)
remove_stale false slot = pure tt

unfoldable pub allocate_tap : ℕ → Exec TapDevice
unfolding remove_stale
allocate_tap slot = do
  already_exists ← gets (λ w. any (λ t. t == tap_name slot) w.agent.taps)
  remove_stale already_exists slot
  external (message "ip tuntap add")
  set_agent (λ a. record a { taps = tap_name slot ∷ a.taps })
  external (message "ip addr add")
  external (message "ip link set up")
  pure (record {
    name = tap_name slot;
    host_ip = host_ip slot;
    guest_ip = guest_ip slot;
    slot = slot;
  })
