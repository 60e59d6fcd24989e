-- ===== src/HostAgent/Util.antt =====
-- crates/host-agent/src/manager/util.rs: the numbers handed to the jailer, and the slot of an
-- address.
pub mod Shares
pub mod Slots
use spwn.Base.{ℕ, ◌/◌, String, Option, none, some, eqb, if◌then◌else◌}
use spwn.Base.Int.{ℤ, pos, negsuc, ◌+ℤ◌, ltb_ℤ, div_ℤ, mul_ℤ, max_ℤ, clamp, wrap_i64}
use spwn.Base.Text.{show_ℤ, is_dot, take_until, drop_past, parse_u32}
use Prim.Native.Char.{code}
use Prim.Native.String.{[], ◌∷◌, ◌++◌}

unfoldable pub cpu_weight : ℤ → ℤ
cpu_weight millis = clamp (div_ℤ millis 10) (pos 1) (pos 10000)

-- in microseconds of each 100000; the product is an i64 product
unfoldable pub quota : ℤ → ℤ
quota millis = max_ℤ (div_ℤ (wrap_i64 (mul_ℤ millis 100000)) 1000) (pos 1000)

unfoldable pub cpu_max : ℤ → String
unfolding quota
cpu_max millis = show_ℤ (quota millis) ++ " 100000"

unfoldable pub memory_max : ℤ → String
memory_max memory_mb = show_ℤ (max_ℤ (mul_ℤ memory_mb 1048576) (pos 0))

-- manager/mod.rs: ((vm.vcpus + 999) / 1000).clamp(1, 255)
unfoldable pub vcpu_count : ℤ → ℤ
vcpu_count vcpus = clamp (div_ℤ (wrap_i64 (vcpus +ℤ pos 999)) 1000) (pos 1) (pos 255)

-- 8 * 1000 / vcpus, for a positive number
abbrev pub eight_over : ℤ → ℤ
eight_over (pos n) = pos (8000 / n)
eight_over (negsuc n) = pos 60

-- manager/mod.rs: the seconds that a VM gets to shut down
unfoldable pub graceful_secs : ℤ → ℤ
graceful_secs vcpus =
    if ltb_ℤ (pos 0) vcpus then clamp (eight_over vcpus) (pos 8) (pos 60) else pos 60

abbrev pub or_none : {A B : Type 0} → Option A → (A → Option B) → Option B
or_none none f = none
or_none (some a) f = f a

-- The third of exactly four parts.
unfoldable pub third_of_four : Option String → String → Option String
third_of_four none third = some third
third_of_four (some rest) third = none

unfoldable pub ip_to_slot : String → Option ℕ
unfolding third_of_four
ip_to_slot guest_ip = or_none (drop_past is_dot guest_ip) λ second.
    or_none (drop_past is_dot second) λ third. or_none (drop_past is_dot third) λ fourth.
      or_none (third_of_four (drop_past is_dot fourth) (take_until is_dot third)) parse_u32

-- Path::join, on a base that does not end in a slash
unfoldable pub join : String → String → String
join base [] = base ++ "/"
join base (c ∷ path) = if eqb (code c) b'/' then c ∷ path else base ++ ("/" ++ c ∷ path)
