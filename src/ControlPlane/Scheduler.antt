-- ===== src/ControlPlane/Scheduler.antt =====
-- crates/control-plane/src/scheduler.rs: which host a new VM goes to, and which slot on it.
pub mod Candidates
pub mod Choice
pub mod Slots
pub mod Search
use Prim.Native.String.{◌++◌}
use spwn.Base.{
  ℕ, zero, suc, ◌+◌, String, ◌==◌, Bool, true, false, ◌&&◌, ◌||◌, Option, none, some, List, [], ◌∷◌,
  reverse, select, any, eqb, if◌then◌else◌,
}
use spwn.Base.Int.{ℤ, pos, ◌-ℤ◌, ltb_ℤ, wrap_i32}
use spwn.Base.Sort.{sort_by_key}
use spwn.Base.Text.{show, parse_u32, take_until, drop_past, is_dot}
use spwn.Db.Json.{Json, Fields, end, field, json_eq, get, as_object}
use spwn.Db.Rows.{HostRow}
use spwn.Db.Hosts.{list_active_hosts}
use spwn.World.{Failure, Result, ok, err, message, Exec, ◌>>=◌, gets}

abbrev pub heartbeat_timeout_secs : ℤ
heartbeat_timeout_secs = pos 60

-- i64 differences, taken as exact
abbrev pub free_vcpus : HostRow → ℤ
free_vcpus h = h.vcpu_total -ℤ h.vcpu_used

-- an i32 difference
abbrev pub free_mem : HostRow → ℤ
free_mem h = wrap_i32 (h.mem_total_mb -ℤ h.mem_used_mb)

abbrev same_value : Option Json → Json → Bool
same_value none v = false
same_value (some w) v = json_eq w v

-- The loop over the required pairs.
unfoldable pub has_all : Fields → Fields → Bool
has_all end host_map = true
has_all (field k v req_map) host_map = same_value (get k host_map) v && has_all req_map host_map

abbrev in_labels : Fields → Option Fields → Bool
in_labels req_map none = false
in_labels req_map (some host_map) = has_all req_map host_map

abbrev in_object : Option Fields → Json → Bool
in_object none labels = true
in_object (some req_map) labels = in_labels req_map (as_object labels)

-- A requirement that is no object demands nothing.
unfoldable pub meets_labels : Option Json → Json → Bool
unfolding has_all as_object
meets_labels none labels = true
meets_labels (some required) labels = in_object (as_object required) labels

-- The closure of `filter`.
unfoldable pub is_candidate : ℤ → ℤ → Option Json → ℤ → HostRow → Bool
is_candidate vcpus_needed mem_mb_needed required_labels now h =
    if ltb_ℤ heartbeat_timeout_secs (now -ℤ h.last_seen_at)
    then false
    else if ltb_ℤ (free_vcpus h) vcpus_needed || ltb_ℤ (free_mem h) mem_mb_needed
    then false
    else meets_labels required_labels h.labels

abbrev pub no_host : Failure
no_host = message "no healthy host with sufficient capacity"

abbrev pub first_or_fail : List HostRow → Result HostRow
first_or_fail [] = err no_host
first_or_fail (h ∷ hs) = ok h

unfoldable pub in_order : String → List HostRow → List HostRow
in_order placement_strategy candidates =
    if placement_strategy == "spread"
    then reverse (sort_by_key free_mem candidates)
    else sort_by_key free_mem candidates

unfoldable pub select_from_hosts : List HostRow → ℤ → ℤ → String → Option Json → ℤ → Result HostRow
unfolding is_candidate in_order
select_from_hosts hosts vcpus_needed mem_mb_needed placement_strategy required_labels now =
    first_or_fail (
      in_order placement_strategy
        (select (is_candidate vcpus_needed mem_mb_needed required_labels now) hosts))

abbrev lift : {A : Type 0} → Result A → Exec A
lift r w = (r, w)

unfoldable pub pick_host : ℤ → ℤ → String → Option Json → Exec HostRow
pick_host vcpus_needed mem_mb_needed placement_strategy required_labels = do
  now ← gets (λ w. w.now)
  hosts ← list_active_hosts
  lift (select_from_hosts hosts vcpus_needed mem_mb_needed placement_strategy required_labels now)

abbrev pub or_none : {A B : Type 0} → Option A → (A → Option B) → Option B
or_none none f = none
or_none (some a) f = f a

-- `splitn(4, '.')`, the third part, parsed
unfoldable pub slot_of : String → Option ℕ
slot_of ip =
    or_none (drop_past is_dot ip)
      λ second. or_none (drop_past is_dot second) λ third. parse_u32 (take_until is_dot third)

add_slot : Option ℕ → List ℕ → List ℕ
add_slot none slots = slots
add_slot (some n) slots = n ∷ slots

unfoldable pub used_slots : List String → List ℕ
unfolding slot_of add_slot
used_slots [] = []
used_slots (ip ∷ ips) = add_slot (slot_of ip) (used_slots ips)

-- The search from `n` over the given number of slots.
unfoldable pub first_free : ℕ → ℕ → List ℕ → Option ℕ
first_free zero n used = none
first_free (suc rounds) n used =
    let rest = first_free rounds (n + 1) used in if any (eqb n) used then rest else some n

abbrev pub pool_size : ℕ
pool_size = 65534

-- `none` is the panic "IP pool exhausted".
unfoldable pub next_free_slot : List String → Option ℕ
unfolding used_slots
next_free_slot used_ips = first_free pool_size 1 (used_slots used_ips)

-- format!("172.16.{slot}.2")
unfoldable pub slot_address : ℕ → String
slot_address slot = "172.16." ++ (show slot ++ ".2")
