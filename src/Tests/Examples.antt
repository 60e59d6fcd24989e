-- ===== src/Tests/Examples.antt =====
-- The theorems at concrete states.
use spwn.Base.{
  ℕ, ◌≡◌, ◌≢◌, refl, Option, none, some, [], ◌∷◌, Mem, All, arith, ◌≤◌, ◌↔◌, find, ◌%◌, select, any,
  update_where,
}
use spwn.Base.Int.{IsI32, IsI64, pos, wrap_i32, wrap_i64, ◌+ℤ◌, ◌-ℤ◌}
use spwn.Base.Sort.{sort_by_key}
use spwn.Base.Text.{take_until, drop_past, parse_unsigned}
use spwn.Db.Json.{get, json_eq}
use spwn.Db.Json.{Json, obj, end, field, str}
use spwn.Db.Rows.{AccountRow, stopped}
use spwn.Db.Quota.{
  is_account, used_vcpus, used_mem, used_vms, reserved, total, check_quota_and_reserve,
}
use spwn.Db.Vms.{update_vms}
use spwn.Db.Quota.Limits.{
  WithinQuota, check_quota_and_reserve-WithinQuota, check_quota_and_reserve_lets_in,
}
use spwn.World.{
  World, after, err, ok, on_option, query, quota_exceeded, result, serialization,
  serialization_conflict, sqlx, ◌>>=◌,
}
use spwn.ControlPlane.Scheduler.{
  select_from_hosts, no_host, next_free_slot, slot_address, slot_of, first_free, meets_labels,
}
use spwn.ControlPlane.Scheduler.Choice.{Prefers, select_from_hosts_best, select_from_hosts-err_iff}
use spwn.ControlPlane.Scheduler.Candidates.{CanHost}
use spwn.ControlPlane.Scheduler.Search.{next_free_slot_fresh, next_free_slot_total}
use spwn.ControlPlane.Scheduler.Slots.{slot_of-slot_address}
use spwn.Base.Text.{show}
use spwn.Networking.Ip.{guest_ip, host_ip, kernel_boot_args, show_ip}
use spwn.Networking.Ip.Slots.{same_addresses_iff}
use spwn.Tests.Sample.{busy_host, idle_host, account_row, vm_row, db_with, world_with}

abbrev in_europe : Option Json
in_europe = some (obj (field "region" (str "eu") end))

chosen :
    select_from_hosts
      (busy_host ∷ idle_host ∷ [])
      (pos 1000)
      (pos 512)
      "best_fit"
      in_europe
      (pos 1000)
    ≡ ok busy_host
unfolding select_from_hosts sort_by_key select ◌-ℤ◌ wrap_i32 meets_labels get json_eq
chosen = refl

select_from_hosts_best_example :
    Mem busy_host (busy_host ∷ idle_host ∷ [])
    × CanHost (pos 1000) (pos 512) in_europe (pos 1000) busy_host
    × All
        (λ c.
          CanHost (pos 1000) (pos 512) in_europe (pos 1000) c
          → Prefers (pos 1000) (pos 512) in_europe (pos 1000) "best_fit" busy_host c)
        (busy_host ∷ idle_host ∷ [])
select_from_hosts_best_example =
    select_from_hosts_best (pos 1000) (pos 512) in_europe (pos 1000) (busy_host ∷ idle_host ∷ [])
      "best_fit" busy_host chosen

select_from_hosts-err_iff_example :
    (select_from_hosts (busy_host ∷ []) (pos 1000) (pos 5000) "spread" none (pos 1000)
      ≡ err no_host)
    ↔ All (λ c. ¬ CanHost (pos 1000) (pos 5000) none (pos 1000) c) (busy_host ∷ [])
select_from_hosts-err_iff_example =
    select_from_hosts-err_iff (pos 1000) (pos 5000) none (pos 1000) (busy_host ∷ []) "spread"

second_slot : next_free_slot ("172.16.1.2" ∷ "172.16.3.2" ∷ []) ≡ some 2
unfolding next_free_slot first_free slot_of take_until drop_past parse_unsigned any
second_slot = refl

next_free_slot_fresh_example :
    (1 ≤ 2) × (2 ≤ 65534) × All (λ ip. ip ≢ slot_address 2) ("172.16.1.2" ∷ "172.16.3.2" ∷ [])
next_free_slot_fresh_example = next_free_slot_fresh ("172.16.1.2" ∷ "172.16.3.2" ∷ []) 2 second_slot

next_free_slot_total_example :
    (slot : ℕ) × (next_free_slot ("172.16.1.2" ∷ "172.16.3.2" ∷ []) ≡ some slot)
next_free_slot_total_example = next_free_slot_total ("172.16.1.2" ∷ "172.16.3.2" ∷ []) (omega arith)

slot_of-slot_address_example : slot_of (slot_address 3) ≡ some 3
slot_of-slot_address_example = slot_of-slot_address 3 (omega arith)

same_addresses_iff_example :
    ((1 % 256 ≡ 257 % 256) ↔ (host_ip 1 ≡ host_ip 257))
    × ((1 % 256 ≡ 257 % 256) ↔ (guest_ip 1 ≡ guest_ip 257))
same_addresses_iff_example = same_addresses_iff 1 257

abbrev stopped_world : World
stopped_world = world_with (db_with (vm_row "vm1" stopped ∷ []))

vcpus_fit : IsI64 (used_vcpus "alice" stopped_world.db)
unfolding used_vcpus total ◌+ℤ◌ select
vcpus_fit = (omega arith, omega arith)

mem_fits : IsI32 (used_mem "alice" stopped_world.db)
unfolding used_mem total ◌+ℤ◌ select
mem_fits = (omega arith, omega arith)

vms_fit : IsI32 (used_vms "alice" stopped_world.db)
unfolding used_vms total ◌+ℤ◌ select
vms_fit = (omega arith, omega arith)

vcpu_sum_fits : IsI64 (used_vcpus "alice" stopped_world.db +ℤ pos 1000)
unfolding used_vcpus total ◌+ℤ◌ select
vcpu_sum_fits = (omega arith, omega arith)

mem_sum_fits : IsI32 (used_mem "alice" stopped_world.db +ℤ pos 512)
unfolding used_mem total ◌+ℤ◌ select
mem_sum_fits = (omega arith, omega arith)

let_in : result (check_quota_and_reserve "alice" "vm1" (pos 1000) (pos 512)) stopped_world ≡ ok tt
unfolding check_quota_and_reserve find on_option query select wrap_i32 wrap_i64 ◌+ℤ◌ ◌>>=◌
let_in = refl

check_quota_and_reserve-WithinQuota_example :
    (a : AccountRow) × (find (is_account "alice") stopped_world.db.accounts ≡ some a)
    × WithinQuota a "alice"
        (after (check_quota_and_reserve "alice" "vm1" (pos 1000) (pos 512)) stopped_world).db
unfolding find
check_quota_and_reserve-WithinQuota_example =
    check_quota_and_reserve-WithinQuota "alice" "vm1" (vm_row "vm1" stopped) stopped_world (tt, tt)
      refl refl refl vcpu_sum_fits mem_sum_fits let_in

within : WithinQuota (account_row "alice") "alice" (update_vms "vm1" reserved stopped_world.db)
unfolding used_vms used_vcpus used_mem total ◌+ℤ◌ select update_vms update_where
within = record { vms_within = omega arith; vcpus_within = omega arith; mem_within = omega arith }

check_quota_and_reserve_lets_in_example :
    check_quota_and_reserve "alice" "vm1" (pos 1000) (pos 512) stopped_world
    ≡ (ok tt, record stopped_world { db = update_vms "vm1" reserved stopped_world.db })
unfolding find
check_quota_and_reserve_lets_in_example =
    check_quota_and_reserve_lets_in "alice" "vm1" (vm_row "vm1" stopped) (account_row "alice")
      stopped_world refl (tt, tt) refl refl refl refl vcpus_fit mem_fits vms_fit vcpu_sum_fits
      mem_sum_fits within

refused :
    result (check_quota_and_reserve "alice" "vm1" (pos 9000) (pos 512)) stopped_world
    ≡ err (quota_exceeded "vcpu limit would be exceeded")
unfolding check_quota_and_reserve find on_option query select wrap_i64 ◌+ℤ◌ ◌>>=◌
refused = refl

-- A serialization failure of the third statement is no conflict to be retried; that of the commit is.
failed_statement :
    result
      (check_quota_and_reserve "alice" "vm1" (pos 1000) (pos 512))
      (record stopped_world { faults = none ∷ none ∷ some serialization ∷ [] })
    ≡ err (sqlx serialization)
unfolding check_quota_and_reserve query ◌>>=◌
failed_statement = refl

failed_commit :
    check_quota_and_reserve "alice" "vm1"
      (pos 1000)
      (pos 512)
      (record stopped_world { faults = none ∷ none ∷ none ∷ none ∷ none ∷ some serialization ∷ [] })
    ≡ (err serialization_conflict, stopped_world)
unfolding check_quota_and_reserve find on_option query select wrap_i32 wrap_i64 ◌+ℤ◌ ◌>>=◌
failed_commit = refl

boot_args_of_slot_0 : kernel_boot_args 0 ≡ "ip=172.16.0.2::172.16.0.1:255.255.255.252::eth0:off"
unfolding kernel_boot_args show_ip host_ip guest_ip show
boot_args_of_slot_0 = refl
