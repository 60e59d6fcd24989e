-- ===== src/Tests/HostRuns.antt =====
-- The operations of the host agent at concrete states.
use spwn.Base.Sort.{insert_by, sort_by_key}
use spwn.Networking.Ip.{guest_ip, host_ip, kernel_boot_args, show_ip, slot_octets}
use spwn.Db.Hosts.{get_snapshot, list_snapshots, log_event}
use spwn.HostAgent.Manager.{
  add_file, exists, provision_overlay, remove_file, resize_overlay, send, vm_not_found,
}
use spwn.Networking.Tap.{
  allocate_tap, apply_tc_shaping, drop_tap, release_tap, remove_stale, tap_name,
}
use spwn.Db.Vms.{
  delete_violation, delete_vm, deleted_vm, get_vm, set_vm_running, set_vm_status, set_vm_stopped,
  update_vm, update_vms,
}
use spwn.HostAgent.Util.{
  cpu_max, cpu_weight, graceful_secs, ip_to_slot, memory_max, quota, vcpu_count,
}
use spwn.Base.Text.{digit_char, drop_past, parse_unsigned, show, show_ℤ, take_until}
use spwn.Base.{length-select-le, [], any, find, none, refl, select, update_where, ◌∷◌, ◌≡◌}
use spwn.Base.Int.{div_ℤ, low_bits, mul_ℤ, pos, ◌+ℤ◌}
use spwn.Db.Rows.{SnapshotRow, stopped, running}
use spwn.World.{
  World, after, attempt, constrained, external, fail, gets, ignore, modify, ok, ok_or, on_option,
  on_result, pure, query, result, set_agent, transact, update, ◌>>=◌,
}
use spwn.HostAgent.Lifecycle.{
  boot_args, launch, launch_config, or_set_error, require_vm, start, start_inner,
}
use spwn.HostAgent.Teardown.{
  delete, kill_process, persist_overlay, release_slot, remove_overlay, remove_snapshot_files,
  shut_down, shutdown_within, stop, stop_inner,
}
use spwn.HostAgent.Snapshot
use spwn.HostAgent.Snapshot.{register_overlay, restore_inner, restore_snapshot, take_snapshot}
use spwn.HostAgent.Snapshot.Limit.{AtMostTwo}
use spwn.HostAgent.Snapshot.Operations.{manager_keeps_limit}
use spwn.HostAgent.Outcomes.{IsRunning, stop-RowWith, start-RowWith, restore_snapshot-RowWith}
use spwn.HostAgent.RowRules.{RowWith}
use spwn.HostAgent.Deletion.{IsGone, delete-IsGone}
use spwn.HostAgent.Service.{service}
use spwn.ControlPlane.Migration.{migrate_vm}
use spwn.ControlPlane.Migration.Refusal.{migrate_vm_refused}
use spwn.Tests.Sample.{vm_row, db_with, world_with, manager}

abbrev snapshot_row : SnapshotRow
snapshot_row = record {
  id = "snap1";
  vm_id = "vm1";
  label = none;
  snapshot_path = "/jail/snap1.snap";
  mem_path = "/jail/snap1.mem";
  size_bytes = pos 0;
  created_at = pos 500;
}

abbrev running_world : World
running_world = world_with (db_with (vm_row "vm1" running ∷ []))

abbrev stopped_world : World
stopped_world =
    world_with (record (db_with (vm_row "vm1" stopped ∷ [])) { snapshots = snapshot_row ∷ [] })

stops : result (stop "vm1") running_world ≡ ok tt
unfolding any constrained digit_char drop_past drop_tap external find get_vm gets graceful_secs
    ignore ip_to_slot kill_process log_event modify ok_or on_option parse_unsigned persist_overlay
    pure query release_slot release_tap require_vm select send set_agent set_vm_status
    set_vm_stopped show shut_down shutdown_within stop stop_inner take_until tap_name transact
    update update_vm update_vms update_where vm_not_found ◌>>=◌
stops = refl

stop-RowWith_example : RowWith "vm1" (λ v. v.status ≡ stopped) (after (stop "vm1") running_world).db
stop-RowWith_example = stop-RowWith "vm1" running_world stops

starts : result (start manager "vm1") stopped_world ≡ ok tt
unfolding add_file allocate_tap any apply_tc_shaping attempt boot_args constrained cpu_max
    cpu_weight digit_char div_ℤ drop_past drop_tap exists external fail find get_vm gets guest_ip
    host_ip ignore ip_to_slot kernel_boot_args launch launch_config log_event low_bits memory_max
    modify mul_ℤ ok_or on_result or_set_error parse_unsigned provision_overlay pure query quota
    remove_file remove_stale require_vm resize_overlay select send set_agent set_vm_running
    set_vm_status show show_ip show_ℤ slot_octets start start_inner take_until tap_name transact
    update update_vm update_vms update_where vcpu_count vm_not_found ◌+ℤ◌ ◌>>=◌
starts = refl

start-RowWith_example : RowWith "vm1" IsRunning (after (start manager "vm1") stopped_world).db
start-RowWith_example = start-RowWith manager "vm1" stopped_world starts

restores : result (restore_snapshot manager "vm1" "snap1") stopped_world ≡ ok tt
unfolding allocate_tap any apply_tc_shaping attempt constrained cpu_max cpu_weight digit_char div_ℤ
    drop_past drop_tap external fail find get_snapshot get_vm gets guest_ip host_ip ignore
    ip_to_slot launch launch_config log_event low_bits memory_max modify mul_ℤ ok_or on_option
    on_result or_set_error parse_unsigned pure query quota register_overlay remove_stale require_vm
    restore_inner restore_snapshot select send set_agent set_vm_running set_vm_status show show_ℤ
    slot_octets take_until tap_name transact update update_vm update_vms update_where vcpu_count
    vm_not_found ◌+ℤ◌ ◌>>=◌
restores = refl

restore_snapshot-RowWith_example :
    RowWith "vm1" IsRunning (after (restore_snapshot manager "vm1" "snap1") stopped_world).db
restore_snapshot-RowWith_example =
    restore_snapshot-RowWith manager "vm1" "snap1" stopped_world restores

deletes : result (delete manager "vm1") stopped_world ≡ ok tt
unfolding any attempt constrained delete delete_violation delete_vm deleted_vm exists external fail
    find get_vm gets insert_by list_snapshots modify ok_or on_option on_result pure query
    remove_file remove_overlay remove_snapshot_files require_vm select set_agent sort_by_key
    transact vm_not_found ◌>>=◌
deletes = refl

delete-IsGone_example : IsGone "vm1" (after (delete manager "vm1") stopped_world).db
delete-IsGone_example = delete-IsGone manager "vm1" stopped_world deletes

migrate_vm_refused_example :
    ¬ (result (migrate_vm (λ host. service manager) "vm1" "busy") running_world ≡ ok tt)
migrate_vm_refused_example = migrate_vm_refused manager "vm1" "busy" running_world

-- A VM that runs and has as many snapshots as it may have.
abbrev full_world : World
full_world = world_with (record (db_with (vm_row "vm1" running ∷ [])) {
  snapshots = snapshot_row ∷ record snapshot_row { id = "snap2" } ∷ [];
})

two_snapshots : AtMostTwo full_world.db.snapshots
two_snapshots vm_id = length-select-le _ full_world.db.snapshots

manager_keeps_limit_example :
    AtMostTwo (after (take_snapshot manager "vm1" none) full_world).db.snapshots
    × AtMostTwo (after (restore_snapshot manager "vm1" "snap1") full_world).db.snapshots
    × AtMostTwo (after (Snapshot.delete "snap1") full_world).db.snapshots
    × AtMostTwo (after (start manager "vm1") full_world).db.snapshots
    × AtMostTwo (after (stop "vm1") full_world).db.snapshots
    × AtMostTwo (after (delete manager "vm1") full_world).db.snapshots
manager_keeps_limit_example =
    manager_keeps_limit manager "vm1" "snap1" none full_world two_snapshots
