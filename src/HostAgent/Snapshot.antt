-- ===== src/HostAgent/Snapshot.antt =====
-- crates/host-agent/src/manager/snapshot.rs: taking, restoring and deleting snapshots.
pub mod Limit
pub mod Operations
use spwn.Base.Text.{◌&◌}
use spwn.Base.{
  ℕ, ◌+◌, String, ◌==◌, Bool, true, false, not, Option, none, some, List, [], ◌∷◌, ◌++◌, leb,
  if◌then◌else◌,
}
use spwn.Base.Int.{ℤ, pos, ltb_ℤ, low_bits, i32_span}
use spwn.Db.Rows.{VmRow, SnapshotRow, stopped, running, starting, error, ◌is◌}
use spwn.Db.Vms.{set_vm_status, set_vm_running}
use spwn.Db.Hosts.{log_event, count_snapshots, create_snapshot, get_snapshot, delete_snapshot}
use spwn.Networking.Tap.{apply_tc_shaping, allocate_tap}
use spwn.HostAgent.Util.{ip_to_slot, join}
use spwn.World.{
  refuse_if, on_option, set_agent, on_result, Failure, message, Result, ok, err, VmEvent, World,
  Agent, Exec, Done, pure, fail, ok_or, ◌>>=◌, ◌>>◌, attempt, ignore, gets, modify, external,
  new_v4,
}
use spwn.HostAgent.Manager.{
  VmManager, vm_not_found, in_list, without, send, exists, add_file, remove_file,
}
use spwn.HostAgent.Lifecycle.{require_vm, or_set_error, launch, launch_config, pid_or_zero}

abbrev pub max_snapshots : ℕ
max_snapshots = 2

-- Firecracker writes the two files of a snapshot.
unfoldable pub write_snapshot : String → String → Exec Done
write_snapshot snapshot_path mem_path = do
  external (message "create snapshot")
  add_file snapshot_path
  add_file mem_path

unfoldable pub pause_and_write : String → String → Exec Done
unfolding write_snapshot
pause_and_write snapshot_path mem_path = do
  external (message "pause VM")
  external (message "create snapshot resource")
  external (message "create mem resource")
  write_snapshot snapshot_path mem_path
  external (message "resume VM")

abbrev returned : Result Done → Exec Done
returned r = on_result r pure fail

-- A VM that this process has started is asked directly, any other by its socket.
unfoldable pub snapshot_vm : Bool → String → Option String → String → String → Exec Done
unfolding pause_and_write
snapshot_vm true vm_id socket_path snapshot_path mem_path = do
  set_agent (λ a. record a { running = without vm_id a.running })
  r ← attempt (pause_and_write snapshot_path mem_path)
  set_agent (λ a. record a { running = vm_id ∷ without vm_id a.running })
  returned r
snapshot_vm false vm_id socket_path snapshot_path mem_path = do
  socket ← ok_or socket_path (message ("no socket path: " & vm_id))
  r ← attempt (external (message "pause VM") >> write_snapshot snapshot_path mem_path)
  ignore (external (message "resume VM"))
  returned r

-- The row, the event in the log and the event to the watchers.
unfoldable pub record_snapshot : VmManager → String → String → Option String → Exec SnapshotRow
record_snapshot m vm_id snap_id label = do
  snap ← create_snapshot (record {
    id = snap_id;
    vm_id = vm_id;
    label = label;
    snapshot_path = join (m.jail_root_path vm_id) (snap_id & ".snap");
    mem_path = join (m.jail_root_path vm_id) (snap_id & ".mem");
    size_bytes = pos (
        m.file_size (join (m.jail_root_path vm_id) (snap_id & ".snap"))
        + m.file_size (join (m.jail_root_path vm_id) (snap_id & ".mem")));
  })
  log_event vm_id "snapshot" (some snap_id)
  send (VmEvent.snapshot_taken vm_id snap_id)
  pure snap

unfoldable pub take_counted : VmManager → String → Option String → Option String → Exec SnapshotRow
unfolding snapshot_vm record_snapshot
take_counted m vm_id socket_path label = do
  snap_id ← new_v4
  is_running ← gets (λ w. in_list vm_id w.agent.running)
  snapshot_vm is_running vm_id socket_path (join (m.jail_root_path vm_id) (snap_id & ".snap"))
      (join (m.jail_root_path vm_id) (snap_id & ".mem"))
  record_snapshot m vm_id snap_id label

abbrev pub limit_reached : Failure
limit_reached = message "snapshot limit reached (2 max) — delete one first"

unfoldable pub take_snapshot : VmManager → String → Option String → Exec SnapshotRow
unfolding take_counted
take_snapshot m vm_id label = do
  vm ← require_vm vm_id
  refuse_if (not (vm.status is running)) (message ("must be running to take a snapshot: " & vm_id))
  count ← count_snapshots vm_id
  if leb max_snapshots count then fail limit_reached else take_counted m vm_id vm.socket_path label

unfoldable pub register_overlay : Option String → Exec Done
register_overlay overlay_path =
    on_option overlay_path (λ _. external (message "register overlay resource")) (pure tt)

unfoldable pub restore_inner : VmManager → VmRow → SnapshotRow → Exec Done
unfolding register_overlay
restore_inner m vm snap = do
  slot ← ok_or (ip_to_slot vm.ip_address) (message ("invalid guest IP: " & vm.ip_address))
  tap ← allocate_tap slot
  apply_tc_shaping tap.name (low_bits i32_span vm.bandwidth_mbps)
  refuse_if (not (m.valid_jail_id vm.id)) (message ("invalid jail id for vm " & vm.id))
  external (message "register snapshot resource")
  external (message "register mem resource")
  external (message "register kernel resource")
  external (message "register rootfs resource")
  register_overlay vm.overlay_path
  launch (launch_config vm none tap.name)
  set_vm_running vm.id (pid_or_zero (m.read_jailer_pid vm.id)) tap.name
      (m.jail_root_path vm.id & "/fc.sock")
  log_event vm.id "restored" (some snap.id)
  set_agent (λ a. record a { running = vm.id ∷ without vm.id a.running })
  send (VmEvent.started vm.id)

unfoldable pub restore_snapshot : VmManager → String → String → Exec Done
unfolding restore_inner
restore_snapshot m vm_id snap_id = do
  vm ← require_vm vm_id
  refuse_if (not (vm.status is stopped)) (message ("must be stopped before restore: " & vm_id))
  found ← get_snapshot snap_id
  snap ← ok_or found (message ("snapshot not found: " & snap_id))
  set_vm_status vm_id starting
  or_set_error vm_id (restore_inner m vm snap)

unfoldable pub delete : String → Exec Done
delete snap_id = do
  found ← get_snapshot snap_id
  snap ← ok_or found (message ("snapshot not found: " & snap_id))
  remove_file snap.snapshot_path
  remove_file snap.mem_path
  delete_snapshot snap_id
  log_event snap.vm_id "snapshot_deleted" (some snap_id)
