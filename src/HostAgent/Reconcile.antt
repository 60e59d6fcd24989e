-- ===== src/HostAgent/Reconcile.antt =====
-- crates/host-agent/src/reconcile.rs and health.rs: one round of the reconciliation of the database
-- with the host's processes, and one of the health checks.
use spwn.Base.{
  ℕ, String, Bool, false, ◌&&◌, ◌||◌, Option, none, some, List, [], ◌∷◌, any, select, map,
  if◌then◌else◌,
}
use spwn.Base.Int.{ℤ}
use spwn.Base.Text.{parse_u32, strip_prefix}
use spwn.Db.Rows.{VmRow, starting, stopping, stopped, running, error, ◌is◌}
use spwn.Db.Vms.{
  get_vms_by_host, get_vms_by_status, get_vms_without_host, set_vm_status, set_vm_pid, set_vm_host,
  update_disk_usage_mb, equals,
}
use spwn.Db.Hosts.{log_event}
use spwn.Networking.Tap.{release_tap}
use spwn.World.{
  Exec, Done, message, pure, VmEvent, ◌>>=◌, ◌>>◌, ignore, attempt, on_result, on_option, external,
  gets, set_agent,
}
use spwn.HostAgent.Manager.{VmManager, exists, send}

abbrev pub alive : VmManager → Option ℤ → Bool
alive m none = false
alive m (some pid) = m.pid_is_alive pid

unfoldable pub for_each : (VmRow → Exec Done) → List VmRow → Exec Done
for_each f [] = pure tt
for_each f (vm ∷ vms) = do f vm; for_each f vms

unfoldable pub measure : VmManager → VmRow → Exec Done
measure m vm =
    on_option vm.overlay_path
      (λ path. do
        present ← exists path
        if present
            then ignore (update_disk_usage_mb vm.id (m.measure_overlay_usage_mb path))
            else pure tt)
      (pure tt)

-- A VM that is starting or stopping is taken to be stuck.
unfoldable pub reset_stuck : VmManager → VmRow → Exec Done
reset_stuck m vm =
    if (vm.status is starting) || (vm.status is stopping)
    then (do
      ignore (set_vm_status vm.id (if alive m vm.pid then running else error))
      ignore (log_event vm.id "reconcile_stuck_reset" none))
    else pure tt

unfoldable pub check_pid : VmManager → VmRow → ℤ → Exec Done
check_pid m vm pid = if m.pid_is_alive pid then pure tt else (do
  ignore (set_vm_status vm.id error)
  ignore (log_event vm.id "reconcile_process_missing" none))

unfoldable pub check_running : VmManager → VmRow → Exec Done
unfolding check_pid
check_running m vm =
    if vm.status is running
    then on_option vm.pid (check_pid m vm) (
        on_option (m.read_pid_from_cgroup vm.id) (λ pid. ignore (set_vm_pid vm.id pid))
          (ignore (set_vm_status vm.id error)))
    else pure tt

abbrev pub alive_ids : VmManager → List VmRow → List String
alive_ids m vms =
    map (λ v. VmRow.id v) (select (λ v. (VmRow.status v is running) && alive m v.pid) vms)

unfoldable pub recover : VmManager → VmRow → Exec Done
recover m vm =
    if (vm.status is stopped) || (vm.status is error)
    then on_option (m.read_pid_from_cgroup vm.id)
        (λ pid.
          if m.pid_is_alive pid
          then (do
            ignore (set_vm_pid vm.id pid)
            send (VmEvent.started vm.id)
            ignore (log_event vm.id "reconcile_running_recovery" none))
          else pure tt)
        (pure tt)
    else pure tt

abbrev or_none : Option String → (String → Option ℕ) → Option ℕ
or_none none f = none
or_none (some s) f = f s

unfoldable pub slot_of_tap : String → Option ℕ
unfolding strip_prefix
slot_of_tap tap = or_none (strip_prefix "fc-tap-" tap) parse_u32

abbrev pub tracked : List VmRow → String → Bool
tracked vms tap = any (λ v. equals (VmRow.tap_device v) tap) vms

unfoldable pub remove_orphans : List VmRow → List String → Exec Done
unfolding slot_of_tap
remove_orphans vms [] = pure tt
remove_orphans vms (tap ∷ taps) = do
  if tracked vms tap
      then pure tt
      else on_option (slot_of_tap tap) (λ slot. ignore (release_tap slot)) (pure tt)
  remove_orphans vms taps

-- A VM that no host has and whose overlay is here.
unfoldable pub claim : VmManager → VmRow → Exec Done
claim m vm =
    on_option vm.overlay_path
      (λ path. do
        present ← exists path
        if present
            then (do
              ignore (set_vm_host vm.id m.host_id)
              ignore (log_event vm.id "reconcile_host_claimed" none))
            else pure tt)
      (pure tt)

-- The list of devices is read by an external command.
unfoldable pub list_tap_devices : Exec (List String)
list_tap_devices = do external (message "ip link show"); gets (λ w. w.agent.taps)

unfoldable pub reconcile_once : VmManager → Exec Done
unfolding for_each measure reset_stuck check_running recover remove_orphans claim
reconcile_once m = do
  db_vms ← get_vms_by_host m.host_id
  for_each (measure m) db_vms
  for_each (reset_stuck m) db_vms
  for_each (check_running m) db_vms
  set_agent (λ a. record a { monitored_vm_ids = alive_ids m db_vms })
  for_each (recover m) db_vms
  taps ← attempt list_tap_devices
  on_result taps (remove_orphans db_vms) (λ _. pure tt)
  unassigned ← get_vms_without_host
  for_each (claim m) unassigned

abbrev log_or_dead : Option String → String
log_or_dead none = "process_dead"
log_or_dead (some log) = log

-- health.rs: a VM of this host whose process is gone
unfoldable pub check_vm : VmManager → VmRow → Exec Done
check_vm m vm =
    if equals vm.host_id m.host_id
    then on_option vm.pid
        (λ pid. if m.pid_is_alive pid then pure tt else (do
          ignore (set_vm_status vm.id error)
          ignore (log_event vm.id "crashed" (some (log_or_dead (m.read_fc_log_tail vm.id))))
          send (VmEvent.crashed vm.id)))
        (pure tt)
    else pure tt

-- One round of the loop. Without an answer of the database nothing is done.
unfoldable pub run_health_checks : VmManager → Exec Done
unfolding for_each check_vm
run_health_checks m = do
  vms ← attempt (get_vms_by_status running)
  on_result vms (for_each (check_vm m)) (λ _. pure tt)
