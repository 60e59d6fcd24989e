-- ===== src/HostAgent/Teardown.antt =====
-- crates/host-agent/src/manager/mod.rs: stop, shutdown, delete and resize.
use spwn.Base.Text.{◌&◌}
use spwn.Base.{ℕ, String, Bool, true, false, not, Option, none, List, [], ◌∷◌, if◌then◌else◌}
use spwn.Base.Int.{ℤ, pos, ltb_ℤ, low_bits, i32_span}
use spwn.Db.Rows.{VmRow, SnapshotRow, stopped, running, stopping, ◌is◌}
use spwn.Db.Vms.{set_vm_status, set_vm_stopped, delete_vm}
use spwn.Db.Hosts.{log_event, list_snapshots}
use spwn.Networking.Tap.{tap_name, apply_tc_shaping, release_tap}
use spwn.HostAgent.Util.{graceful_secs, ip_to_slot}
use spwn.World.{
  refuse_if, on_option, set_agent, message, VmEvent, Exec, Done, pure, ok_or, ◌>>=◌, ◌>>◌, ignore,
  gets, external,
}
use spwn.HostAgent.Manager.{VmManager, in_list, without, send, exists, remove_file}
use spwn.HostAgent.Lifecycle.{require_vm}

-- fc_vm.shutdown: Ctrl-Alt-Del within the given seconds, then a kill
unfoldable pub shutdown_within : ℤ → Exec Done
shutdown_within secs = external (message "shutdown")

-- kill_pid
unfoldable pub kill_process : Option ℤ → Exec Done
kill_process pid = on_option pid (λ _. ignore (external (message "kill"))) (pure tt)

-- util.rs: persist_overlay_from_jail, whose failure is only logged
unfoldable pub persist_overlay : Option String → Exec Done
persist_overlay overlay_path =
    on_option overlay_path (λ _. ignore (external (message "persist overlay"))) (pure tt)

-- A VM that this process has started is shut down; any other is killed by its pid.
unfoldable pub shut_down : Bool → String → VmRow → Exec Done
unfolding shutdown_within persist_overlay kill_process
shut_down true vm_id vm = do
  set_agent (λ a. record a { running = without vm_id a.running })
  if ltb_ℤ vm.vcpus (pos 1000) then ignore (external (message "write cpu.max")) else pure tt
  ignore (shutdown_within (graceful_secs vm.vcpus))
  persist_overlay vm.overlay_path
  ignore (external (message "cleanup"))
shut_down false vm_id vm = kill_process vm.pid

unfoldable pub release_slot : Option ℕ → Exec Done
release_slot slot = on_option slot (λ s. ignore (release_tap s)) (pure tt)

unfoldable pub stop_inner : String → VmRow → Exec Done
unfolding shut_down release_slot
stop_inner vm_id vm = do
  ignore (set_vm_status vm_id stopping)
  is_running ← gets (λ w. in_list vm_id w.agent.running)
  shut_down is_running vm_id vm
  set_agent (λ a. record a { monitored_vm_ids = without vm_id a.monitored_vm_ids })
  release_slot (ip_to_slot vm.ip_address)
  set_vm_stopped vm_id
  log_event vm_id "stopped" none
  send (VmEvent.stopped vm_id)

unfoldable pub stop : String → Exec Done
unfolding stop_inner
stop vm_id = do vm ← require_vm vm_id; if vm.status is stopped then pure tt else stop_inner vm_id vm

-- Each VM that runs is stopped, in some order; a failure is only logged.
unfoldable pub stop_all : List String → Exec Done
unfolding stop
stop_all [] = pure tt
stop_all (vm_id ∷ vm_ids) = do ignore (stop vm_id); stop_all vm_ids

unfoldable pub shutdown : Exec Done
unfolding stop_all
shutdown = do vm_ids ← gets (λ w. w.agent.running); stop_all vm_ids

unfoldable pub remove_snapshot_files : List SnapshotRow → Exec Done
remove_snapshot_files [] = pure tt
remove_snapshot_files (snap ∷ snaps) = do
  remove_file snap.snapshot_path
  remove_file snap.mem_path
  remove_snapshot_files snaps

unfoldable pub remove_overlay : Option String → Exec Done
remove_overlay overlay_path = on_option overlay_path remove_file (pure tt)

unfoldable pub delete : VmManager → String → Exec Done
unfolding remove_snapshot_files remove_overlay
delete m vm_id = do
  vm ← require_vm vm_id
  refuse_if (not (vm.status is stopped)) (message "vm must be stopped before deletion")
  snaps ← list_snapshots vm_id
  remove_snapshot_files snaps
  delete_vm vm_id
  set_agent (λ a. record a { monitored_vm_ids = without vm_id a.monitored_vm_ids })
  remove_overlay vm.overlay_path
  jail_exists ← exists (m.jail_root_path vm_id)
  if jail_exists then remove_file (m.jail_root_path vm_id) else pure tt

unfoldable pub resize_cpu : String → ℤ → Exec Done
resize_cpu vm_id vcpus = external (message ("write cpu.weight of " & vm_id))

unfoldable pub resize_bandwidth : String → ℤ → Exec Done
resize_bandwidth vm_id bandwidth_mbps = do
  vm ← require_vm vm_id
  refuse_if (not (vm.status is running)) (message ("not running: " & vm_id))
  slot ← ok_or (ip_to_slot vm.ip_address) (message ("invalid guest IP: " & vm.ip_address))
  apply_tc_shaping (tap_name slot) (low_bits i32_span bandwidth_mbps)
