-- ===== src/ControlPlane/Migration.antt =====
-- crates/control-plane/src/migration.rs: moving a VM to another host, and draining hosts.
pub mod Refusal
use spwn.Base.{
  ℕ, String, ◌==◌, Bool, true, false, not, Option, none, some, List, [], ◌∷◌, select, if◌then◌else◌,
}
use spwn.Base.Int.{ℤ, pos}
use spwn.Db.Json.{Json, obj, field, end, str}
use spwn.Db.Rows.{
  VmRow, HostRow, HostStatus, draining, offline, stopped, running, ◌is◌, completed, failed,
}
use spwn.Db.Vms.{set_vm_host, set_vm_region, get_vms_by_host}
use spwn.Db.Hosts.{create_vm_migration, update_migration_status, list_hosts, set_host_status}
use spwn.World.{
  refuse_if, World, Exec, Done, Failure, message, Result, ok, err, pure, fail, ok_or, ◌>>=◌, ◌>>◌,
  attempt, ignore, on_result, on_option, new_v4, gets,
}
use spwn.ControlPlane.CaddyRouter.{region_of}
use spwn.ControlPlane.Scheduler.{pick_host}
use spwn.ControlPlane.Agents.{Agents, AgentService, known_vm, known_host, connect}

-- `if !resp.ok`: the migration is marked and its error returned.
unfoldable pub or_mark_failed : {A : Type 0} → String → String → Result A → Exec A
or_mark_failed migration_id what resp =
    on_result resp pure
      (λ e. do ignore (update_migration_status migration_id failed none); fail (message what))

unfoldable pub stop_if_running : AgentService → VmRow → String → String → Exec Done
unfolding or_mark_failed
stop_if_running agent vm vm_id migration_id =
    if vm.status is running
    then (do resp ← agent.stop_vm vm_id; or_mark_failed migration_id "stop_vm failed" resp)
    else pure tt

unfoldable pub adopt_region : String → HostRow → Exec Done
adopt_region vm_id host =
    on_option (region_of host) (λ region. ignore (set_vm_region vm_id region)) (pure tt)

unfoldable pub migrate_vm : Agents → String → String → Exec Done
unfolding stop_if_running adopt_region or_mark_failed
migrate_vm agents vm_id target_host_id = do
  vm ← known_vm vm_id
  src_host_id ← ok_or vm.host_id (message "vm has no host")
  refuse_if (src_host_id == target_host_id) (message "source and target host are the same")
  src_host ← known_host src_host_id
  tgt_host ← known_host target_host_id
  migration_id ← new_v4
  create_vm_migration (record {
    id = migration_id;
    vm_id = vm_id;
    from_host = src_host_id;
    to_host = target_host_id;
  })
  src_agent ← connect agents src_host
  stop_if_running src_agent vm vm_id migration_id
  snap_resp ← src_agent.take_snapshot vm_id (some "migration")
  snap_id ← or_mark_failed migration_id "take_snapshot failed" snap_resp
  tgt_agent ← connect agents tgt_host
  resp ← tgt_agent.migrate_vm vm snap_id src_host.snapshot_addr
  or_mark_failed migration_id "migrate_vm on target failed" resp
  set_vm_host vm_id target_host_id
  adopt_region vm_id tgt_host
  now ← gets (λ w. w.now)
  update_migration_status migration_id completed (some now)

abbrev region_labels : String → Json
region_labels region = obj (field "region" (str region) end)

-- A host of the VM's region if one can be had, else any.
unfoldable pub drain_target : VmRow → Exec HostRow
drain_target vm =
    on_option vm.region
      (λ region. do
        r ← attempt (pick_host vm.vcpus vm.memory_mb "spread" (some (region_labels region)))
        on_result r pure (λ _. pick_host vm.vcpus vm.memory_mb "spread" none))
      (pick_host vm.vcpus vm.memory_mb "spread" none)

-- Every failure is logged only.
unfoldable pub move_off : Agents → String → VmRow → Exec Done
unfolding drain_target migrate_vm
move_off agents host_id vm = do
  r ← attempt (drain_target vm)
  on_result r
      (λ target.
        if target.id == host_id then pure tt else ignore (migrate_vm agents vm.id target.id))
      (λ _. pure tt)

unfoldable pub move_all : Agents → String → List VmRow → Exec Done
unfolding move_off
move_all agents host_id [] = pure tt
move_all agents host_id (vm ∷ vms) = do move_off agents host_id vm; move_all agents host_id vms

-- A host without a VM that is not stopped goes offline.
unfoldable pub drain_host : Agents → String → List VmRow → Exec Done
unfolding move_all
drain_host agents host_id [] = set_host_status host_id offline
drain_host agents host_id (vm ∷ vms) = move_all agents host_id (vm ∷ vms)

unfoldable pub drain_each : Agents → List HostRow → Exec Done
unfolding drain_host
drain_each agents [] = pure tt
drain_each agents (host ∷ hosts) = do
  vms ← get_vms_by_host host.id
  drain_host agents host.id (select (λ v. not (VmRow.status v is stopped)) vms)
  drain_each agents hosts

abbrev is_draining : HostRow → Bool
is_draining h = elim h.status [ draining ↦ true | _ ↦ false ]

unfoldable pub drain_tick : Agents → Exec Done
unfolding drain_each
drain_tick agents = do all_hosts ← list_hosts; drain_each agents (select is_draining all_hosts)
