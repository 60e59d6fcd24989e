-- ===== src/HostAgent/Service.antt =====
-- crates/host-agent/src/agent.rs: the calls of the control plane, served by the manager. A failure
-- of the manager is a reply that is not ok.
use spwn.Base.{String, ◌==◌, Option, none, some, if◌then◌else◌}
use spwn.Db.Rows.{SnapshotRow}
use spwn.World.{Result, ok, err, pure, ◌>>=◌, attempt}
use spwn.ControlPlane.Agents.{AgentService}
use spwn.HostAgent.Manager.{VmManager}
use spwn.HostAgent.Lifecycle.{create, start}
use spwn.HostAgent.Teardown
use spwn.HostAgent.Teardown.{stop, resize_cpu, resize_bandwidth}
use spwn.HostAgent.Snapshot
use spwn.HostAgent.Snapshot.{take_snapshot, restore_snapshot}
use spwn.HostAgent.Clone.{clone_vm, receive_vm}

-- An empty label stands for none.
abbrev pub label_of : Option String → Option String
label_of none = none
label_of (some label) = if label == "" then none else some label

abbrev pub snapshot_reply : Result SnapshotRow → Result String
snapshot_reply (ok snap) = ok (SnapshotRow.id snap)
snapshot_reply (err e) = err e

unfoldable pub service : VmManager → AgentService
service m = record {
  create_vm = λ r. attempt (
      create m r.vm_id r.account_id r.name r.subdomain r.image r.vcpus r.memory_mb r.disk_mb
        r.bandwidth_mbps r.exposed_port r.ip_address);
  clone_vm = λ r. attempt (
      clone_vm m r.source_vm_id r.new_vm_id r.account_id r.name r.subdomain r.ip_address
        r.exposed_port r.include_memory);
  start_vm = λ vm_id. attempt (start m vm_id);
  stop_vm = λ vm_id. attempt (stop vm_id);
  delete_vm = λ vm_id. attempt (Teardown.delete m vm_id);
  take_snapshot = λ vm_id label. do
    r ← attempt (take_snapshot m vm_id (label_of label))
    pure (snapshot_reply r);
  restore_snapshot = λ vm_id snap_id. attempt (restore_snapshot m vm_id snap_id);
  delete_snapshot = λ vm_id snap_id. attempt (Snapshot.delete snap_id);
  resize_cpu = λ vm_id vcpus. attempt (resize_cpu vm_id vcpus);
  resize_bandwidth = λ vm_id bandwidth_mbps. attempt (resize_bandwidth vm_id bandwidth_mbps);
  migrate_vm = λ vm snap_id url. attempt (receive_vm m vm);
}
