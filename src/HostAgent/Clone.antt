-- ===== src/HostAgent/Clone.antt =====
-- crates/host-agent/src/manager/clone.rs: cloning a VM, and receiving one from another host.
use spwn.Base.Text.{◌&◌}
use spwn.Base.{◌+◌, String, Bool, true, false, not, ◌&&◌, ◌||◌, Option, none, some}
use spwn.Base.Int.{ℤ, pos}
use spwn.Db.Rows.{VmRow, SnapshotRow, starting, stopping, snapshotting, running, ◌is◌}
use spwn.Db.Vms.{create_vm, update_disk_usage_mb}
use spwn.Db.Hosts.{create_snapshot}
use spwn.World.{
  refuse_if, Exec, Done, message, pure, ok_or, ◌>>=◌, ◌>>◌, ignore, on_option, external, new_v4,
}
use spwn.HostAgent.Util.{join}
use spwn.HostAgent.Manager.{VmManager, exists, add_file}
use spwn.HostAgent.Lifecycle.{require_vm}
use spwn.HostAgent.Snapshot.{take_snapshot, restore_snapshot}

abbrev in_transition : VmRow → Bool
in_transition v = (v.status is starting) || ((v.status is stopping) || (v.status is snapshotting))

-- fs::copy, cp --sparse=always and download_file: the destination exists afterwards.
unfoldable pub copy_to : String → String → Exec Done
copy_to what dst = do external (message what); add_file dst

unfoldable pub snapshot_source : VmManager → Bool → String → String → Exec (Option SnapshotRow)
snapshot_source m true source_vm_id new_vm_id = do
  snap ← take_snapshot m source_vm_id (some ("clone-source-" & new_vm_id))
  pure (some snap)
snapshot_source m false source_vm_id new_vm_id = pure none

-- The copy of the source's memory, from which the new VM is started.
unfoldable pub restore_copy : VmManager → String → SnapshotRow → Exec Done
unfolding copy_to
restore_copy m new_vm_id snap = do
  new_snap_id ← new_v4
  copy_to "copy snapshot file" (join m.snapshot_dir (new_snap_id & ".snap"))
  copy_to "copy mem file" (join m.snapshot_dir (new_snap_id & ".mem"))
  create_snapshot (record {
    id = new_snap_id;
    vm_id = new_vm_id;
    label = some "cloned";
    snapshot_path = join m.snapshot_dir (new_snap_id & ".snap");
    mem_path = join m.snapshot_dir (new_snap_id & ".mem");
    size_bytes = pos (
        m.file_size (join m.snapshot_dir (new_snap_id & ".snap"))
        + m.file_size (join m.snapshot_dir (new_snap_id & ".mem")));
  })
  restore_snapshot m new_vm_id new_snap_id

unfoldable pub clone_vm :
    VmManager → String → String → String → String → String → String → ℤ → Bool → Exec Done
unfolding snapshot_source restore_copy copy_to
clone_vm m source_vm_id new_vm_id account_id name subdomain ip_address exposed_port include_memory =
    do
      source ← require_vm source_vm_id
      refuse_if (in_transition source) (message "source vm is in transitional state")
      refuse_if (include_memory && not (source.status is running))
          (message "include_memory requires source vm to be running")
      source_snap ← snapshot_source m include_memory source_vm_id new_vm_id
      source_overlay ← ok_or source.overlay_path (message "source vm has no overlay")
      copy_to "copy overlay" (join m.overlay_dir (new_vm_id & ".ext4"))
      create_vm (record {
        id = new_vm_id;
        account_id = account_id;
        name = name;
        subdomain = subdomain;
        vcpus = source.vcpus;
        memory_mb = source.memory_mb;
        disk_mb = source.disk_mb;
        bandwidth_mbps = source.bandwidth_mbps;
        kernel_path = m.kernel_path;
        rootfs_path = source.rootfs_path;
        overlay_path = join m.overlay_dir (new_vm_id & ".ext4");
        real_init = source.real_init;
        ip_address = ip_address;
        exposed_port = exposed_port;
        base_image = source.base_image;
        cloned_from = some source_vm_id;
        placement_strategy = source.placement_strategy;
        required_labels = source.required_labels;
        region = none;
      })
      ignore (
          update_disk_usage_mb new_vm_id
            (m.measure_overlay_usage_mb (join m.overlay_dir (new_vm_id & ".ext4"))))
      on_option source_snap (restore_copy m new_vm_id) (pure tt)

-- The receiving side of a migration, for the VM as the request describes it.
unfoldable pub receive_vm : VmManager → VmRow → Exec Done
unfolding copy_to
receive_vm m vm = do
  image_exists ← exists (join m.images_dir (vm.base_image & ".sqfs"))
  refuse_if (not image_exists) (message "image not found on target host")
  copy_to "download overlay from source agent" (join m.overlay_dir (vm.id & ".ext4"))
  create_vm (record {
    id = vm.id;
    account_id = vm.account_id;
    name = vm.name;
    subdomain = vm.subdomain;
    vcpus = vm.vcpus;
    memory_mb = vm.memory_mb;
    disk_mb = vm.disk_mb;
    bandwidth_mbps = vm.bandwidth_mbps;
    kernel_path = m.kernel_path;
    rootfs_path = join m.images_dir (vm.base_image & ".sqfs");
    overlay_path = join m.overlay_dir (vm.id & ".ext4");
    real_init = m.read_image_init vm.base_image;
    ip_address = vm.ip_address;
    exposed_port = vm.exposed_port;
    base_image = vm.base_image;
    cloned_from = none;
    placement_strategy = "best_fit";
    required_labels = none;
    region = none;
  })
  ignore (
      update_disk_usage_mb vm.id
        (m.measure_overlay_usage_mb (join m.overlay_dir (vm.id & ".ext4"))))
