-- ===== src/HostAgent/Lifecycle.antt =====
-- crates/host-agent/src/manager/mod.rs: create, start, stop, delete and resize.
use spwn.Base.Text.{◌&◌}
use spwn.Base.{ℕ, String, ◌==◌, not, Option, none, some, [], ◌∷◌, ◌++◌, if◌then◌else◌}
use spwn.Base.Int.{ℤ, pos, low_bits, i32_span}
use spwn.Db.Rows.{VmRow, running, error, ◌is◌}
use spwn.Db.Vms.{
  create_vm, get_vm, set_vm_host, set_vm_status, set_vm_running, update_disk_usage_mb,
}
use spwn.Db.Hosts.{log_event}
use spwn.Networking.Ip.{kernel_boot_args}
use spwn.Networking.Tap.{apply_tc_shaping, allocate_tap}
use spwn.HostAgent.Util.{cpu_weight, cpu_max, memory_max, vcpu_count, ip_to_slot, join}
use spwn.World.{
  refuse_if, set_agent, on_result, message, VmEvent, Launch, Exec, Done, pure, fail, ok_or, ◌>>=◌,
  ◌>>◌, attempt, ignore, external,
}
use spwn.HostAgent.Manager.{
  VmManager, vm_not_found, without, send, exists, provision_overlay, resize_overlay,
}

-- A VM whose id is known, or the error that every handler answers with.
unfoldable pub require_vm : String → Exec VmRow
require_vm vm_id = do vm ← get_vm vm_id; ok_or vm (vm_not_found vm_id)

unfoldable pub create :
    VmManager → String → String → String → String → String → ℤ → ℤ → ℤ → ℤ → ℤ → String → Exec Done
create m vm_id account_id name subdomain image vcpus memory_mb disk_mb bandwidth_mbps exposed_port
      ip_address =
    do
      image_exists ← exists (join m.images_dir (image & ".sqfs"))
      refuse_if (not image_exists) (message ("image not found: " & image))
      provision_overlay (join m.overlay_dir (vm_id & ".ext4"))
      create_vm (record {
        id = vm_id;
        account_id = account_id;
        name = name;
        subdomain = subdomain;
        vcpus = vcpus;
        memory_mb = memory_mb;
        disk_mb = disk_mb;
        bandwidth_mbps = bandwidth_mbps;
        kernel_path = m.kernel_path;
        rootfs_path = join m.images_dir (image & ".sqfs");
        overlay_path = join m.overlay_dir (vm_id & ".ext4");
        real_init = m.read_image_init image;
        ip_address = ip_address;
        exposed_port = exposed_port;
        base_image = image;
        cloned_from = none;
        placement_strategy = "best_fit";
        required_labels = none;
        region = none;
      })
      set_vm_host vm_id m.host_id
      ignore (
          update_disk_usage_mb vm_id
            (m.measure_overlay_usage_mb (join m.overlay_dir (vm_id & ".ext4"))))

unfoldable pub boot_args : VmRow → ℕ → String
boot_args vm slot =
    "console=ttyS0 reboot=k panic=1 pci=off "
    & kernel_boot_args slot
    & " init=/sbin/overlay-init overlay_root=vdb hostname="
    & vm.name
    & (if vm.real_init == "/sbin/init" then "" else " real_init=" & vm.real_init)

-- The cgroup settings and the machine configuration, for a boot or a restore.
unfoldable pub launch_config : VmRow → Option String → String → Launch
launch_config vm args tap = record {
  vm_id = vm.id;
  boot_args = args;
  vcpu_count = vcpu_count vm.vcpus;
  mem_size_mib = vm.memory_mb;
  weight = cpu_weight vm.vcpus;
  cpu_quota = cpu_max vm.vcpus;
  memory_max = memory_max vm.memory_mb;
  host_dev_name = tap;
}

-- Vm::prepare and Vm::start
unfoldable pub launch : Launch → Exec Done
launch l = do
  external (message "prepare VM")
  external (message "start VM")
  set_agent (λ a. record a { launched = a.launched ++ l ∷ [] })

abbrev pub pid_or_zero : Option ℤ → ℤ
pid_or_zero none = pos 0
pid_or_zero (some pid) = pid

unfoldable pub start_inner : VmManager → VmRow → Exec Done
start_inner m vm = do
  overlay_path ← ok_or vm.overlay_path (message ("no overlay_path: " & vm.id))
  overlay_exists ← exists overlay_path
  if overlay_exists
      then resize_overlay m overlay_path vm.disk_mb
      else provision_overlay overlay_path
  slot ← ok_or (ip_to_slot vm.ip_address) (message ("invalid guest IP: " & vm.ip_address))
  tap ← allocate_tap slot
  apply_tc_shaping tap.name (low_bits i32_span vm.bandwidth_mbps)
  refuse_if (not (m.valid_jail_id vm.id)) (message ("invalid jail id for vm " & vm.id))
  external (message "register kernel resource")
  external (message "register rootfs resource")
  external (message "register overlay resource")
  launch (launch_config vm (some (boot_args vm slot)) tap.name)
  set_vm_running vm.id (pid_or_zero (m.read_jailer_pid vm.id)) tap.name
      (m.jail_root_path vm.id & "/fc.sock")
  log_event vm.id "started" none
  set_agent (λ a. record a {
    running = vm.id ∷ without vm.id a.running;
    monitored_vm_ids = vm.id ∷ without vm.id a.monitored_vm_ids;
  })
  send (VmEvent.started vm.id)

-- `if let Err(e) = … { set_vm_status(…, "error").ok(); return Err(e) }`
unfoldable pub or_set_error : String → Exec Done → Exec Done
or_set_error vm_id m = do
  done ← attempt m
  on_result done (λ _. pure tt) (λ e. do ignore (set_vm_status vm_id error); fail e)

unfoldable pub start : VmManager → String → Exec Done
start m vm_id = do
  vm ← require_vm vm_id
  refuse_if (vm.status is running) (message ("already running: " & vm_id))
  or_set_error vm_id (start_inner m vm)
