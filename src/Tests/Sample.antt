-- ===== src/Tests/Sample.antt =====
-- A small installation: two hosts, two accounts and a stopped VM.
use spwn.Base.{String, true, false, none, some, List, [], ◌∷◌}
use spwn.Base.Text.{◌&◌, show}
use spwn.Base.Int.{ℤ, pos}
use spwn.Db.Json.{obj, end, field, str}
use spwn.Db.Rows.{Db, VmRow, HostRow, AccountRow, active, password, VmStatus}
use spwn.World.{World}
use spwn.HostAgent.Manager.{VmManager}

abbrev pub host_row : String → ℤ → HostRow
host_row id mem_used = record {
  id = id;
  name = id;
  address = "http://host:4000";
  vcpu_total = pos 8000;
  mem_total_mb = pos 8192;
  images_dir = "/images";
  overlay_dir = "/overlay";
  snapshot_dir = "/snapshots";
  kernel_path = "/vmlinux";
  last_seen_at = pos 990;
  status = active;
  vcpu_used = pos 0;
  mem_used_mb = mem_used;
  labels = obj (field "region" (str "eu") end);
  snapshot_addr = "http://host:8080";
}

abbrev pub busy_host : HostRow
busy_host = host_row "busy" (pos 4096)

abbrev pub idle_host : HostRow
idle_host = host_row "idle" (pos 0)

abbrev pub vm_row : String → VmStatus → VmRow
vm_row id status = record {
  id = id;
  account_id = "alice";
  name = "web";
  status = status;
  subdomain = "web-alice";
  vcpus = pos 1000;
  memory_mb = pos 512;
  disk_mb = pos 1024;
  bandwidth_mbps = pos 100;
  kernel_path = "/vmlinux";
  rootfs_path = "/images/ubuntu.sqfs";
  overlay_path = some "/overlay/vm.ext4";
  real_init = "/sbin/init";
  ip_address = "172.16.1.2";
  exposed_port = pos 8080;
  tap_device = none;
  pid = none;
  socket_path = none;
  host_id = some "idle";
  base_image = "ubuntu";
  cloned_from = none;
  disk_usage_mb = pos 0;
  created_at = pos 100;
  last_started_at = none;
  placement_strategy = "best_fit";
  required_labels = none;
  region = none;
  is_public = false;
  share_token = none;
}

abbrev pub account_row : String → AccountRow
account_row id = record {
  id = id;
  email = "alice@example.org";
  password_hash = none;
  username = "alice";
  display_name = none;
  avatar_bytes = none;
  theme = "light";
  vcpu_limit = pos 2000;
  mem_limit_mb = pos 1024;
  vm_limit = pos 2;
  created_at = pos 10;
  role = "user";
  auth_mode = password;
}

abbrev pub db_with : List VmRow → Db
db_with vms = record {
  vms = vms;
  hosts = busy_host ∷ idle_host ∷ [];
  vm_migrations = [];
  snapshots = [];
  accounts = account_row "alice" ∷ [];
  sessions = [];
  vm_auth_tokens = [];
  cli_auth_codes = [];
  api_tokens = [];
  vm_events = [];
  images = [];
  ssh_keys = [];
  audit_log = [];
  passkeys = [];
  passkey_challenges = [];
  pending_auth_tokens = [];
}

abbrev pub world_with : Db → World
world_with db = record {
  db = db;
  faults = [];
  outcomes = [];
  caddy = [];
  broadcast = [];
  agent = record {
    running = [];
    monitored_vm_ids = [];
    events = [];
    taps = [];
    files = [];
    launched = [];
  };
  now = pos 1000;
  ids = show;
  next_id = 0;
}

-- The files of the host, as far as the manager asks for them.
abbrev pub manager : VmManager
manager = record {
  kernel_path = "/vmlinux";
  images_dir = "/images";
  overlay_dir = "/overlay";
  snapshot_dir = "/snapshots";
  host_id = "idle";
  jail_root_path = λ vm_id. "/srv/jailer/firecracker/" & vm_id & "/root";
  read_image_init = λ image. "/sbin/init";
  valid_jail_id = λ vm_id. true;
  read_jailer_pid = λ vm_id. some (pos 4242);
  measure_overlay_usage_mb = λ path. pos 7;
  file_size = λ path. 0;
  pid_is_alive = λ pid. true;
  read_pid_from_cgroup = λ vm_id. none;
  read_fc_log_tail = λ vm_id. none;
}
