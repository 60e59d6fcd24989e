-- ===== src/Db/Vms.antt =====
-- crates/db/src/lib.rs: the statements on `vms`, with the constraints of crates/db/migrations. A
-- statement that finds no row to change succeeds, as an UPDATE or DELETE does.
use spwn.Base.{
  String, ◌==◌, Bool, true, false, not, ◌&&◌, ◌||◌, Option, none, some, List, [], ◌∷◌, ◌++◌, map,
  select, find, any, update_where, if◌then◌else◌,
}
use spwn.Base.Int.{ℤ, pos, negate_ℤ}
use spwn.Base.Sort.{sort_by_key}
use spwn.Db.Rows.{
  Db, VmStatus, stopped, running, ◌is◌, VmRow, NewVm, HostRow, AccountRow, SnapshotRow, VmEventRow,
  VmMigrationRow, VmAuthToken,
}
use spwn.World.{
  DbError, unique_violation, foreign_key_violation, Exec, Done, ◌>>=◌, gets, query, update,
  constrained,
}

abbrev pub has_id : String → VmRow → Bool
has_id id v = v.id == id

abbrev pub equals : Option String → String → Bool
equals none s = false
equals (some t) s = t == s

abbrev pub has_host : String → VmRow → Bool
has_host host_id v = equals v.host_id host_id

abbrev pub is_none : {A : Type 0} → Option A → Bool
is_none none = true
is_none (some a) = false

-- vms.cloned_from REFERENCES vms(id)
abbrev pub dangling_clone : List VmRow → Option String → Bool
dangling_clone vms none = false
dangling_clone vms (some source) = is_none (find (has_id source) vms)

unfoldable pub insert_violation : NewVm → Db → Option DbError
insert_violation vm d =
    if any (λ v. v.id == vm.id || v.subdomain == vm.subdomain) d.vms
    then some unique_violation
    else if is_none (find (λ a. AccountRow.id a == vm.account_id) d.accounts)
        || dangling_clone d.vms vm.cloned_from
    then some foreign_key_violation
    else none

unfoldable pub inserted_vm : NewVm → ℤ → VmRow
inserted_vm vm now = record {
  id = vm.id;
  account_id = vm.account_id;
  name = vm.name;
  status = stopped;
  subdomain = vm.subdomain;
  vcpus = vm.vcpus;
  memory_mb = vm.memory_mb;
  disk_mb = vm.disk_mb;
  bandwidth_mbps = vm.bandwidth_mbps;
  kernel_path = vm.kernel_path;
  rootfs_path = vm.rootfs_path;
  overlay_path = some vm.overlay_path;
  real_init = vm.real_init;
  ip_address = vm.ip_address;
  exposed_port = vm.exposed_port;
  tap_device = none;
  pid = none;
  socket_path = none;
  host_id = none;
  base_image = vm.base_image;
  cloned_from = vm.cloned_from;
  disk_usage_mb = pos 0;
  created_at = now;
  last_started_at = none;
  placement_strategy = vm.placement_strategy;
  required_labels = vm.required_labels;
  region = vm.region;
  is_public = false;
  share_token = none;
}

unfoldable pub create_vm : NewVm → Exec Done
unfolding insert_violation inserted_vm
create_vm vm = do
  now ← gets (λ w. w.now)
  constrained (insert_violation vm) (λ d. record d { vms = d.vms ++ inserted_vm vm now ∷ [] })

-- Every SELECT of a VM reads all columns, and `row_to_vm` copies them.
unfoldable pub get_vm : String → Exec (Option VmRow)
get_vm id = query (λ d. find (has_id id) d.vms)

unfoldable pub get_vm_by_subdomain : String → Exec (Option VmRow)
get_vm_by_subdomain subdomain = query (λ d. find (λ v. VmRow.subdomain v == subdomain) d.vms)

unfoldable pub get_vm_by_name : String → String → Exec (Option VmRow)
get_vm_by_name account_id name =
    query (λ d. find (λ v. (VmRow.account_id v == account_id) && (v.name == name)) d.vms)

-- ORDER BY created_at DESC
unfoldable pub list_vms : String → Exec (List VmRow)
list_vms account_id = query (λ d.
    sort_by_key (λ v. negate_ℤ v.created_at) (select (λ v. VmRow.account_id v == account_id) d.vms))

unfoldable pub get_vms_by_status : VmStatus → Exec (List VmRow)
get_vms_by_status status = query (λ d. select (λ v. v.status is status) d.vms)

unfoldable pub get_vms_by_host : String → Exec (List VmRow)
get_vms_by_host host_id = query (λ d. select (has_host host_id) d.vms)

unfoldable pub get_vms_without_host : Exec (List VmRow)
get_vms_without_host = query (λ d. select (λ v. is_none (VmRow.host_id v)) d.vms)

unfoldable pub get_used_ips_for_host : String → Exec (List String)
get_used_ips_for_host host_id =
    query (λ d. map (λ v. VmRow.ip_address v) (select (has_host host_id) d.vms))

-- UPDATE vms SET … WHERE id = $n
unfoldable pub update_vms : String → (VmRow → VmRow) → Db → Db
update_vms id f d = record d { vms = update_where (has_id id) f d.vms }

unfoldable pub update_vm : String → (VmRow → VmRow) → Exec Done
unfolding update_vms
update_vm id f = update (update_vms id f)

-- vms.host_id REFERENCES hosts(id)
unfoldable pub set_vm_host : String → String → Exec Done
unfolding update_vms
set_vm_host vm_id host_id =
    constrained
      (λ d.
        if is_none (find (λ h. HostRow.id h == host_id) d.hosts) && any (has_id vm_id) d.vms
        then some foreign_key_violation
        else none)
      (update_vms vm_id (λ v. record v { host_id = some host_id }))

unfoldable pub set_vm_status : String → VmStatus → Exec Done
unfolding update_vm
set_vm_status id status = update_vm id (λ v. record v { status = status })

unfoldable pub set_vm_running : String → ℤ → String → String → Exec Done
unfolding update_vm
set_vm_running id pid tap_device socket_path = do
  now ← gets (λ w. w.now)
  update_vm id (λ v. record v {
    status = running;
    pid = some pid;
    tap_device = some tap_device;
    socket_path = some socket_path;
    last_started_at = some now;
  })

unfoldable pub set_vm_pid : String → ℤ → Exec Done
unfolding update_vm
set_vm_pid id pid = update_vm id (λ v. record v { pid = some pid })

unfoldable pub set_vm_stopped : String → Exec Done
unfolding update_vm
set_vm_stopped id =
    update_vm id
      (λ v. record v { status = stopped; pid = none; tap_device = none; socket_path = none })

-- Rows that refer to a VM without ON DELETE CASCADE keep it from being deleted.
unfoldable pub delete_violation : String → Db → Option DbError
delete_violation id d =
    if any (has_id id) d.vms
      && (any (λ v. equals (VmRow.cloned_from v) id) d.vms
          || (any (λ m. VmMigrationRow.vm_id m == id) d.vm_migrations
              || any (λ t. VmAuthToken.vm_id t == id) d.vm_auth_tokens))
    then some foreign_key_violation
    else none

-- `snapshots` and `vm_events` follow by ON DELETE CASCADE.
unfoldable pub deleted_vm : String → Db → Db
deleted_vm id d = record d {
  vms = select (λ v. not (has_id id v)) d.vms;
  snapshots = select (λ s. not (SnapshotRow.vm_id s == id)) d.snapshots;
  vm_events = select (λ e. not (VmEventRow.vm_id e == id)) d.vm_events;
}

unfoldable pub delete_vm : String → Exec Done
unfolding delete_violation deleted_vm
delete_vm id = constrained (delete_violation id) (deleted_vm id)

unfoldable pub set_vm_region : String → String → Exec Done
unfolding update_vm
set_vm_region vm_id region = update_vm vm_id (λ v. record v { region = some region })

unfoldable pub set_vm_public : String → Bool → Exec Done
unfolding update_vm
set_vm_public vm_id is_public = update_vm vm_id (λ v. record v { is_public = is_public })

unfoldable pub set_vm_share_token : String → Option String → Exec Done
unfolding update_vm
set_vm_share_token vm_id token = update_vm vm_id (λ v. record v { share_token = token })

unfoldable pub update_disk_usage_mb : String → ℤ → Exec Done
unfolding update_vm
update_disk_usage_mb vm_id usage = update_vm vm_id (λ v. record v { disk_usage_mb = usage })

-- vms.subdomain UNIQUE
unfoldable pub rename_vm : String → String → String → Exec Done
unfolding update_vms
rename_vm vm_id new_name new_subdomain =
    constrained
      (λ d.
        if any (has_id vm_id) d.vms
          && any (λ v. not (v.id == vm_id) && (v.subdomain == new_subdomain)) d.vms
        then some unique_violation
        else none)
      (update_vms vm_id (λ v. record v { name = new_name; subdomain = new_subdomain }))

unfoldable pub update_vm_port : String → ℤ → Exec Done
unfolding update_vm
update_vm_port vm_id exposed_port = update_vm vm_id (λ v. record v { exposed_port = exposed_port })

unfoldable pub update_vm_resources : String → ℤ → ℤ → ℤ → ℤ → Exec Done
unfolding update_vm
update_vm_resources vm_id vcpus memory_mb disk_mb bandwidth_mbps = update_vm vm_id (λ v. record v {
  vcpus = vcpus;
  memory_mb = memory_mb;
  disk_mb = disk_mb;
  bandwidth_mbps = bandwidth_mbps;
})
