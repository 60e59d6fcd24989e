-- ===== src/ControlPlane/Registration.antt =====
-- crates/control-plane/src/registration.rs: the registration of a host and its heartbeats. The
-- cache of running sets is a list of pairs; a set is a list of ids compared as a set.
pub mod Statuses
use spwn.Base.{String, ◌==◌, Bool, true, false, ◌&&◌, none, List, [], ◌∷◌, any, if◌then◌else◌}
use spwn.Base.Int.{ℤ}
use spwn.Db.Rows.{VmRow, NewHost, VmStatus, running, stopped, error}
use spwn.Db.Vms.{get_vms_by_host, set_vm_status}
use spwn.Db.Hosts.{log_event, upsert_host, update_host_heartbeat, get_host}
use spwn.World.{Exec, Done, pure, ◌>>=◌, ◌>>◌, attempt, ignore, on_result}
use spwn.ControlPlane.CaddyRouter.{CaddyRouter, CaddyClient, client_for, host_if_known, request}
use spwn.ControlPlane.Events.{running_route, stopped_route}

-- Whether the registration was stored; the watcher of the host's events is started then.
unfoldable pub register : NewHost → Exec Bool
register host = do r ← attempt (upsert_host host); on_result r (λ _. pure true) (λ _. pure false)

abbrev pub IdSet : Type 0
IdSet = List String

abbrev pub contains : IdSet → String → Bool
contains ids id = any (λ i. i == id) ids

unfoldable pub subset : IdSet → IdSet → Bool
subset [] t = true
subset (i ∷ s) t = contains t i && subset s t

abbrev pub same_set : IdSet → IdSet → Bool
same_set s t = subset s t && subset t s

abbrev pub Cache : Type 0
Cache = List (String × IdSet)

-- entry(host_id).or_default()
unfoldable pub cached : String → Cache → IdSet
cached host_id [] = []
cached host_id ((h, ids) ∷ rest) = if h == host_id then ids else cached host_id rest

-- The one VM of the loop, by its status and by whether the heartbeat lists it.
unfoldable pub reconcile_as : String → CaddyClient → VmRow → VmStatus → Bool → Exec Done
reconcile_as base_domain client vm running false = do
  ignore (set_vm_status vm.id error)
  ignore (log_event vm.id "heartbeat_process_gone" none)
  ignore (request (stopped_route base_domain vm client))
reconcile_as base_domain client vm running true =
    ignore (request (running_route base_domain vm client))
reconcile_as base_domain client vm stopped true = do
  ignore (set_vm_status vm.id running)
  ignore (log_event vm.id "heartbeat_recovery" none)
  ignore (request (running_route base_domain vm client))
reconcile_as base_domain client vm error true = do
  ignore (set_vm_status vm.id running)
  ignore (log_event vm.id "heartbeat_recovery" none)
  ignore (request (running_route base_domain vm client))
reconcile_as base_domain client vm _ _ = pure tt

unfoldable pub reconcile_all : String → CaddyClient → IdSet → List VmRow → Exec Done
unfolding reconcile_as
reconcile_all base_domain client ids [] = pure tt
reconcile_all base_domain client ids (vm ∷ vms) = do
  reconcile_as base_domain client vm vm.status (contains ids vm.id)
  reconcile_all base_domain client ids vms

-- With the VMs that the database has on the host.
unfoldable pub reconcile_found : CaddyRouter → String → String → IdSet → List VmRow → Exec Done
unfolding reconcile_all
reconcile_found router base_domain host_id ids db_vms = do
  host ← attempt (get_host host_id)
  reconcile_all base_domain (client_for router (host_if_known host)) ids db_vms

unfoldable pub reconcile_from_heartbeat : CaddyRouter → String → String → IdSet → Exec Done
unfolding reconcile_found
reconcile_from_heartbeat router base_domain host_id ids = do
  r ← attempt (get_vms_by_host host_id)
  on_result r (reconcile_found router base_domain host_id ids) (λ _. pure tt)

-- The cache after the heartbeat.
unfoldable pub heartbeat : CaddyRouter → String → Cache → String → ℤ → ℤ → IdSet → Exec Cache
unfolding reconcile_from_heartbeat cached
heartbeat router base_domain cache host_id vcpu_used mem_used_mb new_set = do
  ignore (update_host_heartbeat host_id vcpu_used mem_used_mb)
  if same_set (cached host_id cache) new_set then pure cache else (do
    reconcile_from_heartbeat router base_domain host_id new_set
    pure ((host_id, new_set) ∷ cache))
