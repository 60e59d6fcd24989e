-- ===== src/ControlPlane/Ops/Renaming.antt =====
-- crates/control-plane/src/ops.rs: update_vm and change_username, which give VMs new subdomains.
use Prim.Native.Char.{Char}
use spwn.Base.{ℕ, String, ◌==◌, Bool, Option, List, [], ◌∷◌, if◌then◌else◌}
use spwn.Base.Int.{ℤ}
use spwn.Base.Text.{◌&◌}
use spwn.Base.Text.Letters.{to_lowercase}
use spwn.Db.Rows.{VmRow, running, ◌is◌}
use spwn.Db.Vms.{get_vm, rename_vm, update_vm_port, set_vm_public}
use spwn.Db.Accounts.{get_account, update_username, RenamedSubdomain}
use spwn.World.{
  CaddyCall, Exec, Done, Failure, message, sqlx, unique_violation, conflict, validation, pure, fail,
  ok_or, ◌>>=◌, ◌>>◌, attempt, ignore, on_option, on_result,
}
use spwn.Auth.Username.{validate_username}
use spwn.ControlPlane.Subdomain.{generate}
use spwn.ControlPlane.CaddyRouter.{CaddyClient, caddy_for_vm, request, fqdn}
use spwn.ControlPlane.Events.{port_of}
use spwn.ControlPlane.Agents.{known_vm}
use spwn.ControlPlane.Ops.{ControlPlaneOps}

-- The route of a VM that runs, or the page of one that does not, under a name of its own.
abbrev route_as : String → VmRow → CaddyClient → CaddyCall
route_as name vm client =
    if vm.status is running
    then CaddyCall.set_vm_route client name vm.ip_address (port_of vm.exposed_port)
    else CaddyCall.set_stopped_route client name

-- The new name in, the old name out. Failures are logged.
unfoldable pub move_route : ControlPlaneOps → VmRow → String → String → Exec Done
move_route ops vm new_subdomain old_subdomain = do
  client ← caddy_for_vm ops.caddy vm
  ignore (request (route_as (fqdn new_subdomain ops.base_domain) vm client))
  ignore (request (CaddyCall.delete_route client (fqdn old_subdomain ops.base_domain)))

-- api::VmPatch
pub record VmPatch : Type 0 where
  pub name : Option String
  pub exposed_port : Option ℤ
  pub is_public : Option Bool

unfoldable pub patch_name : ControlPlaneOps → (ℕ → Char) → String → String → Exec Done
unfolding move_route
patch_name ops draw vm_id new_name = do
  new_subdomain ← generate draw new_name
  current ← known_vm vm_id
  rename_vm vm_id new_name new_subdomain
  move_route ops current new_subdomain current.subdomain

unfoldable pub patch_port : ControlPlaneOps → String → ℤ → Exec Done
patch_port ops vm_id port = do
  current ← known_vm vm_id
  update_vm_port vm_id port
  if current.status is running
      then (do
        client ← caddy_for_vm ops.caddy current
        ignore (
            request (
              CaddyCall.set_vm_route client (fqdn current.subdomain ops.base_domain)
                current.ip_address (port_of port))))
      else pure tt

-- `if let Some(a) = …`
abbrev pub if_given : {A : Type 0} → Option A → (A → Exec Done) → Exec Done
if_given o f = on_option o f (pure tt)

unfoldable pub update_vm : ControlPlaneOps → (ℕ → Char) → String → VmPatch → Exec VmRow
unfolding patch_name patch_port
update_vm ops draw vm_id patch = do
  if_given patch.name (patch_name ops draw vm_id)
  if_given patch.exposed_port (patch_port ops vm_id)
  if_given patch.is_public (set_vm_public vm_id)
  found ← get_vm vm_id
  ok_or found (message "vm not found after update")

-- A VM that cannot be read keeps its old routes.
unfoldable pub resync : ControlPlaneOps → List RenamedSubdomain → Exec Done
unfolding move_route
resync ops [] = pure tt
resync ops (entry ∷ renamed) = do
  r ← attempt (get_vm entry.vm_id)
  on_result r
      (λ found. if_given found (λ vm. move_route ops vm entry.new_subdomain entry.old_subdomain))
      (λ e. pure tt)
  resync ops renamed

unfoldable pub name_taken : Failure → Failure
name_taken (sqlx unique_violation) = conflict "username already taken"
name_taken e = e

unfoldable pub change_username : ControlPlaneOps → String → String → Exec Done
unfolding resync name_taken
change_username ops account_id new_username =
    on_option (validate_username (to_lowercase new_username))
      (λ msg. fail (validation ("invalid username: " & msg)))
      (do
        found ← get_account account_id
        account ← ok_or found (message "account not found")
        if account.username == to_lowercase new_username then pure tt else (do
          r ← attempt (
              update_username account_id (record {
                old_username = account.username;
                new_username = to_lowercase new_username;
              }))
          on_result r (resync ops) (λ e. fail (name_taken e))))
