-- ===== src/ControlPlane/Ops.antt =====
-- crates/control-plane/src/ops.rs: the operations on existing VMs.
pub mod Starting
pub mod Creation
pub mod Renaming
use spwn.Base.{String, not, Option, none, some}
use spwn.Base.Int.{ℤ, pos}
use spwn.Db.Tokens.{create_vm_auth_token}
use spwn.Db.Rows.{VmAuthToken, VmRow, SnapshotRow, stopped, ◌is◌}
use spwn.Db.Vms.{set_vm_status, set_vm_share_token}
use spwn.Db.Hosts.{get_snapshot}
use spwn.Db.Quota.{check_quota_and_reserve}
use spwn.World.{
  refuse_if, CaddyCall, Exec, Done, Failure, message, serialization_conflict, pure, fail, ok_or,
  ◌>>=◌, ◌>>◌, attempt, ignore, on_result, new_v4,
}
use spwn.ControlPlane.CaddyRouter.{CaddyRouter, caddy_for_vm, request, fqdn}
use spwn.ControlPlane.Agents.{Agents, known_vm, agent_client, accepted}

-- The part of ControlPlaneOps that the operations use.
pub record ControlPlaneOps : Type 0 where
  pub caddy : CaddyRouter
  pub base_domain : String
  pub agents : Agents

abbrev pub min_vcpus : ℤ
min_vcpus = pos 250

-- Once more after a serialization conflict, and no more.
unfoldable pub retry_once : Exec Done → Failure → Exec Done
retry_once m serialization_conflict = m
retry_once m e = fail e

unfoldable pub reserve_quota : VmRow → String → Exec Done
unfolding retry_once
reserve_quota vm id = do
  r ← attempt (check_quota_and_reserve vm.account_id id vm.vcpus vm.memory_mb)
  on_result r (λ _. pure tt)
      (retry_once (check_quota_and_reserve vm.account_id id vm.vcpus vm.memory_mb))

-- A failure that gives the reservation back.
unfoldable pub give_back : {A : Type 0} → String → Failure → Exec A
give_back id e = do ignore (set_vm_status id stopped); fail e

unfoldable pub start_vm : ControlPlaneOps → String → Exec Done
unfolding reserve_quota give_back
start_vm ops id = do
  vm ← known_vm id
  reserve_quota vm id
  client ← attempt (agent_client ops.agents id)
  agent ← on_result client pure (give_back id)
  resp ← agent.start_vm id
  on_result resp (λ _. pure tt) (λ e. give_back id (message "agent start_vm failed"))

unfoldable pub stop_vm : ControlPlaneOps → String → Exec Done
stop_vm ops id = do
  agent ← agent_client ops.agents id
  resp ← agent.stop_vm id
  accepted resp "agent stop_vm failed"

unfoldable pub delete_vm : ControlPlaneOps → String → Exec Done
delete_vm ops id = do
  vm ← known_vm id
  refuse_if (not (vm.status is stopped)) (message "vm must be stopped before deletion")
  agent ← agent_client ops.agents id
  resp ← agent.delete_vm id
  accepted resp "agent delete_vm failed"
  client ← caddy_for_vm ops.caddy vm
  ignore (request (CaddyCall.delete_route client (fqdn vm.subdomain ops.base_domain)))

unfoldable pub take_snapshot : ControlPlaneOps → String → Option String → Exec SnapshotRow
take_snapshot ops vm_id label = do
  agent ← agent_client ops.agents vm_id
  resp ← agent.take_snapshot vm_id label
  snap_id ← accepted resp "agent take_snapshot failed"
  snap ← get_snapshot snap_id
  ok_or snap (message "snapshot not found after creation")

unfoldable pub delete_snapshot : ControlPlaneOps → String → String → Exec Done
delete_snapshot ops vm_id snap_id = do
  agent ← agent_client ops.agents vm_id
  resp ← agent.delete_snapshot vm_id snap_id
  accepted resp "agent delete_snapshot failed"

unfoldable pub restore_snapshot : ControlPlaneOps → String → String → Exec Done
restore_snapshot ops vm_id snap_id = do
  agent ← agent_client ops.agents vm_id
  resp ← agent.restore_snapshot vm_id snap_id
  accepted resp "agent restore_snapshot failed"

unfoldable pub generate_share_token : String → Exec String
generate_share_token vm_id = do token ← new_v4; set_vm_share_token vm_id (some token); pure token

unfoldable pub revoke_share_token : String → Exec Done
revoke_share_token vm_id = set_vm_share_token vm_id none

unfoldable pub generate_vm_auth_token : String → String → Exec String
generate_vm_auth_token vm_id account_id = do
  token ← create_vm_auth_token account_id vm_id (pos 300)
  pure (VmAuthToken.id token)
