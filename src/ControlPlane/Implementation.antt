-- ===== src/ControlPlane/Implementation.antt =====
-- crates/control-plane/src/ops.rs: ControlPlaneOps is what the API's handlers run on.
use Prim.Native.Char.{Char}
use spwn.Base.{ℕ}
use spwn.Db.Vms.{get_vm, list_vms}
use spwn.Db.Hosts.{list_snapshots}
use spwn.ControlPlane.Ops.{
  ControlPlaneOps, start_vm, stop_vm, delete_vm, take_snapshot, delete_snapshot, restore_snapshot,
  generate_share_token, revoke_share_token, generate_vm_auth_token,
}
use spwn.ControlPlane.Ops.Creation.{create_vm, clone_vm}
use spwn.ControlPlane.Ops.Renaming.{update_vm, change_username}
use spwn.ControlPlane.Resize.{resize_resources}
use spwn.Api.Responses.{VmOps}

-- impl VmOps for ControlPlaneOps; `draw` is the random generator's letters for a new subdomain.
unfoldable pub vm_ops : ControlPlaneOps → (ℕ → Char) → VmOps
vm_ops ops draw = record {
  create_vm = create_vm ops draw;
  clone_vm = clone_vm ops draw;
  start_vm = start_vm ops;
  stop_vm = stop_vm ops;
  delete_vm = delete_vm ops;
  get_vm = get_vm;
  list_vms = list_vms;
  take_snapshot = take_snapshot ops;
  list_snapshots = list_snapshots;
  delete_snapshot = delete_snapshot ops;
  restore_snapshot = restore_snapshot ops;
  change_username = change_username ops;
  resize_resources = resize_resources ops;
  update_vm = update_vm ops draw;
  generate_share_token = generate_share_token;
  revoke_share_token = revoke_share_token;
  generate_vm_auth_token = generate_vm_auth_token;
}
