-- ===== src/Api/Handlers.antt =====
-- crates/api/src/lib.rs: the other handlers. What a handler spawns as a task of its own is done at
-- once here, and its failure does not change the response.
use spwn.Base.{String, ◌==◌, true, false, Option, none, some, List, [], ◌∷◌, select, if◌then◌else◌}
use spwn.Base.Int.{ℤ}
use spwn.Db.Json.{Json, obj, field, end, str}
use spwn.Db.Rows.{VmRow, ImageRow, building, ready, failed_build}
use spwn.Db.Vms.{get_vm_by_name, get_vm_by_subdomain}
use spwn.Db.Images.{list_images}
use spwn.Db.Audit.{write_audit, list_audit}
use spwn.World.{Exec, Done, Failure, pure, ◌>>=◌, ◌>>◌, attempt, ignore, on_result, on_option}
use spwn.Auth.Http.{Headers, Response, json, status, with_body}
use spwn.ControlPlane.Ops.Creation.{NewVmRequest, CopyRequest}
use spwn.Api.Responses.{
  VmOps, vm_json, snapshot_json, image_json, audit_json, listed, told, quota_told, username_told,
  real_ip,
}

-- `match ops.… { Ok(a) => …, Err(e) => … }`
module _ {A : Type 0} where
  abbrev pub respond : Exec A → (A → Response) → (Failure → Response) → Exec Response
  respond m f g = do r ← attempt m; on_result r (λ a. pure (f a)) (λ e. pure (g e))

unfoldable pub ready_images : List ImageRow → List ImageRow
ready_images =
    select
      (λ i. elim (ImageRow.status i) [ ready ↦ true | building ↦ false | failed_build ↦ false ])

unfoldable pub images : Exec Response
unfolding ready_images
images = respond list_images (λ all. listed image_json (ready_images all)) told

unfoldable pub username : VmOps → String → String → Exec Response
username ops account_id new_username =
    respond (ops.change_username account_id new_username) (λ done. status 204) username_told

own_or_none : String → Option VmRow → List VmRow
own_or_none account_id none = []
own_or_none account_id (some vm) = if VmRow.account_id vm == account_id then vm ∷ [] else []

abbrev one_or_none : Option VmRow → List VmRow
one_or_none none = []
one_or_none (some vm) = vm ∷ []

unfoldable pub vms : VmOps → String → Option String → Option String → Exec Response
unfolding own_or_none
vms ops account_id name subdomain =
    on_option name
      (λ n. respond (get_vm_by_name account_id n) (λ vm. listed vm_json (one_or_none vm)) told)
      (on_option subdomain
        (λ s.
          respond (get_vm_by_subdomain s) (λ vm. listed vm_json (own_or_none account_id vm)) told)
        (respond (ops.list_vms account_id) (listed vm_json) told))

unfoldable pub new_vm : VmOps → String → NewVmRequest → Exec Response
new_vm ops account_id req =
    respond (ops.create_vm account_id req) (λ vm. with_body 201 (json (vm_json vm))) told

unfoldable pub copy_vm : VmOps → String → String → CopyRequest → Exec Response
copy_vm ops account_id id req =
    respond (ops.clone_vm id account_id req) (λ vm. with_body 201 (json (vm_json vm))) quota_told

found_vm : Option VmRow → Response
found_vm none = status 404
found_vm (some vm) = with_body 200 (json (vm_json vm))

unfoldable pub show_vm : VmOps → String → String → Exec Response
unfolding found_vm
show_vm ops account_id id = respond (ops.get_vm id) found_vm told

-- The audit log's entry is written by a task of its own, and its failure is dropped.
unfoldable pub note : String → Headers → String → String → String → Option Json → Exec Done
note account_id headers action resource id detail =
    ignore
      (write_audit account_id action resource (some id) detail (real_ip headers.x_forwarded_for))

unfoldable pub remove_vm : VmOps → String → Headers → String → Exec Response
unfolding note
remove_vm ops account_id headers id = do
  r ← attempt (ops.delete_vm id)
  on_result r (λ done. do note account_id headers "delete" "vm" id none; pure (status 204))
      (λ e. pure (told e))

unfoldable pub start : VmOps → String → String → Exec Response
start ops account_id id = do ignore (ops.start_vm id); pure (status 202)

unfoldable pub stop : VmOps → String → Headers → String → Exec Response
unfolding note
stop ops account_id headers id = do
  note account_id headers "stop" "vm" id none
  ignore (ops.stop_vm id)
  pure (status 202)

unfoldable pub new_snapshot : VmOps → String → String → Option String → Exec Response
new_snapshot ops account_id id label =
    respond (ops.take_snapshot id label) (λ snap. with_body 201 (json (snapshot_json snap))) told

unfoldable pub snapshots : VmOps → String → String → Exec Response
snapshots ops account_id id = respond (ops.list_snapshots id) (listed snapshot_json) told

abbrev snap_detail : String → Option Json
snap_detail snap_id = some (obj (field "snap_id" (str snap_id) end))

unfoldable pub remove_snapshot : VmOps → String → Headers → String → String → Exec Response
unfolding note
remove_snapshot ops account_id headers id snap_id = do
  r ← attempt (ops.delete_snapshot id snap_id)
  on_result r
      (λ done. do
        note account_id headers "delete" "snapshot" id (snap_detail snap_id)
        pure (status 204))
      (λ e. pure (told e))

unfoldable pub restore : VmOps → String → Headers → String → String → Exec Response
unfolding note
restore ops account_id headers id snap_id = do
  note account_id headers "restore" "snapshot" id (snap_detail snap_id)
  ignore (ops.restore_snapshot id snap_id)
  pure (status 202)

unfoldable pub audit : String → ℤ → Option ℤ → Exec Response
audit account_id limit before =
    respond (list_audit account_id limit before) (listed audit_json) told

abbrev pub token_told : String → Response
token_told token = with_body 200 (json (obj (field "token" (str token) end)))

unfoldable pub new_share_token : VmOps → String → String → Exec Response
new_share_token ops account_id id = respond (ops.generate_share_token id) token_told told

unfoldable pub remove_share_token : VmOps → String → String → Exec Response
remove_share_token ops account_id id = respond (ops.revoke_share_token id) (λ done. status 204) told

unfoldable pub new_auth_token : VmOps → String → String → Exec Response
new_auth_token ops account_id id =
    respond (ops.generate_vm_auth_token id account_id) token_told told
