-- ===== src/Api/Owned.antt =====
-- crates/api/src/lib.rs: the handlers that ask whose the VM is before they do anything.
use spwn.Base.{ℕ, String, ◌==◌, not, Option, none, if◌then◌else◌}
use spwn.Base.Int.{ℤ, pos, clamp, pos_part}
use spwn.Db.Rows.{VmRow}
use spwn.Db.Hosts.{list_vm_events}
use spwn.World.{Exec, pure, ◌>>=◌, attempt, on_result, on_option}
use spwn.Auth.Http.{Response, json, status, with_body}
use spwn.ControlPlane.Resize.{VmResourcePatch}
use spwn.Api.Responses.{VmOps, vm_json, event_json, listed, told, restart_told}

-- The common beginning: 404 for an unknown VM, 403 for another account's.
unfoldable pub for_owner : VmOps → String → String → Exec Response → Exec Response
for_owner ops account_id id body = do
  r ← attempt (ops.get_vm id)
  on_result r
      (λ found.
        on_option found
          (λ vm. if not (VmRow.account_id vm == account_id) then pure (status 403) else body)
          (pure (status 404)))
      (λ e. pure (told e))

unfoldable pub patch_vm : VmOps → String → String → Option String → Option ℤ → Exec Response
unfolding for_owner
patch_vm ops account_id id name exposed_port = for_owner ops account_id id (do
  r ←
      attempt
        (ops.update_vm id (record { name = name; exposed_port = exposed_port; is_public = none }))
  on_result r (λ vm. pure (with_body 200 (json (vm_json vm)))) (λ e. pure (told e)))

unfoldable pub resize_vm : VmOps → String → String → VmResourcePatch → Exec Response
unfolding for_owner
resize_vm ops account_id id patch = for_owner ops account_id id (do
  r ← attempt (ops.resize_resources id patch)
  on_result r (λ vm. pure (with_body 200 (json (vm_json vm)))) (λ e. pure (restart_told e)))

unfoldable pub vm_events : VmOps → String → String → ℤ → Option ℕ → Exec Response
unfolding for_owner
vm_events ops account_id id limit before = for_owner ops account_id id (do
  r ← attempt (list_vm_events id (pos_part (clamp limit (pos 1) (pos 100))) before)
  on_result r (λ events. pure (listed event_json events)) (λ e. pure (told e)))
