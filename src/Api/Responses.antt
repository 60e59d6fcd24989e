-- ===== src/Api/Responses.antt =====
-- crates/api/src/lib.rs: the interface to the control plane, and the responses.
use Prim.Native.Char.{code}
use spwn.Base.{String, ◌==◌, Option, none, some, List, [], ◌∷◌, eqb, map, if◌then◌else◌}
use spwn.Base.Int.{pos}
use spwn.Base.Text.{◌&◌}
use spwn.Base.Text.Letters.{split_on, trim}
use spwn.Db.Json.{Json, obj, field, end, str, num, bool, null, arr, Fields}
use spwn.Db.Rows.{
  VmRow, SnapshotRow, VmEventRow, ImageRow, ImageStatus, building, ready, failed_build, AuditEntry,
}
use spwn.World.{Exec, Done, Failure, restart_required, quota_exceeded, conflict, validation}
use spwn.Auth.Http.{Response, text, json, failure, with_body}
use spwn.Auth.Profile.{items, str_or_null}
use spwn.Auth.Gateway.{status_text}
use spwn.ControlPlane.Resize.{VmResourcePatch}
use spwn.ControlPlane.Ops.Creation.{NewVmRequest, CopyRequest}
use spwn.ControlPlane.Ops.Renaming.{VmPatch}

-- The trait VmOps
pub record VmOps : Type 0 where
  pub create_vm : String → NewVmRequest → Exec VmRow
  pub clone_vm : String → String → CopyRequest → Exec VmRow
  pub start_vm : String → Exec Done
  pub stop_vm : String → Exec Done
  pub delete_vm : String → Exec Done
  pub get_vm : String → Exec (Option VmRow)
  pub list_vms : String → Exec (List VmRow)
  pub take_snapshot : String → Option String → Exec SnapshotRow
  pub list_snapshots : String → Exec (List SnapshotRow)
  pub delete_snapshot : String → String → Exec Done
  pub restore_snapshot : String → String → Exec Done
  pub change_username : String → String → Exec Done
  pub resize_resources : String → VmResourcePatch → Exec VmRow
  pub update_vm : String → VmPatch → Exec VmRow
  pub generate_share_token : String → Exec String
  pub revoke_share_token : String → Exec Done
  pub generate_vm_auth_token : String → String → Exec String

abbrev last : String → List String → String
last d [] = d
last d (x ∷ []) = x
last d (x ∷ y ∷ xs) = last d (y ∷ xs)

-- What stands before the last dot; a dot in front belongs to the name.
stem_of : List String → String
stem_of [] = ""
stem_of (x ∷ []) = x
stem_of (x ∷ y ∷ []) = if x == "" then "." & y else x
stem_of (x ∷ y ∷ z ∷ xs) = x & "." & stem_of (y ∷ z ∷ xs)

-- Path::file_stem of a path that ends in a file's name
unfoldable pub file_stem : String → String
unfolding stem_of
file_stem path =
    stem_of (split_on (λ c. eqb (code c) b'.') (last path (split_on (λ c. eqb (code c) b'/') path)))

abbrev pub fields : List (String × Json) → Fields
fields [] = end
fields ((k, v) ∷ rest) = field k v (fields rest)

-- VmResponse
unfoldable pub vm_json : VmRow → Json
unfolding file_stem status_text
vm_json v = obj (
    fields (
      ("id", str v.id)
      ∷ ("name", str v.name)
      ∷ ("status", str (status_text v.status))
      ∷ ("subdomain", str v.subdomain)
      ∷ ("vcpus", num v.vcpus)
      ∷ ("memory_mb", num v.memory_mb)
      ∷ ("disk_mb", num v.disk_mb)
      ∷ ("bandwidth_mbps", num v.bandwidth_mbps)
      ∷ ("ip_address", str v.ip_address)
      ∷ ("exposed_port", num v.exposed_port)
      ∷ ("image", str (file_stem v.rootfs_path))
      ∷ ("overlay_path", str_or_null v.overlay_path)
      ∷ ("cloned_from", str_or_null v.cloned_from)
      ∷ ("disk_usage_mb", num v.disk_usage_mb)
      ∷ ("region", str_or_null v.region)
      ∷ ("is_public", bool v.is_public)
      ∷ ("share_token", str_or_null v.share_token)
      ∷ []))

-- SnapshotResponse
unfoldable pub snapshot_json : SnapshotRow → Json
snapshot_json s = obj (
    fields (
      ("id", str s.id)
      ∷ ("vm_id", str s.vm_id)
      ∷ ("label", str_or_null s.label)
      ∷ ("size_bytes", num s.size_bytes)
      ∷ ("created_at", num s.created_at)
      ∷ []))

-- VmEventResponse
unfoldable pub event_json : VmEventRow → Json
event_json e = obj (
    fields (
      ("id", num (pos e.id))
      ∷ ("vm_id", str e.vm_id)
      ∷ ("event", str e.event)
      ∷ ("metadata", str_or_null e.metadata)
      ∷ ("created_at", num e.created_at)
      ∷ []))

unfoldable pub image_status_text : ImageStatus → String
image_status_text building = "building"
image_status_text ready = "ready"
image_status_text failed_build = "error"

-- ImageResponse
unfoldable pub image_json : ImageRow → Json
unfolding image_status_text
image_json i = obj (
    fields (
      ("id", str i.id)
      ∷ ("name", str i.name)
      ∷ ("tag", str i.tag)
      ∷ ("source", str i.source)
      ∷ ("status", str (image_status_text i.status))
      ∷ ("size_bytes", num i.size_bytes)
      ∷ ("created_at", num i.created_at)
      ∷ []))

abbrev json_or_null : Option Json → Json
json_or_null none = null
json_or_null (some j) = j

-- AuditEntry as it is serialized
unfoldable pub audit_json : AuditEntry → Json
audit_json e = obj (
    fields (
      ("id", num (pos e.id))
      ∷ ("account_id", str e.account_id)
      ∷ ("action", str e.action)
      ∷ ("resource", str e.resource)
      ∷ ("resource_id", str_or_null e.resource_id)
      ∷ ("detail", json_or_null e.detail)
      ∷ ("ip", str_or_null e.ip)
      ∷ ("created_at", num e.created_at)
      ∷ []))

abbrev pub listed : {A : Type 0} → (A → Json) → List A → Response
listed f xs = with_body 200 (json (arr (items (map f xs))))

-- (INTERNAL_SERVER_ERROR, e.to_string())
abbrev pub told : Failure → Response
told e = with_body 500 (failure e)

-- The kinds of VmOpsError that a handler tells apart.
abbrev pub quota_told : Failure → Response
quota_told (quota_exceeded msg) = with_body 422 (text msg)
quota_told e = told e

abbrev pub restart_told : Failure → Response
restart_told (restart_required msg) = with_body 422 (text msg)
restart_told e = told e

abbrev pub username_told : Failure → Response
username_told (conflict msg) = with_body 409 (text "username already taken")
username_told (validation msg) = with_body 400 (text msg)
username_told e = told e

abbrev first_part : List String → Option String
first_part [] = none
first_part (x ∷ xs) = some (trim x)

-- The first address of the header x-forwarded-for.
unfoldable pub real_ip : Option String → Option String
real_ip none = none
real_ip (some s) = first_part (split_on (λ c. eqb (code c) b',') s)
