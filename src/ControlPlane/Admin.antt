-- ===== src/ControlPlane/Admin.antt =====
-- crates/control-plane/src/admin.rs: the administrator's handlers, behind the extractor AdminId.
pub mod Builds
use spwn.Base.{
  ℕ, String, ◌==◌, Bool, true, false, Option, none, some, List, [], ◌∷◌, find, map, if◌then◌else◌,
}
use spwn.Base.Int.{ℤ}
use spwn.Db.Json.{Json, obj, str, num, arr}
use spwn.Db.Rows.{
  HostRow, HostStatus, active, draining, offline, ImageRow, ImageStatus, building, ready,
  failed_build,
}
use spwn.Db.Hosts.{list_hosts, set_host_status, is_active}
use spwn.Db.Images.{
  get_image, create_image, list_images, delete_image, update_image_ready, update_image_error,
}
use spwn.Db.Audit.{list_audit_admin}
use spwn.World.{
  Failure, Exec, Done, pure, ◌>>=◌, ◌>>◌, attempt, ignore, on_result, on_option, new_v4,
}
use spwn.Auth.Http.{Response, text, json, status, with_body}
use spwn.Auth.Profile.{str_or_null}
use spwn.Api.Responses.{fields, image_status_text, audit_json, listed, told}
use spwn.ControlPlane.Agents.{Agents}
use spwn.ControlPlane.Migration.{migrate_vm}

unfoldable pub host_status_text : HostStatus → String
host_status_text active = "active"
host_status_text draining = "draining"
host_status_text offline = "offline"

-- HostResponse
unfoldable pub host_json : HostRow → Json
unfolding host_status_text
host_json h = obj (
    fields (
      ("id", str h.id)
      ∷ ("name", str h.name)
      ∷ ("address", str h.address)
      ∷ ("status", str (host_status_text h.status))
      ∷ ("vcpu_total", num h.vcpu_total)
      ∷ ("vcpu_used", num h.vcpu_used)
      ∷ ("mem_total_mb", num h.mem_total_mb)
      ∷ ("mem_used_mb", num h.mem_used_mb)
      ∷ ("labels", h.labels)
      ∷ ("snapshot_addr", str h.snapshot_addr)
      ∷ ("last_seen_at", num h.last_seen_at)
      ∷ []))

module _ {A : Type 0} where
  -- A failure is told with its message.
  abbrev pub or_told : Exec A → (A → Exec Response) → Exec Response
  or_told m f = do r ← attempt m; on_result r f (λ e. pure (told e))

unfoldable pub all_hosts : Exec Response
unfolding host_json
all_hosts = or_told list_hosts (λ hosts. pure (listed host_json hosts))

unfoldable pub host_status_of : String → Option HostStatus
host_status_of s =
    if s == "active"
    then some active
    else if s == "draining"
    then some draining
    else if s == "offline"
    then some offline
    else none

unfoldable pub change_host_status : String → String → Exec Response
unfolding host_status_of
change_host_status id s =
    on_option (host_status_of s)
      (λ new_status. or_told (set_host_status id new_status) (λ done. pure (status 204)))
      (pure (with_body 400 (text "status must be active, draining, or offline")))

-- The migration is a task of its own: its failure is logged.
unfoldable pub start_migration : Agents → String → String → Exec Response
start_migration agents vm_id target_host_id = do
  ignore (migrate_vm agents vm_id target_host_id)
  pure (status 202)

-- ImageResponse of the administrator
unfoldable pub built_image_json : ImageRow → Json
built_image_json i = obj (
    fields (
      ("id", str i.id)
      ∷ ("name", str i.name)
      ∷ ("tag", str i.tag)
      ∷ ("source", str i.source)
      ∷ ("status", str (image_status_text i.status))
      ∷ ("size_bytes", num i.size_bytes)
      ∷ ("error", str_or_null i.error)
      ∷ ("created_at", num i.created_at)
      ∷ []))

unfoldable pub all_images : Exec Response
unfolding built_image_json
all_images = or_told list_images (λ images. pure (listed built_image_json images))

-- A message of the stream: a stage before the last, Stage::Done with the size, Stage::Error with its
-- text, or a broken stream.
pub data BuildMessage : Type 0 where
  progress : BuildMessage
  finished : ℤ → BuildMessage
  failing broken : String → BuildMessage

-- What comes of the call to the host's agent: no channel, a refused call, or the stream.
pub data BuildAnswer : Type 0 where
  no_channel refused_call : String → BuildAnswer
  streamed : List BuildMessage → BuildAnswer

-- The loop over the stream. Failures of these statements are dropped.
unfoldable pub follow : String → List BuildMessage → Exec Done
follow image_id [] = ignore (update_image_error image_id "build stream ended unexpectedly")
follow image_id (progress ∷ rest) = follow image_id rest
follow image_id (finished size_bytes ∷ rest) = ignore (update_image_ready image_id size_bytes)
follow image_id (failing m ∷ rest) = ignore (update_image_error image_id m)
follow image_id (broken e ∷ rest) = ignore (update_image_error image_id e)

-- The task that is spawned.
unfoldable pub run_build : String → BuildAnswer → Exec Done
unfolding follow
run_build image_id (no_channel e) = ignore (update_image_error image_id e)
run_build image_id (refused_call e) = ignore (update_image_error image_id e)
run_build image_id (streamed messages) = follow image_id messages

abbrev pub or_latest : Option String → String
or_latest none = "latest"
or_latest (some tag) = tag

-- The image is recorded first. `answer` is the agent's, for a host, the image's id, source, name and tag.
unfoldable pub build_image :
    (HostRow → String → String → String → String → BuildAnswer)
    → String
    → String
    → Option String
    → Exec Response
unfolding run_build built_image_json
build_image answer source name tag = or_told list_hosts (λ hosts.
    on_option (find is_active hosts)
      (λ host. do
        image_id ← new_v4
        or_told (create_image image_id name (or_latest tag) source) (λ image. do
          run_build image_id (answer host image_id source name (or_latest tag))
          pure (with_body 202 (json (built_image_json image)))))
      (pure (with_body 503 (text "no active hosts available"))))

abbrev pub is_building : ImageStatus → Bool
is_building building = true
is_building ready = false
is_building failed_build = false

unfoldable pub remove_image : String → Exec Response
remove_image id = or_told (get_image id) (λ found.
    on_option found
      (λ img.
        if is_building (ImageRow.status img)
        then pure (with_body 409 (text "image is currently building"))
        else or_told (delete_image id) (λ done. pure (status 204)))
      (pure (status 404)))

unfoldable pub whole_audit : ℤ → Option ℤ → Exec Response
whole_audit limit before =
    or_told (list_audit_admin limit before) (λ entries. pure (listed audit_json entries))
