-- ===== src/ControlPlane/Ops/Creation.antt =====
-- crates/control-plane/src/ops.rs: create_vm and clone_vm.
use Prim.Native.Char.{Char, code}
use spwn.Base.{
  ℕ, String, ◌==◌, Bool, true, false, not, ◌||◌, Option, none, some, eqb, if◌then◌else◌,
}
use spwn.Base.Int.{ℤ, ltb_ℤ}
use spwn.Base.Text.{◌&◌, split_once, contains}
use spwn.Db.Json.{Json, obj, str, end, field, insert}
use spwn.Db.Rows.{VmRow, HostRow, ImageStatus, ready}
use spwn.Db.Vms.{get_vm, get_used_ips_for_host, set_vm_region}
use spwn.Db.Images.{get_image_by_name_tag}
use spwn.World.{
  CaddyCall, Exec, Done, message, quota_exceeded, Result, ok, err, pure, fail, ok_or, ◌>>=◌, ◌>>◌,
  ignore, on_option, refuse_if, new_v4,
}
use spwn.ControlPlane.Scheduler.{pick_host, next_free_slot, slot_address}
use spwn.ControlPlane.Subdomain.{generate}
use spwn.ControlPlane.CaddyRouter.{for_host, region_of, request, fqdn}
use spwn.ControlPlane.Agents.{known_vm, known_host, unknown_vm, connect, accepted}
use spwn.ControlPlane.Ops.{ControlPlaneOps, min_vcpus}

-- api::CreateVmRequest
pub record NewVmRequest : Type 0 where
  pub name : String
  pub image : String
  pub vcpus : ℤ
  pub memory_mb : ℤ
  pub disk_mb : ℤ
  pub bandwidth_mbps : ℤ
  pub exposed_port : ℤ
  pub placement_strategy : String
  pub required_labels : Option Json
  pub region : Option String

-- The image's name and its tag, which is `latest` when none is given.
unfoldable pub image_ref : String → String × String
image_ref image = elim (split_once (λ c. eqb (code c) b':') image) [
  | some parts ↦ parts
  | none ↦ (image, "latest")
]

abbrev is_ready : ImageStatus → Bool
is_ready ready = true
is_ready _ = false

with_region : String → Json → Json
with_region region (obj labels) = obj (insert "region" (str region) labels)
with_region region labels = labels

-- The labels asked for, with the region among them.
unfoldable pub effective_labels : Option String → Option Json → Option Json
unfolding with_region
effective_labels (some region) (some labels) = some (with_region region labels)
effective_labels (some region) none = some (obj (field "region" (str region) end))
effective_labels none labels = labels

unfoldable pub free_address : HostRow → Exec String
free_address host = do
  used_ips ← get_used_ips_for_host (HostRow.id host)
  slot ← ok_or (next_free_slot used_ips) (message "no free ip slots")
  pure (slot_address slot)

-- The VM as it is in the table, shown as stopped by Caddy.
unfoldable pub announce : ControlPlaneOps → HostRow → String → String → Exec VmRow
announce ops host vm_id what = do
  found ← get_vm vm_id
  vm ← ok_or found (message what)
  ignore (
      request
        (CaddyCall.set_stopped_route (for_host ops.caddy host) (fqdn vm.subdomain ops.base_domain)))
  pure vm

-- `draw` is the random generator's letters for the subdomain.
unfoldable pub create_vm : ControlPlaneOps → (ℕ → Char) → String → NewVmRequest → Exec VmRow
unfolding image_ref effective_labels free_address announce
create_vm ops draw account_id req = do
  refuse_if (ltb_ℤ req.vcpus min_vcpus) (message "vcpus must be at least 250 millicores")
  found ← get_image_by_name_tag (image_ref req.image).0 (image_ref req.image).1
  image ← ok_or found (message "image not found")
  refuse_if (not (is_ready image.status)) (message "image is not ready")
  host ←
      pick_host req.vcpus req.memory_mb req.placement_strategy
        (effective_labels req.region req.required_labels)
  vm_id ← new_v4
  ip_address ← free_address host
  sub ← generate draw req.name
  agent ← connect ops.agents host
  resp ← agent.create_vm (record {
    vm_id = vm_id;
    account_id = account_id;
    name = req.name;
    subdomain = sub;
    image = image.id;
    vcpus = req.vcpus;
    memory_mb = req.memory_mb;
    disk_mb = req.disk_mb;
    bandwidth_mbps = req.bandwidth_mbps;
    exposed_port = req.exposed_port;
    ip_address = ip_address;
  })
  accepted resp "agent failed to create vm"
  on_option (region_of host) (λ region. ignore (set_vm_region vm_id region)) (pure tt)
  announce ops host vm_id "vm not found after creation"

-- api::CloneVmRequest
pub record CopyRequest : Type 0 where
  pub name : String
  pub include_memory : Bool

-- The reply's error decides by its text.
unfoldable pub cloned : Result Done → Exec Done
cloned (ok done) = pure done
cloned (err (message m)) =
    if contains "limit" m || contains "quota" m
    then fail (quota_exceeded m)
    else fail (message ("agent failed to clone vm: " & m))
cloned (err e) = fail (message "agent failed to clone vm")

unfoldable pub clone_vm : ControlPlaneOps → (ℕ → Char) → String → String → CopyRequest → Exec VmRow
unfolding free_address announce cloned
clone_vm ops draw source_id account_id req = do
  source ← known_vm source_id
  refuse_if (not (source.account_id == account_id)) unknown_vm
  host_id ← ok_or source.host_id (message "source vm has no host assignment")
  host ← known_host host_id
  new_vm_id ← new_v4
  ip_address ← free_address host
  sub ← generate draw req.name
  agent ← connect ops.agents host
  resp ← agent.clone_vm (record {
    source_vm_id = source_id;
    new_vm_id = new_vm_id;
    account_id = account_id;
    name = req.name;
    subdomain = sub;
    ip_address = ip_address;
    exposed_port = source.exposed_port;
    include_memory = req.include_memory;
  })
  cloned resp
  announce ops host new_vm_id "vm not found after clone"
