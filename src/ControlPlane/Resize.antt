-- ===== src/ControlPlane/Resize.antt =====
-- crates/control-plane/src/ops.rs: resize_resources.
pub mod Calls
pub mod Grown
use spwn.Base.{String, Bool, false, ◌&&◌, ◌||◌, Option, none, some, if◌then◌else◌}
use spwn.Base.Int.{ℤ, ltb_ℤ}
use spwn.Db.Rows.{VmRow, running, ◌is◌}
use spwn.Db.Vms.{get_vm, update_vm_resources}
use spwn.World.{refuse_if, Exec, Done, message, restart_required, pure, ok_or, ◌>>=◌, ◌>>◌}
use spwn.ControlPlane.Agents.{AgentService, known_vm, agent_client, accepted}
use spwn.ControlPlane.Ops.{ControlPlaneOps, min_vcpus}

-- api::VmResourcePatch
pub record VmResourcePatch : Type 0 where
  pub vcpus : Option ℤ
  pub memory_mb : Option ℤ
  pub disk_mb : Option ℤ
  pub bandwidth_mbps : Option ℤ

-- is_some_and and unwrap_or
abbrev pub some_and : Option ℤ → (ℤ → Bool) → Bool
some_and none p = false
some_and (some a) p = p a

abbrev pub or_old : Option ℤ → ℤ → ℤ
or_old none b = b
or_old (some a) b = a

abbrev pub differs : ℤ → ℤ → Bool
differs a b = ltb_ℤ a b || ltb_ℤ b a

unfoldable pub resize_agent : Bool → Bool → AgentService → String → ℤ → ℤ → Exec Done
resize_agent resize_cpu resize_bw agent vm_id vcpus bandwidth = do
  if resize_cpu
      then (do resp ← agent.resize_cpu vm_id vcpus; accepted resp "agent resize_cpu failed")
      else pure tt
  if resize_bw
      then (do
        resp ← agent.resize_bandwidth vm_id bandwidth
        accepted resp "agent resize_bandwidth failed")
      else pure tt

unfoldable pub apply_resize : ControlPlaneOps → Bool → Bool → String → ℤ → ℤ → Exec Done
unfolding resize_agent
apply_resize ops resize_cpu resize_bw vm_id vcpus bandwidth =
    if resize_cpu || resize_bw
    then (do
      agent ← agent_client ops.agents vm_id
      resize_agent resize_cpu resize_bw agent vm_id vcpus bandwidth)
    else pure tt

unfoldable pub resize_resources : ControlPlaneOps → String → VmResourcePatch → Exec VmRow
unfolding apply_resize
resize_resources ops vm_id patch = do
  vm ← known_vm vm_id
  refuse_if (some_and patch.memory_mb (λ m. differs m vm.memory_mb) && (vm.status is running))
      (restart_required "memory changes cannot be applied to a running vm")
  refuse_if (some_and patch.disk_mb (λ d. differs d vm.disk_mb) && (vm.status is running))
      (restart_required "disk changes cannot be applied to a running vm")
  refuse_if (some_and patch.disk_mb (λ d. ltb_ℤ d vm.disk_mb)) (message "disk cannot be shrunk")
  refuse_if (some_and patch.vcpus (λ v. ltb_ℤ v min_vcpus)) (message "vcpus must be at least 250")
  update_vm_resources vm_id (or_old patch.vcpus vm.vcpus) (or_old patch.memory_mb vm.memory_mb)
      (or_old patch.disk_mb vm.disk_mb) (or_old patch.bandwidth_mbps vm.bandwidth_mbps)
  apply_resize ops ((vm.status is running) && some_and patch.vcpus (λ v. differs v vm.vcpus))
      ((vm.status is running) && some_and patch.bandwidth_mbps (λ b. differs b vm.bandwidth_mbps))
      vm_id (or_old patch.vcpus vm.vcpus) (or_old patch.bandwidth_mbps vm.bandwidth_mbps)
  found ← get_vm vm_id
  ok_or found (message "vm not found after resize")
