-- ===== src/HostAgent/Manager.antt =====
-- crates/host-agent/src/manager/mod.rs: VmManager and the life of a VM on its host. Firecracker, the
-- jailer and the host's commands are external; what the host's files say is a field of the manager.
use spwn.Base.Text.{◌&◌}
use spwn.Base.{
  ℕ, String, ◌==◌, Bool, not, Option, List, [], ◌∷◌, ◌++◌, select, any, ltb, ◌*◌, ◌%◌,
  if◌then◌else◌,
}
use spwn.Base.Int.{ℤ, low_bits, u64_span}
use spwn.World.{
  set_agent, on_result, Failure, message, VmEvent, Exec, Done, pure, fail, ◌>>=◌, ◌>>◌, attempt,
  ignore, gets, external,
}

pub record VmManager : Type 0 where
  pub kernel_path : String
  pub images_dir : String
  pub overlay_dir : String
  pub snapshot_dir : String
  pub host_id : String
  -- the directory that holds a VM's jail
  pub jail_root_path : String → String
  -- the trimmed sidecar file of an image, "/sbin/init" without one
  pub read_image_init : String → String
  -- VmmId::new accepts the id
  pub valid_jail_id : String → Bool
  pub read_jailer_pid : String → Option ℤ
  pub measure_overlay_usage_mb : String → ℤ
  pub file_size : String → ℕ
  pub pid_is_alive : ℤ → Bool
  pub read_pid_from_cgroup : String → Option ℤ
  pub read_fc_log_tail : String → Option String

unfoldable pub vm_not_found : String → Failure
vm_not_found vm_id = message ("vm not found: " & vm_id)

abbrev pub in_list : String → List String → Bool
in_list s l = any (λ t. t == s) l

abbrev pub without : String → List String → List String
without s l = select (λ t. not (t == s)) l

unfoldable pub send : VmEvent → Exec Done
unfolding set_agent
send e = set_agent (λ a. record a { events = a.events ++ e ∷ [] })

unfoldable pub exists : String → Exec Bool
exists path = gets (λ w. in_list path w.agent.files)

unfoldable pub add_file : String → Exec Done
unfolding set_agent
add_file path = set_agent (λ a. record a { files = path ∷ a.files })

-- remove_file, with its result dropped
unfoldable pub remove_file : String → Exec Done
unfolding set_agent
remove_file path = do
  removed ← attempt (external (message "remove file"))
  on_result removed (λ _. set_agent (λ a. record a { files = without path a.files })) (λ _. pure tt)

-- overlay.rs. A file that mkfs cannot format is removed again.
unfoldable pub provision_overlay : String → Exec Done
unfolding add_file remove_file
provision_overlay path = do
  external (message "create overlay dir")
  external (message "fallocate failed")
  add_file path
  formatted ← attempt (external (message "mkfs.ext4 failed"))
  on_result formatted (λ _. pure tt) (λ e. do remove_file path; fail e)

-- `size_mb * 1024 * 1024` for a `disk_mb as u64`
abbrev pub overlay_bytes : ℤ → ℕ
overlay_bytes disk_mb = low_bits u64_span disk_mb * 1048576 % u64_span

-- overlay.rs: a file that is large enough is left alone.
unfoldable pub resize_overlay : VmManager → String → ℤ → Exec Done
resize_overlay m path new_size_mb =
    if ltb (m.file_size path) (overlay_bytes new_size_mb)
    then (do
      external (message "fallocate failed while resizing")
      ignore (external (message "e2fsck"))
      external (message "resize2fs failed"))
    else pure tt
