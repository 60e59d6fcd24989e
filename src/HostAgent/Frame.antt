-- ===== src/HostAgent/Frame.antt =====
-- The steps of the host agent that do not touch the database keep every property of it.
use spwn.Base.{ℕ, String, Bool, true, false, Option, List, [], ◌∷◌}
use spwn.Base.Int.{ℤ}
use spwn.Db.Rows.{Db, VmRow, SnapshotRow}
use spwn.Db.Vms.{get_vm}
use spwn.Networking.Tap.{apply_tc_shaping, allocate_tap, release_tap, remove_stale, drop_tap}
use spwn.World.{refuse_if, Exec, Launch, Agent, VmEvent, Failure, set_agent}
use spwn.World.Preserves.{Preserves, Preserves-bind, Preserves-modify, preserve_rules}
use spwn.HostAgent.Manager.{
  VmManager, remove_file, provision_overlay, resize_overlay, exists, add_file, send,
}
use spwn.HostAgent.Lifecycle.{require_vm, launch}
use spwn.HostAgent.Teardown.{
  shutdown_within, kill_process, persist_overlay, shut_down, release_slot, remove_snapshot_files,
  remove_overlay,
}
use spwn.HostAgent.Snapshot.{write_snapshot, pause_and_write, snapshot_vm, register_overlay}

module _ (Q : Db → Type 0) where
  abbrev Keeps : {A : Type 0} → Exec A → Type 0
  Keeps m = Preserves Q m

  pub Keeps-set_agent : (f : Agent → Agent) → Keeps (set_agent f)
  unfolding set_agent
  Keeps-set_agent f = Preserves-modify (λ w. record w { agent = f w.agent }) (λ w q. q)

  ruleset agent_rules = (preserve_rules, Keeps-set_agent)

  pub Keeps-add_file : (path : String) → Keeps (add_file path)
  unfolding add_file
  Keeps-add_file path = search agent_rules

  pub Keeps-send : (e : VmEvent) → Keeps (send e)
  unfolding send
  Keeps-send e = search agent_rules

  pub Keeps-refuse_if : (b : Bool) (e : Failure) → Keeps (refuse_if b e)
  Keeps-refuse_if true e = search agent_rules
  Keeps-refuse_if false e = search agent_rules

  pub Keeps-exists : (path : String) → Keeps (exists path)
  unfolding exists
  Keeps-exists path = search agent_rules

  pub Keeps-remove_file : (path : String) → Keeps (remove_file path)
  unfolding remove_file
  Keeps-remove_file path = search agent_rules depth 12

  pub Keeps-provision_overlay : (path : String) → Keeps (provision_overlay path)
  unfolding provision_overlay
  Keeps-provision_overlay path = search (agent_rules, Keeps-remove_file) depth 20

  pub Keeps-resize_overlay :
      (m : VmManager) (path : String) (size : ℤ) → Keeps (resize_overlay m path size)
  unfolding resize_overlay
  Keeps-resize_overlay m path size = search agent_rules depth 12

  Keeps-drop_tap : (name : String) → Keeps (drop_tap name)
  unfolding drop_tap
  Keeps-drop_tap name = search agent_rules

  Keeps-remove_stale : (b : Bool) (slot : ℕ) → Keeps (remove_stale b slot)
  unfolding remove_stale
  Keeps-remove_stale true slot = search agent_rules
  Keeps-remove_stale false slot = search agent_rules

  pub Keeps-allocate_tap : (slot : ℕ) → Keeps (allocate_tap slot)
  unfolding allocate_tap
  Keeps-allocate_tap slot = search (agent_rules, Keeps-remove_stale) depth 30

  pub Keeps-apply_tc_shaping : (tap : String) (mbps : ℕ) → Keeps (apply_tc_shaping tap mbps)
  unfolding apply_tc_shaping
  Keeps-apply_tc_shaping tap mbps = search agent_rules

  pub Keeps-release_tap : (slot : ℕ) → Keeps (release_tap slot)
  unfolding release_tap
  Keeps-release_tap slot = search agent_rules depth 12

  pub Keeps-require_vm : (vm_id : String) → Keeps (require_vm vm_id)
  unfolding require_vm get_vm
  Keeps-require_vm vm_id = search agent_rules

  pub Keeps-launch : (l : Launch) → Keeps (launch l)
  unfolding launch
  Keeps-launch l = search agent_rules depth 12

  pub Keeps-register_overlay :
      (overlay_path : Option String) → Keeps (register_overlay overlay_path)
  unfolding register_overlay
  Keeps-register_overlay overlay_path = search agent_rules depth 12

  pub Keeps-shut_down : (b : Bool) (vm_id : String) (vm : VmRow) → Keeps (shut_down b vm_id vm)
  unfolding shut_down kill_process persist_overlay shutdown_within
  Keeps-shut_down true vm_id vm = search agent_rules depth 30
  Keeps-shut_down false vm_id vm = search agent_rules depth 30

  pub Keeps-release_slot : (slot : Option ℕ) → Keeps (release_slot slot)
  unfolding release_slot
  Keeps-release_slot slot = search (agent_rules, Keeps-release_tap) depth 12

  pub Keeps-remove_snapshot_files : (snaps : List SnapshotRow) → Keeps (remove_snapshot_files snaps)
  unfolding remove_snapshot_files
  Keeps-remove_snapshot_files [] = search agent_rules
  Keeps-remove_snapshot_files (s ∷ snaps) =
      let rest = Keeps-remove_snapshot_files snaps in
      Preserves-bind _ _ (Keeps-remove_file s.snapshot_path)
        (λ _. Preserves-bind _ _ (Keeps-remove_file s.mem_path) (λ _. rest))

  pub Keeps-remove_overlay : (overlay_path : Option String) → Keeps (remove_overlay overlay_path)
  unfolding remove_overlay
  Keeps-remove_overlay overlay_path = search (agent_rules, Keeps-remove_file) depth 12

  Keeps-write_snapshot : (p q : String) → Keeps (write_snapshot p q)
  unfolding write_snapshot
  Keeps-write_snapshot p q = search (agent_rules, Keeps-add_file)

  pub Keeps-snapshot_vm :
      (b : Bool) (vm_id : String) (socket_path : Option String) (p q : String)
      → Keeps (snapshot_vm b vm_id socket_path p q)
  unfolding snapshot_vm pause_and_write
  Keeps-snapshot_vm true vm_id socket_path p q = search (agent_rules, Keeps-write_snapshot) depth 20
  Keeps-snapshot_vm false vm_id socket_path p q =
      search (agent_rules, Keeps-write_snapshot) depth 20

pub ruleset frame_rules = (
  preserve_rules, Keeps-set_agent, Keeps-add_file, Keeps-send, Keeps-refuse_if, Keeps-exists,
  Keeps-remove_file, Keeps-provision_overlay, Keeps-resize_overlay, Keeps-allocate_tap,
  Keeps-apply_tc_shaping, Keeps-release_tap, Keeps-require_vm, Keeps-launch, Keeps-register_overlay,
  Keeps-shut_down, Keeps-release_slot, Keeps-remove_overlay,
)
