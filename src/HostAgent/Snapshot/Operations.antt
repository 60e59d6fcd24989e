-- ===== src/HostAgent/Snapshot/Operations.antt =====
-- The operations of the manager on the table of snapshots.
use spwn.Base.{
  ◌≤◌, String, Bool, Option, List, [], ◌∷◌, length, select, arith, inl, inr, Bool-cases,
}
use spwn.Base.Int.{ℤ}
use spwn.Db.Rows.{VmRow, SnapshotRow, VmStatus}
use spwn.Db.Vms.{set_vm_status, set_vm_running, set_vm_stopped, delete_vm, deleted_vm}
use spwn.Db.Hosts.{of_vm, get_snapshot, delete_snapshot, list_snapshots}
use spwn.World.{World, after, Exec, Done}
use spwn.World.Preserves.{Preserves, Preserves-update, Preserves-constrained}
use spwn.HostAgent.Frame.{frame_rules, Keeps-remove_snapshot_files}
use spwn.HostAgent.Manager.{VmManager, exists}
use spwn.HostAgent.Lifecycle
use spwn.HostAgent.Lifecycle.{require_vm, or_set_error, launch, start_inner}
use spwn.HostAgent.Teardown
use spwn.HostAgent.Teardown.{
  shutdown_within, kill_process, persist_overlay, shut_down, release_slot, stop_inner,
  remove_snapshot_files, remove_overlay, stop_all,
}
use spwn.HostAgent.Snapshot
use spwn.HostAgent.Snapshot.{register_overlay, restore_inner, restore_snapshot, take_snapshot}
use spwn.HostAgent.Snapshot.Limit.{
  OfSnapshots, AtMostTwo, Preserves-update_vm, Preserves-log_event, take_snapshot_keeps,
}

-- The steps that leave the table alone keep every property of it.
module _ (P : List SnapshotRow → Type 0) where
  abbrev Keeps : {A : Type 0} → Exec A → Type 0
  Keeps m = Preserves (OfSnapshots P) m

  ruleset step_rules = (frame_rules, Preserves-update_vm, Preserves-log_event)

  Keeps-set_vm_running :
      (id : String) (pid : ℤ) (tap socket : String) → Keeps (set_vm_running id pid tap socket)
  unfolding set_vm_running
  Keeps-set_vm_running id pid tap socket = search step_rules

  Keeps-set_vm_status : (id : String) (status : VmStatus) → Keeps (set_vm_status id status)
  unfolding set_vm_status
  Keeps-set_vm_status id status = search step_rules

  Keeps-set_vm_stopped : (id : String) → Keeps (set_vm_stopped id)
  unfolding set_vm_stopped
  Keeps-set_vm_stopped id = search step_rules

  ruleset vm_rules = (step_rules, Keeps-set_vm_running, Keeps-set_vm_status, Keeps-set_vm_stopped)

  Keeps-or_set_error : (vm_id : String) (m : Exec Done) → Keeps m → Keeps (or_set_error vm_id m)
  unfolding or_set_error
  Keeps-or_set_error vm_id m k = search vm_rules depth 12

  Keeps-start_inner : (m : VmManager) (vm : VmRow) → Keeps (start_inner m vm)
  unfolding start_inner
  Keeps-start_inner m vm = search vm_rules depth 60

  Keeps-start : (m : VmManager) (vm_id : String) → Keeps (Lifecycle.start m vm_id)
  unfolding Lifecycle.start
  Keeps-start m vm_id = search (vm_rules, Keeps-or_set_error, Keeps-start_inner) depth 20

  Keeps-restore_inner :
      (m : VmManager) (vm : VmRow) (snap : SnapshotRow) → Keeps (restore_inner m vm snap)
  unfolding restore_inner
  Keeps-restore_inner m vm snap = search vm_rules depth 60

  Keeps-restore_snapshot :
      (m : VmManager) (vm_id snap_id : String) → Keeps (restore_snapshot m vm_id snap_id)
  unfolding restore_snapshot get_snapshot
  Keeps-restore_snapshot m vm_id snap_id =
      search (vm_rules, Keeps-or_set_error, Keeps-restore_inner) depth 20

  Keeps-stop_inner : (vm_id : String) (vm : VmRow) → Keeps (stop_inner vm_id vm)
  unfolding stop_inner
  Keeps-stop_inner vm_id vm = search vm_rules depth 30

  Keeps-stop : (vm_id : String) → Keeps (Teardown.stop vm_id)
  unfolding Teardown.stop
  Keeps-stop vm_id = search (vm_rules, Keeps-stop_inner) depth 12

length-select-select :
    (p q : SnapshotRow → Bool) (snaps : List SnapshotRow)
    → length (select p (select q snaps)) ≤ length (select p snaps)
unfolding select
length-select-select p q [] = omega arith
length-select-select p q (s ∷ snaps) =
    let ih = length-select-select p q snaps in
    elim (Bool-cases (q s)) [
      | inl e ↦ elim (Bool-cases (p s)) [
        | inl c ↦ rw (e, c) (omega (arith, ih))
        | inr c ↦ rw (e, c) ih
      ]
      | inr e ↦ elim (Bool-cases (p s)) [
        | inl c ↦ rw (e, c) (omega (arith, ih))
        | inr c ↦ rw (e, c) ih
      ]
    ]

AtMostTwo-select :
    (q : SnapshotRow → Bool) (snaps : List SnapshotRow)
    → AtMostTwo snaps
    → AtMostTwo (select q snaps)
AtMostTwo-select q snaps all vm_id =
    let bound = all vm_id in omega (arith, length-select-select (of_vm vm_id) q snaps)

Keeps-delete_snapshot : (id : String) → Keeps AtMostTwo (delete_snapshot id)
unfolding delete_snapshot
Keeps-delete_snapshot id = Preserves-update _ (λ d q. AtMostTwo-select _ d.snapshots q)

Keeps-delete_vm : (id : String) → Keeps AtMostTwo (delete_vm id)
unfolding delete_vm deleted_vm
Keeps-delete_vm id = Preserves-constrained _ _ (λ d q. AtMostTwo-select _ d.snapshots q)

Keeps-snapshot_delete : (snap_id : String) → Keeps AtMostTwo (Snapshot.delete snap_id)
unfolding Snapshot.delete get_snapshot
Keeps-snapshot_delete snap_id = search (vm_rules, Keeps-delete_snapshot) depth 20

Keeps-delete : (m : VmManager) (vm_id : String) → Keeps AtMostTwo (Teardown.delete m vm_id)
unfolding Teardown.delete list_snapshots exists
Keeps-delete m vm_id = search (vm_rules, Keeps-delete_vm, Keeps-remove_snapshot_files) depth 30

-- Whatever fails on the way, no operation of the manager gives a VM a third snapshot, when none
-- has more than two before. The operations are taken one at a time.
pub manager_keeps_limit :
    (m : VmManager) (vm_id snap_id : String) (label : Option String) (w : World)
    → AtMostTwo w.db.snapshots
    → AtMostTwo (after (take_snapshot m vm_id label) w).db.snapshots
      × AtMostTwo (after (restore_snapshot m vm_id snap_id) w).db.snapshots
      × AtMostTwo (after (Snapshot.delete snap_id) w).db.snapshots
      × AtMostTwo (after (Lifecycle.start m vm_id) w).db.snapshots
      × AtMostTwo (after (Teardown.stop vm_id) w).db.snapshots
      × AtMostTwo (after (Teardown.delete m vm_id) w).db.snapshots
manager_keeps_limit m vm_id snap_id label w q = (
  (take_snapshot_keeps m vm_id label).at w q,
  (Keeps-restore_snapshot AtMostTwo m vm_id snap_id).at w q,
  (Keeps-snapshot_delete snap_id).at w q,
  (Keeps-start AtMostTwo m vm_id).at w q,
  (Keeps-stop AtMostTwo vm_id).at w q,
  (Keeps-delete m vm_id).at w q,
)
