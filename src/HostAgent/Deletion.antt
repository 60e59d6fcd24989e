-- ===== src/HostAgent/Deletion.antt =====
-- Deleting a VM: what is gone afterwards, and when it is refused.
use spwn.Base.{
  String, ◌==◌, ◌≡◌, Option, none, some, [], find, select, find-select-not, select-select-not,
}
use spwn.Db.Rows.{Db, VmEventRow}
use spwn.Db.Vms.{has_id, delete_vm, deleted_vm, delete_violation}
use spwn.Db.Hosts.{of_vm, list_snapshots}
use spwn.World.{World, DbError, ok, result, after, constrained, checked}
use spwn.World.Ensures.{Ensures, Ensures-bind, Ensures-then, Ensures-transact}
use spwn.HostAgent.Manager.{VmManager}
use spwn.HostAgent.Frame.{frame_rules, Keeps-remove_snapshot_files}
use spwn.HostAgent.Teardown.{delete}

-- Neither the VM nor a snapshot or an event of it is left.
pub record IsGone (id : String) (d : Db) : Type 0 where
  pub no_vm : find (has_id id) d.vms ≡ none
  pub no_snapshots : select (of_vm id) d.snapshots ≡ []
  pub no_events : select (λ e. VmEventRow.vm_id e == id) d.vm_events ≡ []

deleted_vm-IsGone : (id : String) (d : Db) → IsGone id (deleted_vm id d)
unfolding deleted_vm
deleted_vm-IsGone id d = record {
  no_vm = find-select-not (has_id id) d.vms;
  no_snapshots = select-select-not (of_vm id) d.snapshots;
  no_events = select-select-not (λ e. VmEventRow.vm_id e == id) d.vm_events;
}

checked-IsGone :
    (id : String) (o : Option DbError) (d : Db)
    → (checked o d (deleted_vm id d)).0 ≡ ok tt
    → IsGone id (checked o d (deleted_vm id d)).1
checked-IsGone id none d h = deleted_vm-IsGone id d
checked-IsGone id (some e) d h = cc

delete_vm-Ensures : (id : String) → Ensures (λ d. Unit {0}) (IsGone id) (delete_vm id)
unfolding delete_vm constrained
delete_vm-Ensures id = Ensures-transact _ (λ d p a h. checked-IsGone id (delete_violation id d) d h)

delete-Ensures : (m : VmManager) (id : String) → Ensures (λ d. Unit {0}) (IsGone id) (delete m id)
unfolding delete list_snapshots
delete-Ensures m id =
    search (frame_rules, Keeps-remove_snapshot_files, Ensures-bind, Ensures-then, delete_vm-Ensures)
      depth 60

-- After a deletion that succeeds no row of the VM, of its snapshots or of its events is left.
pub delete-IsGone :
    (m : VmManager) (vm_id : String) (w : World)
    → result (delete m vm_id) w ≡ ok tt
    → IsGone vm_id (after (delete m vm_id) w).db
delete-IsGone m vm_id w h = (delete-Ensures m vm_id).at w tt tt h
