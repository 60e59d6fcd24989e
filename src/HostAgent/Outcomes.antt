-- ===== src/HostAgent/Outcomes.antt =====
-- What the database says of a VM after an operation of the manager has succeeded.
use spwn.Base.{
  String, ◌≡◌, Bool, some, find, find_satisfies, eq_iff, subst, inl, inr, Bool-cases, if◌then◌else◌,
}
use spwn.Db.Rows.{Db, VmRow, SnapshotRow, stopped, starting, running, ◌is◌}
use spwn.Db.Vms.{has_id}
use spwn.Db.Hosts.{get_snapshot}
use spwn.World.{refuse_if, pure, World, Exec, Done, Failure, ok, ◌>>=◌, result, after}
use spwn.World.Preserves.{Preserves}
use spwn.World.Ensures.{Ensures, Ensures-from, Ensures-bind, Ensures-then, Ensures-pure}
use spwn.HostAgent.Manager.{VmManager}
use spwn.HostAgent.Frame.{frame_rules, Keeps-refuse_if}
use spwn.HostAgent.Lifecycle.{require_vm, start_inner, start}
use spwn.HostAgent.Snapshot.{restore_inner, restore_snapshot}
use spwn.HostAgent.Teardown.{stop_inner, stop}
use spwn.HostAgent.RowRules.{
  RowWith, AnyRow, RowWith-log_event, AnyRow-set_vm_status, set_vm_running-Ensures,
  require_vm-found, stop_inner-Ensures, is-stopped, or_set_error-Ensures,
}

abbrev pub IsRunning : VmRow → Type 0
IsRunning v = v.status ≡ running

ruleset outcome_rules = (frame_rules, Ensures-bind, Ensures-then, RowWith-log_event)

start_inner-Ensures :
    (m : VmManager) (vm : VmRow)
    → Ensures (RowWith vm.id AnyRow) (RowWith vm.id IsRunning) (start_inner m vm)
unfolding start_inner
start_inner-Ensures m vm = search (outcome_rules, set_vm_running-Ensures) depth 80

restore_inner-Ensures :
    (m : VmManager) (vm : VmRow) (snap : SnapshotRow)
    → Ensures (RowWith vm.id AnyRow) (RowWith vm.id IsRunning) (restore_inner m vm snap)
unfolding restore_inner
restore_inner-Ensures m vm snap = search (outcome_rules, set_vm_running-Ensures) depth 80

module _ (id : String) where
  abbrev pub Found : VmRow → Db → Type 0
  Found v d = find (has_id id) d.vms ≡ some v

  abbrev pub Ends : (VmRow → Type 0) → Exec Done → Type 0
  Ends S m = Ensures (λ d. Unit {0}) (RowWith id S) m

  Preserves-Found-refuse_if :
      (v : VmRow) (b : Bool) (e : Failure) → Preserves (Found v) (refuse_if b e)
  Preserves-Found-refuse_if v b e = Keeps-refuse_if (Found v) b e

  -- What is proved of a row's own id holds of the id that found the row.
  by_own_row :
      (S : VmRow → Type 0) (v : VmRow) (m : Exec Done)
      → (v.id ≡ id → Ensures (RowWith id AnyRow) (RowWith id S) m)
      → Ensures (Found v) (RowWith id S) m
  by_own_row S v m k = record {
    at = λ w found a h.
        (k ((eq_iff (VmRow.id v) id).0 (find_satisfies (has_id id) w.db.vms v found))).at w
          (v, found, tt) a h;
  }

  at_own_id :
      (S : VmRow → Type 0) (v : VmRow) (m : Exec Done)
      → Ensures (RowWith v.id AnyRow) (RowWith v.id S) m
      → v.id ≡ id
      → Ensures (RowWith id AnyRow) (RowWith id S) m
  at_own_id S v m k same = subst (λ i. Ensures (RowWith i AnyRow) (RowWith i S) m) same k

  from_row :
      (S : VmRow → Type 0) (f : VmRow → Exec Done)
      → ((v : VmRow) → Ensures (Found v) (RowWith id S) (f v))
      → Ends S (require_vm id >>= f)
  from_row S f k =
      Ensures-from (λ d. Unit {0}) Found (RowWith id S) _ f (λ w p v h. require_vm-found id w v h) k

  stop_or_not :
      (v : VmRow)
      → Ensures
          (Found v)
          (RowWith id (λ u. u.status ≡ stopped))
          (if v.status is stopped then pure tt else stop_inner id v)
  stop_or_not v = elim (Bool-cases (v.status is stopped)) [
    | inl e ↦ rw e (Ensures-pure _ (λ d found. (v, found, is-stopped v.status e)))
    | inr e ↦
        rw e (record { at = λ w found a h. (stop_inner-Ensures id v).at w (v, found, tt) a h })
  ]

  pub stop-Ensures : Ends (λ v. v.status ≡ stopped) (stop id)
  unfolding stop
  stop-Ensures = from_row (λ v. v.status ≡ stopped) _ stop_or_not

  pub start-Ensures : (m : VmManager) → Ends IsRunning (start m id)
  unfolding start
  start-Ensures m = from_row IsRunning _ (λ v.
      Ensures-bind _ _ (Keeps-refuse_if (Found v) _ _) (λ _.
        or_set_error-Ensures (Found v) (RowWith id IsRunning) id (start_inner m v) (
          by_own_row IsRunning v (start_inner m v)
            (at_own_id IsRunning v (start_inner m v) (start_inner-Ensures m v)))))

  restore-Ensures :
      (m : VmManager) (snap_id : String) → Ends IsRunning (restore_snapshot m id snap_id)
  unfolding restore_snapshot get_snapshot
  restore-Ensures m snap_id = from_row IsRunning _ (λ v.
      Ensures-bind _ _ (Keeps-refuse_if (Found v) _ _) (λ _.
        Ensures-bind _ _ (search frame_rules) (λ found.
          Ensures-bind _ _ (search frame_rules) (λ snap. by_own_row IsRunning v _ (λ same.
            Ensures-bind _ _ (AnyRow-set_vm_status id starting) (λ _.
              or_set_error-Ensures (RowWith id AnyRow) (RowWith id IsRunning) id
                (restore_inner m v snap)
                (at_own_id IsRunning v (restore_inner m v snap) (restore_inner-Ensures m v snap)
                  same)))))))

-- A stop that succeeds leaves the VM's row with the status `stopped`.
pub stop-RowWith :
    (vm_id : String) (w : World)
    → result (stop vm_id) w ≡ ok tt
    → RowWith vm_id (λ v. v.status ≡ stopped) (after (stop vm_id) w).db
stop-RowWith vm_id w h = (stop-Ensures vm_id).at w tt tt h

-- A start that succeeds leaves the VM's row with the status `running`.
pub start-RowWith :
    (m : VmManager) (vm_id : String) (w : World)
    → result (start m vm_id) w ≡ ok tt
    → RowWith vm_id IsRunning (after (start m vm_id) w).db
start-RowWith m vm_id w h = (start-Ensures vm_id m).at w tt tt h

-- A restore that succeeds leaves the VM's row with the status `running`.
pub restore_snapshot-RowWith :
    (m : VmManager) (vm_id snap_id : String) (w : World)
    → result (restore_snapshot m vm_id snap_id) w ≡ ok tt
    → RowWith vm_id IsRunning (after (restore_snapshot m vm_id snap_id) w).db
restore_snapshot-RowWith m vm_id snap_id w h = (restore-Ensures vm_id m snap_id).at w tt tt h
