-- ===== src/HostAgent/Snapshot/Limit.antt =====
-- No operation gives a VM more than two snapshots.
use spwn.Base.{
  ◌≤◌, String, ◌≡◌, refl, Option, List, [], ◌∷◌, ◌++◌, length, select, arith, ◌+◌, leb, subst,
  eq_iff, Bool-cases, inl, inr, if◌then◌else◌,
}
use spwn.Db.Rows.{Db, VmRow, SnapshotRow, NewSnapshot}
use spwn.Db.Vms.{update_vms, update_vm, get_vm}
use spwn.Db.Hosts.{of_vm, log_event, count_snapshots, created_snapshot, create_snapshot}
use spwn.World.{World, fail}
use spwn.World.Leads.{Leads, Leads-bind, Leads-then, Leads-constrained, Preserves-query_bind}
use spwn.World.Preserves.{
  Preserves, Preserves-pure, Preserves-gets, Preserves-new_v4, Preserves-bind, Preserves-update,
  Preserves-constrained, preserve_rules,
}
use spwn.HostAgent.Frame.{Keeps-send, Keeps-refuse_if, Keeps-snapshot_vm}
use spwn.HostAgent.Manager.{VmManager}
use spwn.HostAgent.Lifecycle.{require_vm}
use spwn.HostAgent.Snapshot.{
  record_snapshot, take_counted, take_snapshot, max_snapshots, limit_reached,
}

-- A property of the table of snapshots.
abbrev pub OfSnapshots : (List SnapshotRow → Type 0) → Db → Type 0
OfSnapshots P d = P d.snapshots

module _ (P : List SnapshotRow → Type 0) where
  pub Preserves-update_vm :
      (id : String) (f : VmRow → VmRow) → Preserves (OfSnapshots P) (update_vm id f)
  unfolding update_vm update_vms
  Preserves-update_vm id f = Preserves-update (update_vms id f) (λ d q. q)

  pub Preserves-log_event :
      (id event : String) (metadata : Option String)
      → Preserves (OfSnapshots P) (log_event id event metadata)
  unfolding log_event
  Preserves-log_event id event metadata =
      Preserves-bind _ _ (Preserves-gets _) (λ now. Preserves-constrained _ _ (λ d q. q))

-- Every VM has at most two snapshots.
abbrev pub AtMostTwo : List SnapshotRow → Type 0
AtMostTwo snaps = (vm_id : String) → length (select (of_vm vm_id) snaps) ≤ 2

-- The VM can have one more.
abbrev RoomFor : String → List SnapshotRow → Type 0
RoomFor vm_id snaps = AtMostTwo snaps × (length (select (of_vm vm_id) snaps) ≤ 1)

length-select-snoc :
    (vm_id : String) (snaps : List SnapshotRow) (s : SnapshotRow)
    → length (select (of_vm vm_id) (snaps ++ s ∷ []))
      ≡ length (select (of_vm vm_id) snaps) + (if of_vm vm_id s then 1 else 0)
unfolding select
length-select-snoc vm_id [] s = elim (Bool-cases (of_vm vm_id s)) [
  | inl e ↦ rw e refl
  | inr e ↦ rw e refl
]
length-select-snoc vm_id (x ∷ snaps) s = elim (Bool-cases (of_vm vm_id x)) [
  | inl e ↦ rw e (omega (arith, length-select-snoc vm_id snaps s))
  | inr e ↦ rw e (length-select-snoc vm_id snaps s)
]

AtMostTwo-snoc :
    (s : SnapshotRow) (snaps : List SnapshotRow)
    → RoomFor s.vm_id snaps
    → AtMostTwo (snaps ++ s ∷ [])
AtMostTwo-snoc s snaps (all, room) u = elim (Bool-cases (of_vm u s)) [
  | inl e ↦
      let room' : length (select (of_vm u) snaps) ≤ 1 =
        subst (λ t. length (select (of_vm t) snaps) ≤ 1) ((eq_iff s.vm_id u).0 e) room in
      rw (length-select-snoc u snaps s, e) (omega arith)
  | inr e ↦ let bound = all u in rw (length-select-snoc u snaps s, e) (omega arith)
]

create_snapshot-Leads :
    (snap : NewSnapshot)
    → Leads (OfSnapshots (RoomFor snap.vm_id)) (OfSnapshots AtMostTwo) (create_snapshot snap)
unfolding create_snapshot created_snapshot
create_snapshot-Leads snap =
    Leads-bind (λ d p. p.0) _ _ (Preserves-gets _)
      (λ now.
        Leads-then _ _
          (Leads-constrained (λ d p. p.0) _ _
            (λ d p. AtMostTwo-snoc (created_snapshot snap now) d.snapshots p))
          (λ _. Preserves-pure _))

record_snapshot-Leads :
    (m : VmManager) (vm_id snap_id : String) (label : Option String)
    → Leads
        (OfSnapshots (RoomFor vm_id))
        (OfSnapshots AtMostTwo)
        (record_snapshot m vm_id snap_id label)
unfolding record_snapshot
record_snapshot-Leads m vm_id snap_id label =
    Leads-then _ _ (create_snapshot-Leads _)
      (λ snap. search (preserve_rules, Preserves-log_event, Keeps-send))

take_counted-Leads :
    (m : VmManager) (vm_id : String) (socket_path label : Option String)
    → Leads
        (OfSnapshots (RoomFor vm_id))
        (OfSnapshots AtMostTwo)
        (take_counted m vm_id socket_path label)
unfolding take_counted
take_counted-Leads m vm_id socket_path label =
    Leads-bind (λ d p. p.0) _ _ Preserves-new_v4
      (λ snap_id.
        Leads-bind (λ d p. p.0) _ _ (Preserves-gets _)
          (λ is_running.
            Leads-bind (λ d p. p.0) _ _
              (Keeps-snapshot_vm (OfSnapshots (RoomFor vm_id)) is_running vm_id socket_path _ _)
              (λ _. record_snapshot-Leads m vm_id snap_id label)))

take_if_room :
    (m : VmManager) (vm_id : String) (socket_path label : Option String) (w : World)
    → OfSnapshots AtMostTwo w.db
    → OfSnapshots AtMostTwo
        ((if leb max_snapshots (length (select (of_vm vm_id) w.db.snapshots))
            then fail limit_reached
            else take_counted m vm_id socket_path label)
          w).1.db
unfolding fail
take_if_room m vm_id socket_path label w q =
    elim (Bool-cases (leb max_snapshots (length (select (of_vm vm_id) w.db.snapshots)))) [
      | inl e ↦ rw e q
      | inr e ↦ rw e ((take_counted-Leads m vm_id socket_path label).at w (q, ground arith))
    ]

pub take_snapshot_keeps :
    (m : VmManager) (vm_id : String) (label : Option String)
    → Preserves (OfSnapshots AtMostTwo) (take_snapshot m vm_id label)
unfolding take_snapshot require_vm count_snapshots get_vm
take_snapshot_keeps m vm_id label = Preserves-bind _ _ (search (preserve_rules)) (λ vm.
    Preserves-bind _ _ (Keeps-refuse_if (OfSnapshots AtMostTwo) _ _) (λ _.
      Preserves-query_bind (OfSnapshots AtMostTwo) _ _ (take_if_room m vm_id vm.socket_path label)))
