-- ===== src/ControlPlane/Migration/Refusal.antt =====
-- Migration with the agents of crates/host-agent: the snapshot is asked for when the VM does not run.
use spwn.Base.{
  String, ◌≡◌, refl, sym, ap, ◌∙◌, Bool, true, false, not, Option, some, find, inl, inr, Bool-cases,
  subst,
}
use spwn.Db.Rows.{Db, VmRow, HostRow, SnapshotRow, NewVmMigration, stopped, running, ◌is◌}
use spwn.Db.Vms.{has_id, get_vm}
use spwn.Db.Hosts.{create_vm_migration, get_host}
use spwn.World.{
  and_then, external, message, World, Exec, Done, Failure, Result, ok, err, result, after, pure,
  fail, refuse_if, attempt, on_result, ◌>>=◌, query, transact,
}
use spwn.World.Preserves.{
  Preserves, Preserves-gets, Preserves-bind, Preserves-pure, Preserves-constrained,
}
use spwn.World.Ensures.{
  Ensures, Ensures-from, Ensures-bind, Ensures-then, Ensures-pure, Ensures-fail,
}
use mathlib.Core.Option.{some-injective}
use spwn.HostAgent.Frame.{frame_rules, Keeps-require_vm}
use spwn.HostAgent.Manager.{VmManager}
use spwn.HostAgent.Lifecycle
use spwn.HostAgent.Outcomes.{Found, stop-Ensures}
use spwn.HostAgent.RowRules.{
  RowWith, IfOk, attempt-IfOk, require_vm-found, with_fault-found, unit-Preserves,
}
use spwn.World.Outcomes.{ok-injective}
use spwn.HostAgent.Snapshot.{take_snapshot}
use spwn.HostAgent.Teardown.{stop}
use spwn.HostAgent.Service.{service, label_of, snapshot_reply}
use spwn.ControlPlane.Agents
use spwn.ControlPlane.Agents.{Agents, AgentService, connect, known_host}
use spwn.ControlPlane.Migration.{migrate_vm, stop_if_running, or_mark_failed}

abbrev NotRunning : VmRow → Type 0
NotRunning v = (v.status is running) ≡ false

-- No success.
abbrev Never : Db → Type 0
Never d = ⊥

refuse-Never :
    {B : Type 0} (P : Db → Type 0) (b : Bool) (e : Failure) (f : Done → Exec B)
    → b ≡ true
    → Ensures P Never (refuse_if b e >>= f)
unfolding ◌>>=◌ fail
refuse-Never P b e f same = record { at = λ w p a h. cc }

module _ (vm_id : String) where
  row_is :
      (S : VmRow → Type 0) (v : VmRow) (d : Db)
      → RowWith vm_id S d
      → find (has_id vm_id) d.vms ≡ some v
      → S v
  row_is S v d (u, found, s) same = subst S (some-injective u v (sym found ∙ same)) s

  take_snapshot-Never :
      (m : VmManager) (label : Option String)
      → Ensures (RowWith vm_id NotRunning) Never (take_snapshot m vm_id label)
  unfolding take_snapshot
  take_snapshot-Never m label =
      Ensures-from (RowWith vm_id NotRunning) (λ v d. NotRunning v) Never _ _
        (λ w row v h.
          row_is NotRunning v (after (Lifecycle.require_vm vm_id) w).db
            ((Keeps-require_vm (RowWith vm_id NotRunning) vm_id).at w row)
            (require_vm-found vm_id w v h))
        (λ v. record {
          at = λ w p a h. (refuse-Never (λ d. Unit {0}) _ _ _ (ap not p)).at w tt a h;
        })

  -- The reply of a call that never succeeds is no success.
  abbrev Refused : {A : Type 0} → Result A → Db → Type 0
  Refused (ok a) d = ⊥
  Refused (err e) d = Unit

  attempt-Refused :
      {A : Type 0} (P : Db → Type 0) (m : Exec A)
      → Ensures P Never m
      → (w : World) → P w.db
      → (r : Result A) → (attempt m w).0 ≡ ok r
      → Refused r (attempt m w).1.db
  unfolding attempt
  attempt-Refused P m k w p (ok a) h = k.at w p a (ok-injective (m w).0 (ok a) h)
  attempt-Refused P m k w p (err e) h = tt

  snapshot_reply-Refused :
      (r : Result SnapshotRow) (d : Db) → Refused r d → Refused (snapshot_reply r) d
  snapshot_reply-Refused (ok snap) d h = h
  snapshot_reply-Refused (err e) d h = tt

  or_mark_failed-Never :
      {A : Type 0} (migration_id what : String) (r : Result A)
      → Ensures (Refused r) Never (or_mark_failed migration_id what r)
  unfolding or_mark_failed on_result
  or_mark_failed-Never migration_id what (ok a) = record { at = λ w p b h. p }
  or_mark_failed-Never migration_id what (err e) =
      Ensures-bind _ _ (unit-Preserves _) (λ _. Ensures-fail _)

  -- The request for the snapshot and what is done with its reply.
  snapshot_reply-Never :
      (m : VmManager) (label : Option String) (w : World)
      → RowWith vm_id NotRunning w.db
      → (r : Result String) → ((service m).take_snapshot vm_id label w).0 ≡ ok r
      → Refused r ((service m).take_snapshot vm_id label w).1.db
  unfolding service ◌>>=◌ attempt pure
  snapshot_reply-Never m label w row r h =
      let taken = take_snapshot m vm_id (label_of label) w in
      let refused : Refused taken.0 taken.1.db =
        attempt-Refused (RowWith vm_id NotRunning) (take_snapshot m vm_id (label_of label))
          (take_snapshot-Never m (label_of label)) w row taken.0 refl in
      subst (λ x. Refused x taken.1.db) (ok-injective (snapshot_reply taken.0) r h)
        (snapshot_reply-Refused taken.0 taken.1.db refused)

  snapshot_step-Never :
      {B : Type 0} (m : VmManager) (label : Option String) (migration_id : String)
      (f : String → Exec B)
      → Ensures (RowWith vm_id NotRunning) Never (
          (service m).take_snapshot vm_id label
          >>= (λ r. or_mark_failed migration_id "take_snapshot failed" r >>= f))
  snapshot_step-Never m label migration_id f =
      Ensures-from (RowWith vm_id NotRunning) Refused Never _ _ (snapshot_reply-Never m label) (λ r.
        Ensures-then _ _ (or_mark_failed-Never migration_id "take_snapshot failed" r)
          (λ _. record { at = λ w p. absurd p }))

  or_mark_failed-IfOk :
      (migration_id what : String) (R : Db → Type 0) (r : Result Done)
      → Ensures (IfOk R r) R (or_mark_failed migration_id what r)
  unfolding or_mark_failed on_result
  or_mark_failed-IfOk migration_id what R (ok a) = Ensures-pure _ (λ d p. p)
  or_mark_failed-IfOk migration_id what R (err e) =
      Ensures-bind _ _ (unit-Preserves _) (λ _. Ensures-fail _)

  stopped-NotRunning :
      (d : Db) → RowWith vm_id (λ v. v.status ≡ stopped) d → RowWith vm_id NotRunning d
  stopped-NotRunning d (v, found, is_stopped) = (v, found, ap (λ s. s is running) is_stopped)

  stop_if_running-Ensures :
      (m : VmManager) (v : VmRow) (migration_id : String)
      → Ensures
          (Found vm_id v)
          (RowWith vm_id NotRunning)
          (stop_if_running (service m) v vm_id migration_id)
  unfolding stop_if_running service
  stop_if_running-Ensures m v migration_id = elim (Bool-cases (v.status is running)) [
    | inl e ↦ rw e (
        Ensures-from (Found vm_id v) (IfOk (RowWith vm_id NotRunning)) (RowWith vm_id NotRunning) _
          _
          (attempt-IfOk (Found vm_id v) (RowWith vm_id NotRunning) (stop vm_id) (record {
            at = λ w p a h.
                stopped-NotRunning (after (stop vm_id) w).db ((stop-Ensures vm_id).at w tt a h);
          }))
          (λ r. or_mark_failed-IfOk migration_id "stop_vm failed" (RowWith vm_id NotRunning) r))
    | inr e ↦ rw e (Ensures-pure _ (λ d found. (v, found, e)))
  ]

  Keeps-create_vm_migration :
      (v : VmRow) (m : NewVmMigration) → Preserves (Found vm_id v) (create_vm_migration m)
  unfolding create_vm_migration
  Keeps-create_vm_migration v m =
      Preserves-bind _ _ (Preserves-gets _)
        (λ now. Preserves-bind _ _ (Preserves-constrained _ _ (λ d q. q)) (λ _. Preserves-pure _))

  pub require-Found :
      (w : World) (v : VmRow)
      → result (Agents.known_vm vm_id) w ≡ ok v
      → find (has_id vm_id) (after (Agents.known_vm vm_id) w).db.vms ≡ some v
  unfolding Agents.known_vm ◌>>=◌ get_vm query transact
  require-Found w v h = with_fault-found vm_id w.faults Agents.unknown_vm w v h

  stop_then-Never :
      (m : VmManager) (v : VmRow) (migration_id : String) (f : String → Exec Done)
      → Ensures (Found vm_id v) Never (
          stop_if_running (service m) v vm_id migration_id >>= (λ _.
            (service m).take_snapshot vm_id (some "migration")
            >>= (λ r. or_mark_failed migration_id "take_snapshot failed" r >>= f)))
  stop_then-Never m v migration_id f =
      Ensures-from (Found vm_id v) (λ _. RowWith vm_id NotRunning) Never _ _
        (λ w p a h. (stop_if_running-Ensures m v migration_id).at w p a h)
        (λ _. snapshot_step-Never m (some "migration") migration_id f)

  connected_value :
      (m : VmManager) (r : Result Done) (w : World) (agent : AgentService)
      → (and_then r (λ _. pure (service m)) w).0 ≡ ok agent
      → agent ≡ service m
  unfolding pure
  connected_value m (ok a) w agent h = sym (ok-injective (service m) agent h)
  connected_value m (err e) w agent h = cc

  -- The agent that a connection yields.
  pub connect-service :
      (m : VmManager) (host : HostRow) (w : World) (agent : AgentService)
      → (connect (λ h. service m) host w).0 ≡ ok agent
      → agent ≡ service m
  unfolding connect ◌>>=◌
  connect-service m host w agent h =
      connected_value m (external (message "agent channel") w).0
        (external (message "agent channel") w).1 agent h

  Keeps-connect :
      (v : VmRow) (agents : Agents) (host : HostRow)
      → Preserves (Found vm_id v) (connect agents host)
  unfolding connect
  Keeps-connect v agents host = search frame_rules

  connected-Never :
      (m : VmManager) (v : VmRow) (host : HostRow) (migration_id : String)
      (f : AgentService → String → Exec Done)
      → Ensures (Found vm_id v) Never (
          connect (λ h. service m) host >>= (λ agent.
            stop_if_running agent v vm_id migration_id >>= (λ _.
              agent.take_snapshot vm_id (some "migration")
              >>= (λ r. or_mark_failed migration_id "take_snapshot failed" r >>= f agent))))
  connected-Never m v host migration_id f =
      Ensures-from (Found vm_id v) (λ agent d. (agent ≡ service m) × Found vm_id v d) Never _ _
        (λ w found agent h.
          (connect-service m host w agent h, (Keeps-connect v (λ h. service m) host).at w found))
        (λ agent. record {
          at = λ w (same, found) a h.
              (subst
                  (λ ag. Ensures (Found vm_id v) Never (
                    stop_if_running ag v vm_id migration_id >>= (λ _.
                      ag.take_snapshot vm_id (some "migration")
                      >>= (λ r. or_mark_failed migration_id "take_snapshot failed" r >>= f ag))))
                  (sym same) (stop_then-Never m v migration_id (f (service m)))).at
                w found a h;
        })

  migrate_vm-Never :
      (m : VmManager) (target : String)
      → Ensures (λ d. Unit {0}) Never (migrate_vm (λ host. service m) vm_id target)
  unfolding migrate_vm known_host get_host
  migrate_vm-Never m target =
      Ensures-from (λ d. Unit {0}) (Found vm_id) Never _ _ (λ w p v h. require-Found w v h)
        (λ v. Ensures-bind _ _ (search frame_rules) (λ src_host_id.
          Ensures-bind _ _ (search frame_rules) (λ _.
            Ensures-bind _ _ (search frame_rules) (λ src_host.
              Ensures-bind _ _ (search frame_rules) (λ tgt_host.
                Ensures-bind _ _ (search frame_rules) (λ migration_id.
                  Ensures-bind _ _ (Keeps-create_vm_migration v _)
                    (λ _. connected-Never m v src_host migration_id _)))))))

-- With the agents of crates/host-agent a migration never succeeds, whatever the VM's status: the VM
-- is stopped first, and a VM that does not run is refused the snapshot.
pub migrate_vm_refused :
    (m : VmManager) (vm_id target_host_id : String) (w : World)
    → ¬ (result (migrate_vm (λ host. service m) vm_id target_host_id) w ≡ ok tt)
migrate_vm_refused m vm_id target_host_id w h =
    (migrate_vm-Never vm_id m target_host_id).at w tt tt h
