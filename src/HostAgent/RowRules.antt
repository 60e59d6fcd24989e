-- ===== src/HostAgent/RowRules.antt =====
-- crates/host-agent/src/manager: what the statements on a VM do to its row.
use spwn.Base.{
  String, ◌==◌, ◌≡◌, refl, ◌∙◌, ap, true, Option, none, some, List, [], ◌∷◌, find, update_where,
  inl, inr, Bool-cases,
}
use mathlib.Core.Option.{some-injective}
use spwn.Base.Int.{ℤ}
use spwn.Db.Rows.{
  Db, VmRow, VmStatus, stopped, starting, running, stopping, snapshotting, error, ◌is◌,
}
use spwn.Db.Vms.{
  has_id, get_vm, update_vms, update_vm, set_vm_status, set_vm_running, set_vm_stopped,
}
use spwn.Db.Hosts.{log_event}
use spwn.World.{
  pure, and_then, World, Exec, Done, DbError, Failure, Result, ok, err, ◌>>=◌, result, after, ok_or,
  query, transact, with_fault, attempt, on_result,
}
use spwn.World.Outcomes.{ok-injective}
use spwn.World.Preserves.{
  Preserves, Preserves-gets, Preserves-bind, Preserves-update, Preserves-constrained,
}
use spwn.World.Ensures.{
  Ensures, Ensures-from, Ensures-bind, Ensures-then, Ensures-update, Ensures-pure, Ensures-fail,
}
use spwn.HostAgent.Manager.{vm_not_found}
use spwn.HostAgent.Frame.{frame_rules}
use spwn.HostAgent.Lifecycle.{require_vm, or_set_error}
use spwn.HostAgent.Teardown.{stop_inner}

-- There is a row with the id, and it satisfies `S`.
abbrev pub RowWith : String → (VmRow → Type 0) → Db → Type 0
RowWith id S d = (v : VmRow) × (find (has_id id) d.vms ≡ some v) × S v

abbrev pub AnyRow : VmRow → Type 0
AnyRow v = Unit {0}

pub find-update_where :
    (id : String) (f : VmRow → VmRow)
    → ((v : VmRow) → VmRow.id (f v) ≡ v.id)
    → (vs : List VmRow) (v : VmRow) → find (has_id id) vs ≡ some v
    → find (has_id id) (update_where (has_id id) f vs) ≡ some (f v)
unfolding find update_where
find-update_where id f same [] v h = cc
find-update_where id f same (x ∷ xs) v h = elim (Bool-cases (has_id id x)) [
  | inl e ↦
      let hit : has_id id (f x) ≡ true = ap (λ i. i == id) (same x) ∙ e in
      rw (e, hit) (ap (λ u. some (f u)) (some-injective x v (rw e at h)))
  | inr e ↦ rw (e, e) (find-update_where id f same xs v (rw e at h))
]

module _ (id : String) where
  Ensures-update_vm :
      (S T : VmRow → Type 0) (f : VmRow → VmRow)
      → ((v : VmRow) → VmRow.id (f v) ≡ v.id)
      → ((v : VmRow) → S v → T (f v))
      → Ensures (RowWith id S) (RowWith id T) (update_vm id f)
  unfolding update_vm update_vms
  Ensures-update_vm S T f same k =
      Ensures-update (update_vms id f)
        (λ d (v, found, sv). (f v, find-update_where id f same d.vms v found, k v sv))

  pub RowWith-log_event :
      (S : VmRow → Type 0) (vm_id event : String) (metadata : Option String)
      → Preserves (RowWith id S) (log_event vm_id event metadata)
  unfolding log_event
  RowWith-log_event S vm_id event metadata =
      Preserves-bind _ _ (Preserves-gets _) (λ now. Preserves-constrained _ _ (λ d q. q))

  pub AnyRow-set_vm_status :
      (status : VmStatus) → Preserves (RowWith id AnyRow) (set_vm_status id status)
  unfolding set_vm_status update_vm update_vms
  AnyRow-set_vm_status status = Preserves-update _ (λ d (v, found, any). (
    record v { status = status },
    find-update_where id (λ u. record u { status = status }) (λ u. refl) d.vms v found,
    tt,
  ))

  set_vm_stopped-Ensures :
      Ensures (RowWith id AnyRow) (RowWith id (λ v. v.status ≡ stopped)) (set_vm_stopped id)
  unfolding set_vm_stopped
  set_vm_stopped-Ensures =
      Ensures-update_vm AnyRow (λ v. v.status ≡ stopped) _ (λ v. refl) (λ v s. refl)

  pub set_vm_running-Ensures :
      (pid : ℤ) (tap socket : String)
      → Ensures
          (RowWith id AnyRow)
          (RowWith id (λ v. v.status ≡ running))
          (set_vm_running id pid tap socket)
  unfolding set_vm_running
  set_vm_running-Ensures pid tap socket =
      Ensures-bind _ _ (Preserves-gets _)
        (λ now. Ensures-update_vm AnyRow (λ v. v.status ≡ running) _ (λ v. refl) (λ v s. refl))

  ok_or-found :
      (e : Failure) (w : World) (o : Option VmRow) (v : VmRow)
      → find (has_id id) w.db.vms ≡ o
      → (ok_or o e w).0 ≡ ok v
      → find (has_id id) (ok_or o e w).1.db.vms ≡ some v
  unfolding ok_or
  ok_or-found e w none v same h = cc
  ok_or-found e w (some u) v same h = same ∙ ap some (ok-injective u v h)

  pub with_fault-found :
      (fs : List (Option DbError)) (e : Failure) (w : World) (v : VmRow)
      → (let (r, w') = with_fault fs (λ d. (ok (find (has_id id) d.vms), d)) w in
          and_then r (λ o. ok_or o e) w').0
        ≡ ok v
      → find
          (has_id id)
          (let (r, w') = with_fault fs (λ d. (ok (find (has_id id) d.vms), d)) w in
            and_then r (λ o. ok_or o e) w').1.db.vms
        ≡ some v
  with_fault-found [] e w v h = ok_or-found e w (find (has_id id) w.db.vms) v refl h
  with_fault-found (none ∷ rest) e w v h =
      ok_or-found e (record w { faults = rest }) (find (has_id id) w.db.vms) v refl h
  with_fault-found (some x ∷ rest) e w v h = cc

  -- The row that `require_vm` returns is the VM's.
  pub require_vm-found :
      (w : World) (v : VmRow)
      → result (require_vm id) w ≡ ok v
      → find (has_id id) (after (require_vm id) w).db.vms ≡ some v
  unfolding require_vm ◌>>=◌ get_vm query transact
  require_vm-found w v h = with_fault-found w.faults (vm_not_found id) w v h

  pub stop_inner-Ensures :
      (vm : VmRow)
      → Ensures (RowWith id AnyRow) (RowWith id (λ v. v.status ≡ stopped)) (stop_inner id vm)
  unfolding stop_inner
  stop_inner-Ensures vm = Ensures-bind _ _ (search (frame_rules, AnyRow-set_vm_status)) (λ _.
      Ensures-bind _ _ (search frame_rules) (λ is_running.
        Ensures-bind _ _ (search frame_rules) (λ _. Ensures-bind _ _ (search frame_rules) (λ _.
          Ensures-bind _ _ (search frame_rules) (λ _.
            Ensures-then _ _ set_vm_stopped-Ensures
              (λ _. search (frame_rules, RowWith-log_event)))))))

pub is-stopped : (s : VmStatus) → (s is stopped) ≡ true → s ≡ stopped
is-stopped stopped h = refl
is-stopped starting h = cc
is-stopped running h = cc
is-stopped stopping h = cc
is-stopped snapshotting h = cc
is-stopped error h = cc

pub unit-Preserves : {A : Type 0} (m : Exec A) → Preserves (λ d. Unit {0}) m
unit-Preserves m = record { at = λ w u. tt }

abbrev pub IfOk : (Db → Type 0) → Result Done → Db → Type 0
IfOk R (ok a) d = R d
IfOk R (err e) d = Unit

module _ (P R : Db → Type 0) where
  pub attempt-IfOk :
      (m : Exec Done)
      → Ensures P R m
      → (w : World) → P w.db
      → (r : Result Done) → (attempt m w).0 ≡ ok r
      → IfOk R r (attempt m w).1.db
  unfolding attempt
  attempt-IfOk m k w p (ok a) h = k.at w p a (ok-injective (m w).0 (ok a) h)
  attempt-IfOk m k w p (err e) h = tt

  on_result-Ensures :
      (r : Result Done) (f : Failure → Exec Done)
      → ((e : Failure) → Ensures (λ d. Unit {0}) R (f e))
      → Ensures (IfOk R r) R (on_result r (λ _. pure tt) f)
  unfolding on_result
  on_result-Ensures (ok a) f k = Ensures-pure tt (λ d p. p)
  on_result-Ensures (err e) f k = k e

  pub or_set_error-Ensures :
      (vm_id : String) (m : Exec Done) → Ensures P R m → Ensures P R (or_set_error vm_id m)
  unfolding or_set_error
  or_set_error-Ensures vm_id m k =
      Ensures-from P (IfOk R) R _ _ (attempt-IfOk m k) (λ r.
        on_result-Ensures r _ (λ e. Ensures-bind _ _ (unit-Preserves _) (λ _. Ensures-fail e)))
