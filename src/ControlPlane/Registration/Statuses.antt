-- ===== src/ControlPlane/Registration/Statuses.antt =====
-- What a heartbeat does to the status of a VM.
use spwn.Base.{
  String, ◌==◌, ◌≡◌, refl, sym, ap, ◌∙◌, subst, ◌⊎◌, inl, inr, Bool, true, false, Option, none,
  some, List, [], ◌∷◌, All, find, select, update_where, Bool-cases, find_satisfies, eq_iff,
  if◌then◌else◌,
}
use mathlib.Core.Option.{some-injective}
use spwn.Base.Int.{ℤ}
use spwn.Db.Rows.{Db, VmRow, VmStatus, stopped, starting, running, stopping, snapshotting, error}
use spwn.Db.Vms.{has_id, has_host, get_vms_by_host, update_vm, update_vms, set_vm_status}
use spwn.Db.Hosts.{log_event, update_host_heartbeat, update_hosts, get_host}
use spwn.Db.Quota.Totals.{DistinctIds}
use spwn.World.{
  World, CaddyCall, Exec, Done, DbError, Result, ok, err, after, pure, attempt, ignore, on_result,
  ◌>>◌, query, transact, with_fault,
}
use spwn.World.Preserves.{
  Preserves, Preserves-bind, Preserves-gets, Preserves-update, Preserves-constrained,
  Preserves-ignore, Preserves-attempt, Preserves-modify, preserve_rules,
}
use spwn.World.Leads.{Leads, Leads-bind, Leads-then, Leads-from, Leads-Preserves}
use spwn.HostAgent.RowRules.{RowWith}
use spwn.World.Outcomes.{ok-injective}
use spwn.ControlPlane.CaddyRouter.{CaddyRouter, CaddyClient, request}
use spwn.ControlPlane.Registration.{
  IdSet, contains, Cache, same_set, cached, reconcile_as, reconcile_all, reconcile_found,
  reconcile_from_heartbeat, heartbeat,
}

-- The status that the database should have, by whether the heartbeat lists the VM.
abbrev pub expected : VmStatus → Bool → VmStatus
expected running false = error
expected stopped true = running
expected error true = running
expected s _ = s

module _ (f : VmRow → VmRow) (same : (v : VmRow) → VmRow.id (f v) ≡ v.id) where
  has_id-if : (id : String) (b : Bool) (x : VmRow) → has_id id (if b then f x else x) ≡ has_id id x
  has_id-if id true x = ap (λ i. i == id) (same x)
  has_id-if id false x = refl

  find-update_where :
      (id j : String) (vs : List VmRow) (v : VmRow)
      → find (has_id id) vs ≡ some v
      → find (has_id id) (update_where (has_id j) f vs) ≡ some (if has_id j v then f v else v)
  unfolding find update_where
  find-update_where id j [] v h = cc
  find-update_where id j (x ∷ xs) v h = elim (Bool-cases (has_id id x)) [
    | inl e ↦
        rw (has_id-if id (has_id j x) x, e)
          (ap (λ u. some (if has_id j u then f u else u)) (some-injective x v (rw e at h)))
    | inr e ↦ rw (has_id-if id (has_id j x) x, e) (find-update_where id j xs v (rw e at h))
  ]

module _ (ids : IdSet) (id : String) (s : VmStatus) where
  -- The status is the old one or the one expected.
  abbrev pub Settled : VmRow → Type 0
  Settled v = (v.status ≡ s) ⊎ (v.status ≡ expected s (contains ids id))

  abbrev Q : Db → Type 0
  Q = RowWith id Settled

  after_update :
      (j : String) (t : VmStatus) (v : VmRow)
      → (v.id ≡ id)
      → (j ≡ id → t ≡ expected s (contains ids id))
      → Settled v
      → Settled (if has_id j v then record v { status = t } else v)
  after_update j t v own k sv = elim (Bool-cases (has_id j v)) [
    | inl e ↦ rw e (inr (k (sym ((eq_iff v.id j).0 e) ∙ own)))
    | inr e ↦ rw e sv
  ]

  set_vm_status-Settled :
      (j : String) (t : VmStatus)
      → (j ≡ id → t ≡ expected s (contains ids id))
      → Preserves Q (set_vm_status j t)
  unfolding set_vm_status update_vm update_vms
  set_vm_status-Settled j t k = Preserves-update _ (λ d (v, found, sv). (
    if has_id j v then record v { status = t } else v,
    find-update_where (λ u. record u { status = t }) (λ u. refl) id j d.vms v found,
    after_update j t v ((eq_iff v.id id).0 (find_satisfies (has_id id) d.vms v found)) k sv,
  ))

  Keeps-log_event :
      (vm_id event : String) (metadata : Option String)
      → Preserves Q (log_event vm_id event metadata)
  unfolding log_event
  Keeps-log_event vm_id event metadata =
      Preserves-bind _ _ (Preserves-gets _) (λ now. Preserves-constrained _ _ (λ d q. q))

  Keeps-request : (call : CaddyCall) → Preserves Q (request call)
  unfolding request
  Keeps-request call =
      Preserves-bind _ _ (search preserve_rules) (λ _. Preserves-modify _ (λ w q. q))

  ruleset round_rules = (preserve_rules, Keeps-log_event, Keeps-request)

  same_expected :
      (t : VmStatus) (b : Bool)
      → (t ≡ s) × (b ≡ contains ids id)
      → expected t b ≡ expected s (contains ids id)
  same_expected t b (p, q) = ap (λ x. expected x b) p ∙ ap (expected s) q

  correct-Settled :
      (vm : VmRow) (t : VmStatus) (event : String) (call : CaddyCall)
      → (vm.id ≡ id → t ≡ expected s (contains ids id))
      → Preserves Q (do
        ignore (set_vm_status vm.id t)
        ignore (log_event vm.id event none)
        ignore (request call))
  correct-Settled vm t event call k =
      Preserves-bind _ _ (Preserves-ignore _ (set_vm_status-Settled vm.id t k))
        (λ _. search round_rules)

  reconcile_as-Settled :
      (base_domain : String) (client : CaddyClient) (vm : VmRow) (t : VmStatus) (b : Bool)
      → (vm.id ≡ id → (t ≡ s) × (b ≡ contains ids id))
      → Preserves Q (reconcile_as base_domain client vm t b)
  unfolding reconcile_as
  reconcile_as-Settled base_domain client vm running false k =
      correct-Settled vm error _ _ (λ e. same_expected running false (k e))
  reconcile_as-Settled base_domain client vm running true k = search round_rules depth 20
  reconcile_as-Settled base_domain client vm stopped true k =
      correct-Settled vm running _ _ (λ e. same_expected stopped true (k e))
  reconcile_as-Settled base_domain client vm error true k =
      correct-Settled vm running _ _ (λ e. same_expected error true (k e))
  reconcile_as-Settled base_domain client vm stopped false k = search round_rules
  reconcile_as-Settled base_domain client vm error false k = search round_rules
  reconcile_as-Settled base_domain client vm starting b k = search round_rules
  reconcile_as-Settled base_domain client vm stopping b k = search round_rules
  reconcile_as-Settled base_domain client vm snapshotting b k = search round_rules

  -- The rows that the loop goes through agree with the table on the VM's status.
  abbrev Agree : List VmRow → Type 0
  Agree vms = All (λ v. VmRow.id v ≡ id → v.status ≡ s) vms

  reconcile_all-Settled :
      (base_domain : String) (client : CaddyClient) (vms : List VmRow)
      → Agree vms
      → Preserves Q (reconcile_all base_domain client ids vms)
  unfolding reconcile_all
  reconcile_all-Settled base_domain client [] all = search round_rules
  reconcile_all-Settled base_domain client (v ∷ vms) all =
      Preserves-bind _ _
        (reconcile_as-Settled base_domain client v v.status (contains ids v.id)
          (λ e. (all.0 e, ap (contains ids) e)))
        (λ _. reconcile_all-Settled base_domain client vms all.1)

  abbrev Before : Db → Type 0
  Before d = DistinctIds d.vms × ((v : VmRow) × (find (has_id id) d.vms ≡ some v) × (v.status ≡ s))

  Before-Q : (d : Db) → Before d → Q d
  Before-Q d (distinct, (v, found, is_s)) = (v, found, inl is_s)

  Agree-others :
      (x : VmRow) (vs : List VmRow)
      → has_id id x ≡ true
      → All (λ u. has_id (VmRow.id x) u ≡ false) vs
      → Agree vs
  Agree-others x [] e all = tt
  Agree-others x (u ∷ vs) e all = (
    (λ own. cc (all.0, (eq_iff u.id x.id).1 (own ∙ sym ((eq_iff (VmRow.id x) id).0 e)))),
    Agree-others x vs e all.1,
  )

  DistinctIds-Agree :
      (vs : List VmRow) (v : VmRow)
      → DistinctIds vs
      → find (has_id id) vs ≡ some v
      → v.status ≡ s
      → Agree vs
  unfolding find
  DistinctIds-Agree [] v distinct found is_s = tt
  DistinctIds-Agree (x ∷ xs) v distinct found is_s = elim (Bool-cases (has_id id x)) [
    | inl e ↦
        let here : x ≡ v = some-injective x v (rw e at found) in
        ((λ own. ap (λ u. VmRow.status u) here ∙ is_s), Agree-others x xs e distinct.0)
    | inr e ↦ (
      (λ own. cc (e, (eq_iff x.id id).1 own)),
      DistinctIds-Agree xs v distinct.1 (rw e at found) is_s,
    )
  ]

  Agree-select : (p : VmRow → Bool) (vs : List VmRow) → Agree vs → Agree (select p vs)
  unfolding select
  Agree-select p [] all = tt
  Agree-select p (x ∷ xs) all = elim (Bool-cases (p x)) [
    | inl e ↦ rw e (all.0, Agree-select p xs all.1)
    | inr e ↦ rw e (Agree-select p xs all.1)
  ]

  abbrev AgreeIfOk : Result (List VmRow) → Type 0
  AgreeIfOk (ok vms) = Agree vms
  AgreeIfOk (err e) = Unit

  fetched_by :
      (fs : List (Option DbError)) (host_id : String) (w : World)
      → Before w.db
      → AgreeIfOk (with_fault fs (λ d. (ok (select (has_host host_id) d.vms), d)) w).0
  fetched_by [] host_id w (distinct, (v, found, is_s)) =
      Agree-select (has_host host_id) w.db.vms (DistinctIds-Agree w.db.vms v distinct found is_s)
  fetched_by (none ∷ rest) host_id w (distinct, (v, found, is_s)) =
      Agree-select (has_host host_id) w.db.vms (DistinctIds-Agree w.db.vms v distinct found is_s)
  fetched_by (some e ∷ rest) host_id w before = tt

  fetched :
      (host_id : String) (w : World)
      → Before w.db
      → (r : Result (List VmRow)) → (attempt (get_vms_by_host host_id) w).0 ≡ ok r
      → AgreeIfOk r
  unfolding attempt get_vms_by_host query transact
  fetched host_id w before r h =
      subst AgreeIfOk
        (ok-injective (with_fault w.faults (λ d. (ok (select (has_host host_id) d.vms), d)) w).0 r
          h)
        (fetched_by w.faults host_id w before)

  get_vms_by_host-Before : (host_id : String) → Preserves Before (get_vms_by_host host_id)
  unfolding get_vms_by_host
  get_vms_by_host-Before host_id = search preserve_rules

  update_host_heartbeat-Before :
      (host_id : String) (vcpu_used mem_used_mb : ℤ)
      → Preserves Before (update_host_heartbeat host_id vcpu_used mem_used_mb)
  unfolding update_host_heartbeat update_hosts
  update_host_heartbeat-Before host_id vcpu_used mem_used_mb =
      Preserves-bind _ _ (Preserves-gets _) (λ now. Preserves-update _ (λ d q. q))

  reconcile_found-Settled :
      (router : CaddyRouter) (base_domain host_id : String) (vms : List VmRow)
      → Agree vms
      → Preserves Q (reconcile_found router base_domain host_id ids vms)
  unfolding reconcile_found get_host
  reconcile_found-Settled router base_domain host_id vms agree =
      Preserves-bind _ _ (search preserve_rules)
        (λ host. reconcile_all-Settled base_domain _ vms agree)

  on_answer-Leads :
      (f : List VmRow → Exec Done)
      → ((vms : List VmRow) → Agree vms → Preserves Q (f vms))
      → (r : Result (List VmRow)) → AgreeIfOk r
      → Leads Before Q (on_result r f (λ _. pure tt))
  unfolding on_result
  on_answer-Leads f k (ok vms) agree = Leads-Preserves _ Before-Q (k vms agree)
  on_answer-Leads f k (err e) agree = Leads-Preserves _ Before-Q (search preserve_rules)

  reconcile_from_heartbeat-Leads :
      (router : CaddyRouter) (base_domain host_id : String)
      → Leads Before Q (reconcile_from_heartbeat router base_domain host_id ids)
  unfolding reconcile_from_heartbeat
  reconcile_from_heartbeat-Leads router base_domain host_id =
      Leads-from AgreeIfOk Before-Q _ _ (Preserves-attempt _ (get_vms_by_host-Before host_id))
        (fetched host_id)
        (on_answer-Leads (reconcile_found router base_domain host_id ids)
          (reconcile_found-Settled router base_domain host_id))

  heartbeat-Leads :
      (router : CaddyRouter) (base_domain : String) (cache : Cache) (host_id : String)
      (vcpu_used mem_used_mb : ℤ)
      → Leads Before Q (heartbeat router base_domain cache host_id vcpu_used mem_used_mb ids)
  unfolding heartbeat
  heartbeat-Leads router base_domain cache host_id vcpu_used mem_used_mb =
      Leads-bind Before-Q _ _
        (Preserves-ignore _ (update_host_heartbeat-Before host_id vcpu_used mem_used_mb))
        (λ _. elim (Bool-cases (same_set (cached host_id cache) ids)) [
          | inl e ↦ rw e (Leads-Preserves _ Before-Q (search preserve_rules))
          | inr e ↦ rw e (
              Leads-then _ _ (reconcile_from_heartbeat-Leads router base_domain host_id)
                (λ _. search preserve_rules))
        ])

-- Whatever fails, a heartbeat leaves a VM with the status it had or with the one that the heartbeat
-- tells: `error` for a running VM that it does not list, `running` for a stopped or failed VM that
-- it lists. A VM that is starting or stopping keeps its status. Ids are distinct.
pub heartbeat_settles :
    (router : CaddyRouter) (base_domain : String) (cache : Cache) (host_id : String)
    (vcpu_used mem_used_mb : ℤ) (running_vm_ids : IdSet) (vm_id : String) (v : VmRow) (w : World)
    → DistinctIds w.db.vms
    → find (has_id vm_id) w.db.vms ≡ some v
    → RowWith vm_id
        (λ u.
          (u.status ≡ v.status) ⊎ (u.status ≡ expected v.status (contains running_vm_ids vm_id)))
        (after
          (heartbeat router base_domain cache host_id vcpu_used mem_used_mb running_vm_ids)
          w).db
heartbeat_settles router base_domain cache host_id vcpu_used mem_used_mb ids vm_id v w distinct
      found =
    (heartbeat-Leads ids vm_id v.status router base_domain cache host_id vcpu_used mem_used_mb).at w
      (distinct, (v, found, refl))
