-- ===== src/ControlPlane/Resize/Grown.antt =====
-- crates/control-plane/src/ops.rs: what resize_resources does to the rows of the VMs.
use spwn.Base.{
  String, ◌≡◌, refl, sym, ap, subst, ◌⊎◌, inl, inr, Bool, true, false, ◌&&◌, ◌||◌, Option, none,
  some, find, arith,
}
use spwn.Base.Int.{ℤ, pos, negsuc, ltb_ℤ, ◌≤ℤ◌, ltb→≤ℤ}
use spwn.Db.Rows.{Db, VmRow, running, ◌is◌}
use spwn.Db.Vms.{has_id, get_vm, update_vm, update_vms, update_vm_resources}
use spwn.World.{World, Failure, sqlx, Result, ok, err, Done, after, pure, ok_or, refuse_if}
use spwn.World.Runs.{
  Setting, Runs, Runs-bind, Runs-pure, Runs-fail, Runs-query, Runs-update, Runs-weaken, runs_in,
}
use spwn.ControlPlane.Agents.{unknown_vm, known_vm}
use spwn.ControlPlane.Ops.{min_vcpus}
use spwn.ControlPlane.Ops.Starting.{ops_with}
use spwn.ControlPlane.CaddyRouter.{CaddyRouter}
use spwn.ControlPlane.Resize.{VmResourcePatch, some_and, or_old, differs, resize_resources}
use spwn.HostAgent.Manager.{VmManager}
use spwn.HostAgent.RowRules.{find-update_where}
use spwn.ControlPlane.Resize.Calls.{then_read}

-- What a row may become.
pub record Grown (v v' : VmRow) : Type 0 where
  pub same_status : v'.status ≡ v.status
  pub disk : v.disk_mb ≤ℤ v'.disk_mb
  pub while_running :
      ((v.status is running) ≡ false) ⊎ ((v'.memory_mb ≡ v.memory_mb) × (v'.disk_mb ≡ v.disk_mb))
  pub cpu : (v'.vcpus ≡ v.vcpus) ⊎ (min_vcpus ≤ℤ v'.vcpus)

abbrev GrownRow : String → VmRow → Db → Type 0
GrownRow id v d = (v' : VmRow) × (find (has_id id) d.vms ≡ some v') × Grown v v'

le_refl : (a : ℤ) → a ≤ℤ a
le_refl a = omega arith

ℤ_antisym : (a b : ℤ) → a ≤ℤ b → b ≤ℤ a → a ≡ b
ℤ_antisym (pos m) (pos n) h k = ap pos (omega arith)
ℤ_antisym (pos m) (negsuc n) h k = absurd (omega arith)
ℤ_antisym (negsuc m) (pos n) h k = absurd (omega arith)
ℤ_antisym (negsuc m) (negsuc n) h k = ap negsuc (omega arith)

and_false : (b : Bool) → (b && true) ≡ false → b ≡ false
and_false false e = refl
and_false true e = cc

or_false : (a b : Bool) → (a || b) ≡ false → (a ≡ false) × (b ≡ false)
or_false false b e = (refl, e)
or_false true b e = absurd cc

differs-same : (a b : ℤ) → differs a b ≡ false → a ≡ b
differs-same a b e =
    let (h, k) = or_false (ltb_ℤ a b) (ltb_ℤ b a) e in ℤ_antisym a b (ltb→≤ℤ b a k) (ltb→≤ℤ a b h)

-- The tests before the statement, for one value that may be given.
unless_differs :
    (o : Option ℤ) (a : ℤ) (r : Bool)
    → (some_and o (λ m. differs m a) && r) ≡ false
    → (r ≡ false) ⊎ (or_old o a ≡ a)
unless_differs none a r e = inr refl
unless_differs (some b) a true e = inr (differs-same b a (and_false (differs b a) e))
unless_differs (some b) a false e = inl refl

not_less : (o : Option ℤ) (a : ℤ) → some_and o (λ d. ltb_ℤ d a) ≡ false → a ≤ℤ or_old o a
not_less none a e = le_refl a
not_less (some b) a e = ground arith

old_or_enough :
    (o : Option ℤ) (a : ℤ)
    → some_and o (λ v. ltb_ℤ v min_vcpus) ≡ false
    → (or_old o a ≡ a) ⊎ (min_vcpus ≤ℤ or_old o a)
old_or_enough none a e = inl refl
old_or_enough (some b) a e = inr (still b min_vcpus e)
  where
    still : (b m : ℤ) → ltb_ℤ b m ≡ false → m ≤ℤ b
    still b m e = ground arith

both : {A B C : Type 0} → A ⊎ B → A ⊎ C → A ⊎ (B × C)
both (inl a) y = inl a
both (inr b) (inl a) = inl a
both (inr b) (inr x) = inr (b, x)

module _ (c : Setting) (d : Db) where
  Runs-refuse_if :
      (Q : Result Done → Db → Type 0) (b : Bool) (e : Failure)
      → (b ≡ false → Q (ok tt) d)
      → Q (err e) d
      → Runs c d (refuse_if b e) Q
  Runs-refuse_if Q true e go refused = Runs-fail c d _ e refused
  Runs-refuse_if Q false e go refused = Runs-pure c d _ tt (go refl)

  Runs-known_vm :
      (Q : Result VmRow → Db → Type 0) (id : String) (v : VmRow)
      → find (has_id id) d.vms ≡ some v
      → Q (ok v) d
      → ((e : Failure) → Q (err e) d)
      → Runs c d (known_vm id) Q
  unfolding known_vm get_vm ok_or pure
  Runs-known_vm Q id v found go failed = Runs-bind c d _ _ _ (
      Runs-query c d _ _
        (subst (λ o. Runs c d (ok_or o unknown_vm) Q) (sym found) (Runs-pure c d _ v go))
        (λ x q. failed (sqlx x)))

  resize_resources-Grown :
      (caddy : CaddyRouter) (base_domain : String) (m : VmManager) (id : String)
      (patch : VmResourcePatch) (v : VmRow)
      → find (has_id id) d.vms ≡ some v
      → Runs c d
          (resize_resources (ops_with caddy base_domain m) id patch)
          (λ r d'. GrownRow id v d')
  unfolding resize_resources update_vm_resources update_vm update_vms
  resize_resources-Grown caddy base_domain m id patch v found =
      let same : GrownRow id v d = (
        v,
        found,
        record {
          same_status = refl;
          disk = le_refl v.disk_mb;
          while_running = inr (refl, refl);
          cpu = inl refl;
        },
      ) in
      let row : VmRow = record v {
        vcpus = or_old patch.vcpus v.vcpus;
        memory_mb = or_old patch.memory_mb v.memory_mb;
        disk_mb = or_old patch.disk_mb v.disk_mb;
        bandwidth_mbps = or_old patch.bandwidth_mbps v.bandwidth_mbps;
      } in
      Runs-bind c d _ _ _ (
        Runs-known_vm _ id v found
          (Runs-bind c d _ _ _ (
            Runs-refuse_if _ _ _
              (λ memory. Runs-bind c d _ _ _ (
                Runs-refuse_if _ _ _
                  (λ disk. Runs-bind c d _ _ _ (
                    Runs-refuse_if _ _ _
                      (λ shrunk. Runs-bind c d _ _ _ (
                        Runs-refuse_if _ _ _
                          (λ cpu. Runs-bind c d _ _ _ (
                            Runs-update c d _ _
                              (Runs-weaken c _ _ _ _
                                (λ r d' (kept, h). subst (GrownRow id v) (sym kept) (
                                  row,
                                  find-update_where id _ (λ u. refl) d.vms v found,
                                  record {
                                    same_status = refl;
                                    disk = not_less patch.disk_mb v.disk_mb shrunk;
                                    while_running =
                                        both (unless_differs _ _ _ memory)
                                          (unless_differs _ _ _ disk);
                                    cpu = old_or_enough patch.vcpus v.vcpus cpu;
                                  },
                                ))
                                (then_read c _ m caddy base_domain id
                                  ((v.status is running)
                                    && some_and patch.vcpus (λ n. differs n v.vcpus))
                                  ((v.status is running)
                                    && some_and patch.bandwidth_mbps
                                        (λ n. differs n v.bandwidth_mbps))
                                  (or_old patch.vcpus v.vcpus)
                                  (or_old patch.bandwidth_mbps v.bandwidth_mbps) _))
                              (λ x q. same)))
                          same))
                      same))
                  same))
              same))
          (λ e. same))

-- With the agents of crates/host-agent, and whatever fails on the way, a resize leaves the row of
-- the VM with its status and with no smaller a disk; with its memory and its disk as they were, if
-- the VM runs; and with its old number of processors, or one that is not below the minimum.
pub resize_resources_grows :
    (caddy : CaddyRouter) (base_domain : String) (m : VmManager) (id : String)
    (patch : VmResourcePatch) (v : VmRow) (w : World)
    → find (has_id id) w.db.vms ≡ some v
    → (v' : VmRow) × (find
          (has_id id)
          (after (resize_resources (ops_with caddy base_domain m) id patch) w).db.vms
        ≡ some v')
      × Grown v v'
resize_resources_grows caddy base_domain m id patch v w found =
    runs_in (resize_resources (ops_with caddy base_domain m) id patch) _ w
      (resize_resources-Grown _ w.db caddy base_domain m id patch v found)
