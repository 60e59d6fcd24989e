-- ===== src/Db/Quota/Limits.antt =====
-- crates/db/src/lib.rs: the VMs that check_quota_and_reserve lets in are those that leave their
-- account within its limits.
use spwn.Base.{
  String, ◌==◌, ◌≡◌, refl, sym, subst, Bool, true, false, Option, none, some, List, [], ◌∷◌, find,
  arith, if◌then◌else◌,
}
use mathlib.Core.Option.{some-injective}
use spwn.Base.Int.{ℤ, pos, ◌+ℤ◌, ◌≤ℤ◌, IsI32, IsI64, wrap_i32_in_range, wrap_i64_in_range, +ℤ_parts}
use spwn.Db.Rows.{Db, VmRow, AccountRow}
use spwn.Db.Vms.{has_id, update_vms}
use spwn.Db.Quota.{
  one, is_account, counts, used_vcpus, used_mem, used_vms, Usage, exceeded, reserved, checked_usage,
  statement, commit_on, commit, check_quota_and_reserve,
}
use spwn.World.{DbError, ok, World, Done, result, after, ok_or, on_option, query, transact, ◌>>=◌}
use spwn.World.Ensures.{Ensures, Ensures-query, Ensures-ok_or, Ensures-on_option, Ensures-fail}
use spwn.Db.Quota.Totals.{DistinctIds, total-reserved}

pub record WithinQuota (account : AccountRow) (account_id : String) (d : Db) : Type 0 where
  pub vms_within : used_vms account_id d ≤ℤ account.vm_limit
  pub vcpus_within : used_vcpus account_id d ≤ℤ account.vcpu_limit
  pub mem_within : used_mem account_id d ≤ℤ account.mem_limit_mb

-- What the three tests let through.
exceeded-none :
    (a : AccountRow) (used : Usage) (vcpus mem_mb : ℤ)
    → IsI64 (used.vcpus +ℤ vcpus)
    → IsI32 (used.mem +ℤ mem_mb)
    → exceeded a used vcpus mem_mb ≡ none
    → ((used.vms +ℤ pos 1) ≤ℤ a.vm_limit)
      × ((used.vcpus +ℤ vcpus) ≤ℤ a.vcpu_limit)
      × ((used.mem +ℤ mem_mb) ≤ℤ a.mem_limit_mb)
unfolding exceeded
exceeded-none a used vcpus mem_mb fits_vcpus fits_mem h = (
  ground (arith, +ℤ_parts used.vms (pos 1)),
  ground (arith, wrap_i64_in_range (used.vcpus +ℤ vcpus) fits_vcpus),
  ground (arith, wrap_i32_in_range (used.mem +ℤ mem_mb) fits_mem),
)

within-exceeded :
    (a : AccountRow) (used : Usage) (vcpus mem_mb : ℤ)
    → IsI64 (used.vcpus +ℤ vcpus)
    → IsI32 (used.mem +ℤ mem_mb)
    → (used.vms +ℤ pos 1) ≤ℤ a.vm_limit
    → (used.vcpus +ℤ vcpus) ≤ℤ a.vcpu_limit
    → (used.mem +ℤ mem_mb) ≤ℤ a.mem_limit_mb
    → exceeded a used vcpus mem_mb ≡ none
unfolding exceeded
within-exceeded a used vcpus mem_mb fits_vcpus fits_mem vms cpus mem = ground (
  arith,
  +ℤ_parts used.vms (pos 1),
  wrap_i64_in_range (used.vcpus +ℤ vcpus) fits_vcpus,
  wrap_i32_in_range (used.mem +ℤ mem_mb) fits_mem,
)

abbrev usage : String → Db → Usage
usage account_id d = record {
  vcpus = used_vcpus account_id d;
  mem = used_mem account_id d;
  vms = used_vms account_id d;
}

guarded-some : {A : Type 0} (b : Bool) (x y : A) → (if b then some x else none) ≡ some y → x ≡ y
guarded-some true x y h = some-injective x y h
guarded-some false x y h = cc

checked_usage-some :
    (account_id : String) (d : Db) (u : Usage)
    → checked_usage account_id d ≡ some u
    → usage account_id d ≡ u
unfolding checked_usage
checked_usage-some account_id d u h = guarded-some _ (usage account_id d) u h

checked_usage-fits :
    (account_id : String) (d : Db)
    → IsI64 (used_vcpus account_id d)
    → IsI32 (used_mem account_id d)
    → IsI32 (used_vms account_id d)
    → checked_usage account_id d ≡ some (usage account_id d)
unfolding checked_usage
checked_usage-fits account_id d vcpus mem vms = ground arith

commit_on-Ensures :
    (P R : Db → Type 0) (fs : List (Option DbError)) (f : Db → Db)
    → ((d : Db) → P d → R (f d))
    → (w : World) → P w.db
    → (a : Done) → (commit_on fs f w).0 ≡ ok a
    → R (commit_on fs f w).1.db
commit_on-Ensures P R [] f k w p a h = k w.db p
commit_on-Ensures P R (none ∷ rest) f k w p a h = k w.db p
commit_on-Ensures P R (some e ∷ rest) f k w p a h = cc

commit-Ensures :
    {P R : Db → Type 0} (f : Db → Db) → ((d : Db) → P d → R (f d)) → Ensures P R (commit f)
unfolding commit
commit-Ensures {P} {R} f k = record { at = λ w p a h. commit_on-Ensures P R w.faults f k w p a h }

-- The usage after a reservation.
module _ (account_id vm_id : String) (v : VmRow) (d : Db) (distinct : DistinctIds d.vms)
    (found : find (has_id vm_id) d.vms ≡ some v) (mine : (v.account_id == account_id) ≡ true)
    (off : counts account_id v ≡ false) where
  used_vms-reserved :
      used_vms account_id (update_vms vm_id reserved d) ≡ used_vms account_id d +ℤ pos 1
  unfolding used_vms update_vms
  used_vms-reserved = total-reserved one account_id vm_id v d.vms refl distinct found mine off

  used_vcpus-reserved :
      used_vcpus account_id (update_vms vm_id reserved d) ≡ used_vcpus account_id d +ℤ v.vcpus
  unfolding used_vcpus update_vms
  used_vcpus-reserved =
      total-reserved (λ u. u.vcpus) account_id vm_id v d.vms refl distinct found mine off

  used_mem-reserved :
      used_mem account_id (update_vms vm_id reserved d) ≡ used_mem account_id d +ℤ v.memory_mb
  unfolding used_mem update_vms
  used_mem-reserved =
      total-reserved (λ u. u.memory_mb) account_id vm_id v d.vms refl distinct found mine off

  WithinQuota-reserved :
      (a : AccountRow) (u : Usage)
      → IsI64 (used_vcpus account_id d +ℤ v.vcpus)
      → IsI32 (used_mem account_id d +ℤ v.memory_mb)
      → checked_usage account_id d ≡ some u
      → exceeded a u v.vcpus v.memory_mb ≡ none
      → WithinQuota a account_id (update_vms vm_id reserved d)
  WithinQuota-reserved a u fits_vcpus fits_mem counted passed =
      let (vms, vcpus, mem) =
        exceeded-none a (usage account_id d) v.vcpus v.memory_mb fits_vcpus fits_mem (
          subst (λ x. exceeded a x v.vcpus v.memory_mb ≡ none)
            (sym (checked_usage-some account_id d u counted)) passed) in
      record {
        vms_within = rw used_vms-reserved vms;
        vcpus_within = rw used_vcpus-reserved vcpus;
        mem_within = rw used_mem-reserved mem;
      }

  exceeded-reserved :
      (a : AccountRow)
      → IsI64 (used_vcpus account_id d +ℤ v.vcpus)
      → IsI32 (used_mem account_id d +ℤ v.memory_mb)
      → WithinQuota a account_id (update_vms vm_id reserved d)
      → exceeded a (usage account_id d) v.vcpus v.memory_mb ≡ none
  exceeded-reserved a fits_vcpus fits_mem within =
      within-exceeded a (usage account_id d) v.vcpus v.memory_mb fits_vcpus fits_mem
        (rw used_vms-reserved at within.vms_within) (rw used_vcpus-reserved at within.vcpus_within)
        (rw used_mem-reserved at within.mem_within)

  abbrev LetIn : Db → Type 0
  LetIn d' =
      (a : AccountRow) × (find (is_account account_id) d.accounts ≡ some a)
      × WithinQuota a account_id d'

  check_quota_and_reserve-LetIn :
      IsI64 (used_vcpus account_id d +ℤ v.vcpus)
      → IsI32 (used_mem account_id d +ℤ v.memory_mb)
      → Ensures (λ d'. d' ≡ d) LetIn (check_quota_and_reserve account_id vm_id v.vcpus v.memory_mb)
  unfolding check_quota_and_reserve statement
  check_quota_and_reserve-LetIn fits_vcpus fits_mem = Ensures-query d _ _ (
      Ensures-query d _ _ (
        Ensures-query d _ _ (
          Ensures-ok_or _ _ _ (λ a is_a. Ensures-query d _ _ (
            Ensures-ok_or _ _ _ (λ u counted.
              Ensures-on_option _ _ _ (λ e refused. Ensures-fail e)
                (λ passed. Ensures-query d _ _ (
                  commit-Ensures _ (λ d' same. (
                    a,
                    is_a,
                    subst (λ x. WithinQuota a account_id (update_vms vm_id reserved x)) (sym same)
                        (WithinQuota-reserved a u fits_vcpus fits_mem counted passed),
                  ))))))))))

-- When a stopped VM of the account is let in at its own size, the account exists and its running
-- and starting VMs, the new one among them, are within its three limits, whatever statements fail
-- on the way. The sum of the virtual CPUs must fit an i64 and the sum of the memory an i32, and ids
-- must be distinct.
pub check_quota_and_reserve-WithinQuota :
    (account_id vm_id : String) (v : VmRow) (w : World)
    → DistinctIds w.db.vms
    → find (has_id vm_id) w.db.vms ≡ some v
    → (v.account_id == account_id) ≡ true
    → counts account_id v ≡ false
    → IsI64 (used_vcpus account_id w.db +ℤ v.vcpus)
    → IsI32 (used_mem account_id w.db +ℤ v.memory_mb)
    → result (check_quota_and_reserve account_id vm_id v.vcpus v.memory_mb) w ≡ ok tt
    → (a : AccountRow) × (find (is_account account_id) w.db.accounts ≡ some a)
      × WithinQuota a account_id
          (after (check_quota_and_reserve account_id vm_id v.vcpus v.memory_mb) w).db
check_quota_and_reserve-WithinQuota account_id vm_id v w distinct found mine off cpus mem h =
    (check_quota_and_reserve-LetIn account_id vm_id v w.db distinct found mine off cpus mem).at w
      refl tt h

-- No VM is refused without need. When every statement is answered, the account exists, its usage
-- and the two sums are in range, and its three limits would still be kept with the stopped VM
-- counted in, the VM is let in, and all that changes is that its row is `starting`.
pub check_quota_and_reserve_lets_in :
    (account_id vm_id : String) (v : VmRow) (a : AccountRow) (w : World)
    → w.faults ≡ []
    → DistinctIds w.db.vms
    → find (has_id vm_id) w.db.vms ≡ some v
    → (v.account_id == account_id) ≡ true
    → counts account_id v ≡ false
    → find (is_account account_id) w.db.accounts ≡ some a
    → IsI64 (used_vcpus account_id w.db)
    → IsI32 (used_mem account_id w.db)
    → IsI32 (used_vms account_id w.db)
    → IsI64 (used_vcpus account_id w.db +ℤ v.vcpus)
    → IsI32 (used_mem account_id w.db +ℤ v.memory_mb)
    → WithinQuota a account_id (update_vms vm_id reserved w.db)
    → check_quota_and_reserve account_id vm_id v.vcpus v.memory_mb w
      ≡ (ok tt, record w { db = update_vms vm_id reserved w.db })
unfolding check_quota_and_reserve statement query transact commit ok_or on_option ◌>>=◌
check_quota_and_reserve_lets_in account_id vm_id v a w quiet distinct found mine off is_a vcpus mem
      vms cpu_sum mem_sum within =
    rw
      (
        quiet,
        is_a,
        checked_usage-fits account_id w.db vcpus mem vms,
        exceeded-reserved account_id vm_id v w.db distinct found mine off a cpu_sum mem_sum within,
      )
      refl
