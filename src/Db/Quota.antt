-- ===== src/Db/Quota.antt =====
-- crates/db/src/lib.rs: check_quota_and_reserve, a serializable transaction. Its statements may fail
-- one by one, and its write is seen from the commit on. QuotaError::Exceeded is `quota_exceeded`,
-- QuotaError::Db is `sqlx`, and QuotaError::Serialization is `serialization_conflict`.
pub mod Totals
pub mod Limits
use spwn.Base.{
  String, ◌==◌, Bool, true, false, ◌&&◌, ◌||◌, Option, none, some, List, [], ◌∷◌, length, select,
  find, if◌then◌else◌,
}
use spwn.Base.Int.{ℤ, pos, ◌+ℤ◌, ltb_ℤ, leb_ℤ, wrap_i32, fits_i32, wrap_i64, fits_i64}
use spwn.Db.Rows.{Db, starting, running, ◌is◌, VmRow, AccountRow}
use spwn.Db.Vms.{update_vms}
use spwn.World.{
  DbError, unavailable, unique_violation, foreign_key_violation, serialization, out_of_range,
  Failure, sqlx, quota_exceeded, serialization_conflict, Result, ok, err, Exec, Done, fail, ok_or,
  ◌>>=◌, ◌>>◌, query, on_option,
}

abbrev pub is_account : String → AccountRow → Bool
is_account id a = a.id == id

-- WHERE account_id = $1 AND status IN ('running','starting')
abbrev pub counts : String → VmRow → Bool
counts account_id v = (v.account_id == account_id) && (v.status is running || v.status is starting)

-- COALESCE(SUM(…), 0)
unfoldable pub total : (VmRow → ℤ) → List VmRow → ℤ
total f [] = pos 0
total f (v ∷ vs) = f v +ℤ total f vs

abbrev pub counted : String → Db → List VmRow
counted account_id d = select (counts account_id) d.vms

abbrev pub one : VmRow → ℤ
one v = pos 1

unfoldable pub used_vcpus : String → Db → ℤ
unfolding total
used_vcpus account_id d = total (λ v. v.vcpus) (counted account_id d)

unfoldable pub used_mem : String → Db → ℤ
unfolding total
used_mem account_id d = total (λ v. v.memory_mb) (counted account_id d)

-- COUNT(*)
unfoldable pub used_vms : String → Db → ℤ
unfolding total
used_vms account_id d = total one (counted account_id d)

pub record Usage : Type 0 where
  pub vcpus : ℤ
  pub mem : ℤ
  pub vms : ℤ

-- `::bigint` and `::int` refuse a sum or a count that is out of their range.
unfoldable pub checked_usage : String → Db → Option Usage
unfolding used_vcpus used_mem used_vms
checked_usage account_id d =
    if fits_i64 (used_vcpus account_id d)
      && (fits_i32 (used_mem account_id d) && fits_i32 (used_vms account_id d))
    then some (record {
      vcpus = used_vcpus account_id d;
      mem = used_mem account_id d;
      vms = used_vms account_id d;
    })
    else none

-- The three tests, in order. `used_vcpus + vcpus` is an i64 sum and `used_mem + mem_mb` an i32 sum.
unfoldable pub exceeded : AccountRow → Usage → ℤ → ℤ → Option Failure
exceeded account used vcpus mem_mb =
    if leb_ℤ account.vm_limit used.vms
    then some (quota_exceeded "vm limit reached")
    else if ltb_ℤ account.vcpu_limit (wrap_i64 (used.vcpus +ℤ vcpus))
    then some (quota_exceeded "vcpu limit would be exceeded")
    else if ltb_ℤ account.mem_limit_mb (wrap_i32 (used.mem +ℤ mem_mb))
    then some (quota_exceeded "memory limit would be exceeded")
    else none

abbrev pub reserved : VmRow → VmRow
reserved v = record v { status = starting }

-- A statement of the transaction that returns no rows.
unfoldable pub statement : Exec Done
statement = query (λ d. tt)

-- Only the commit's error is looked at for a serialization failure.
unfoldable pub commit_failure : DbError → Failure
commit_failure serialization = serialization_conflict
commit_failure unavailable = sqlx unavailable
commit_failure unique_violation = sqlx unique_violation
commit_failure foreign_key_violation = sqlx foreign_key_violation
commit_failure out_of_range = sqlx out_of_range

abbrev pub commit_on : List (Option DbError) → (Db → Db) → Exec Done
commit_on [] f w = (ok tt, record w { db = f w.db })
commit_on (none ∷ rest) f w = (ok tt, record w { db = f w.db; faults = rest })
commit_on (some e ∷ rest) f w = (err (commit_failure e), record w { faults = rest })

-- COMMIT, with what the transaction has written.
unfoldable pub commit : (Db → Db) → Exec Done
unfolding commit_failure
commit f w = commit_on w.faults f w

unfoldable pub check_quota_and_reserve : String → String → ℤ → ℤ → Exec Done
unfolding update_vms checked_usage exceeded statement commit
check_quota_and_reserve account_id vm_id vcpus mem_mb = do
  statement  -- BEGIN
  statement  -- SET TRANSACTION ISOLATION LEVEL SERIALIZABLE
  account_row ← query (λ d. find (is_account account_id) d.accounts)
  account ← ok_or account_row (quota_exceeded "account not found")
  usage_row ← query (checked_usage account_id)
  used ← ok_or usage_row (sqlx out_of_range)
  on_option (exceeded account used vcpus mem_mb) fail (do
    statement  -- UPDATE vms SET status='starting'
    commit (update_vms vm_id reserved))
