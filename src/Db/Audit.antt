-- ===== src/Db/Audit.antt =====
-- crates/db/src/lib.rs: the audit log, and the list of regions.
use spwn.Base.{
  ℕ, suc, String, Bool, true, false, ◌==◌, Option, none, some, List, [], ◌∷◌, select, take,
  if◌then◌else◌,
}
use spwn.Base.Int.{ℤ, pos, negsuc, ltb_ℤ}
use spwn.Db.Json.{Json}
use spwn.Db.Rows.{Db, AuditEntry}
use spwn.Db.Tokens.{unknown_account}
use spwn.World.{
  foreign_key_violation, out_of_range, sqlx, Exec, Done, fail, ◌>>=◌, gets, query, constrained,
}

-- The id is a serial number: one more than the newest entry's.
abbrev next_entry_id : List AuditEntry → ℕ
next_entry_id [] = 1
next_entry_id (e ∷ es) = suc e.id

unfoldable pub write_audit :
    String → String → String → Option String → Option Json → Option String → Exec Done
write_audit account_id action resource resource_id detail ip = do
  now ← gets (λ w. w.now)
  constrained (λ d. if unknown_account account_id d then some foreign_key_violation else none)
      (λ d. record d {
        audit_log =
            record {
              id = next_entry_id d.audit_log;
              account_id = account_id;
              action = action;
              resource = resource;
              resource_id = resource_id;
              detail = detail;
              ip = ip;
              created_at = now;
            }
            ∷ d.audit_log;
      })

abbrev before_entry : Option ℤ → AuditEntry → Bool
before_entry none e = true
before_entry (some before) e = ltb_ℤ (pos e.id) before

-- LIMIT n, which refuses a negative number
abbrev limited : ℤ → (Db → List AuditEntry) → Exec (List AuditEntry)
limited (pos n) rows = query (λ d. take n (rows d))
limited (negsuc n) rows = fail (sqlx out_of_range)

-- ORDER BY id DESC LIMIT n, over a table that is kept newest first
unfoldable pub list_audit : String → ℤ → Option ℤ → Exec (List AuditEntry)
list_audit account_id limit before = limited limit (λ d.
    select (λ e. if before_entry before e then AuditEntry.account_id e == account_id else false)
      d.audit_log)

unfoldable pub list_audit_admin : ℤ → Option ℤ → Exec (List AuditEntry)
list_audit_admin limit before = limited limit (λ d. select (before_entry before) d.audit_log)
