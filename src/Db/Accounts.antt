-- ===== src/Db/Accounts.antt =====
-- crates/db/src/lib.rs: the statements on `accounts`, and the change of a user name with the
-- subdomains that end in it.
use spwn.Base.{
  ℕ, String, ◌==◌, Bool, not, ◌&&◌, ◌||◌, Option, none, some, List, [], ◌∷◌, ◌++◌, select, find,
  any, update_where, if◌then◌else◌,
}
use spwn.Base.Int.{pos}
use spwn.Base.Text.{◌&◌, strip_suffix}
use spwn.Db.Rows.{Db, AccountRow, NewAccount, AuthMode, password, VmRow}
use spwn.Db.Quota.{is_account}
use spwn.Db.Vms.{has_id}
use spwn.World.{
  unique_violation, Result, ok, err, sqlx, Exec, Done, pure, ◌>>◌, query, update, transact,
  constrained,
}

-- The row that the schema's defaults give.
unfoldable pub inserted_account : NewAccount → AccountRow
inserted_account account = record {
  id = account.id;
  email = account.email;
  password_hash = account.password_hash;
  username = account.username;
  display_name = none;
  avatar_bytes = none;
  theme = "catppuccin";
  vcpu_limit = pos 8000;
  mem_limit_mb = pos 12288;
  vm_limit = pos 5;
  created_at = account.created_at;
  role = "user";
  auth_mode = password;
}

abbrev pub account_taken : NewAccount → Db → Bool
account_taken account d =
    any
      (λ a.
        (AccountRow.id a == account.id)
        || ((a.email == account.email) || (a.username == account.username)))
      d.accounts

-- The row returned has another theme than the one inserted.
unfoldable pub create_account : NewAccount → Exec AccountRow
unfolding inserted_account
create_account account = do
  constrained (λ d. if account_taken account d then some unique_violation else none)
      (λ d. record d { accounts = d.accounts ++ inserted_account account ∷ [] })
  pure (record (inserted_account account) { theme = "catppuccin-latte" })

unfoldable pub update_accounts : String → (AccountRow → AccountRow) → Db → Db
update_accounts id f d = record d { accounts = update_where (is_account id) f d.accounts }

unfoldable pub set_account_auth_mode : String → AuthMode → Exec Done
unfolding update_accounts
set_account_auth_mode account_id mode =
    update (update_accounts account_id (λ a. record a { auth_mode = mode }))

unfoldable pub get_account_by_email : String → Exec (Option AccountRow)
get_account_by_email email = query (λ d. find (λ a. AccountRow.email a == email) d.accounts)

unfoldable pub get_account_by_username : String → Exec (Option AccountRow)
get_account_by_username username =
    query (λ d. find (λ a. AccountRow.username a == username) d.accounts)

unfoldable pub get_account : String → Exec (Option AccountRow)
get_account id = query (λ d. find (is_account id) d.accounts)

unfoldable pub update_theme : String → String → Exec Done
unfolding update_accounts
update_theme id theme = update (update_accounts id (λ a. record a { theme = theme }))

unfoldable pub update_account_profile : String → Option String → Option (List ℕ) → Exec Done
unfolding update_accounts
update_account_profile id display_name avatar_bytes = update (
    update_accounts id (λ a. record a { display_name = display_name; avatar_bytes = avatar_bytes }))

unfoldable pub update_account_display_name : String → Option String → Exec Done
unfolding update_accounts
update_account_display_name id display_name =
    update (update_accounts id (λ a. record a { display_name = display_name }))

unfoldable pub update_account_avatar : String → List ℕ → Exec Done
unfolding update_accounts
update_account_avatar id avatar_bytes =
    update (update_accounts id (λ a. record a { avatar_bytes = some avatar_bytes }))

pub record UsernameUpdate : Type 0 where
  pub old_username : String
  pub new_username : String

pub record RenamedSubdomain : Type 0 where
  pub vm_id : String
  pub old_subdomain : String
  pub new_subdomain : String

with_owner : Option String → String → String → String
with_owner none old_subdomain new_username = old_subdomain
with_owner (some vm_name) old_subdomain new_username = vm_name & "." & new_username

-- A subdomain that ends in the old user name ends in the new one.
unfoldable pub renamed_subdomain : UsernameUpdate → String → String
unfolding with_owner
renamed_subdomain update old_subdomain =
    with_owner (strip_suffix ("." & update.old_username) old_subdomain) old_subdomain
      update.new_username

-- UPDATE vms SET subdomain, under the constraint that subdomains differ
abbrev pub with_subdomain : String → String → List VmRow → Option (List VmRow)
with_subdomain vm_id subdomain vms =
    if any (λ v. not (v.id == vm_id) && (VmRow.subdomain v == subdomain)) vms
    then none
    else some (update_where (has_id vm_id) (λ v. record v { subdomain = subdomain }) vms)

abbrev on_some {ℓ} : {A B : Type ℓ} → Option A → (A → Option B) → Option B
on_some none f = none
on_some (some a) f = f a

abbrev and_renamed :
    RenamedSubdomain
    → Option (List RenamedSubdomain × List VmRow)
    → Option (List RenamedSubdomain × List VmRow)
and_renamed r none = none
and_renamed r (some (rs, vms)) = some (r ∷ rs, vms)

-- The loop over the account's VMs; the second list is the table.
unfoldable pub rename_all :
    UsernameUpdate → List VmRow → List VmRow → Option (List RenamedSubdomain × List VmRow)
unfolding renamed_subdomain
rename_all update [] table = some ([], table)
rename_all update (vm ∷ vms) table =
    let unchanged = rename_all update vms table in
    let renamed =
      on_some (with_subdomain vm.id (renamed_subdomain update vm.subdomain) table) (λ table'.
        and_renamed
          (record {
            vm_id = vm.id;
            old_subdomain = vm.subdomain;
            new_subdomain = renamed_subdomain update vm.subdomain;
          })
          (rename_all update vms table')) in
    if renamed_subdomain update vm.subdomain == vm.subdomain then unchanged else renamed

-- The end of a transaction: what it has written, or the tables as they were.
abbrev committed :
    Db → Db → Option (List RenamedSubdomain × List VmRow) → Result (List RenamedSubdomain) × Db
committed before written none = (err (sqlx unique_violation), before)
committed before written (some (renamed, vms)) = (ok renamed, record written { vms = vms })

-- The transaction, which is rolled back when a statement is refused.
unfoldable pub username_updated : String → UsernameUpdate → Db → Result (List RenamedSubdomain) × Db
unfolding rename_all update_accounts
username_updated account_id update d =
    let outcome =
      if any (λ a. not (AccountRow.id a == account_id) && (a.username == update.new_username))
        d.accounts
      then none
      else rename_all update (select (λ v. VmRow.account_id v == account_id) d.vms) d.vms in
    committed d (update_accounts account_id (λ a. record a { username = update.new_username }) d)
      outcome

unfoldable pub update_username : String → UsernameUpdate → Exec (List RenamedSubdomain)
unfolding username_updated
update_username account_id update = transact (username_updated account_id update)
