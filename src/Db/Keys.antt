-- ===== src/Db/Keys.antt =====
-- crates/db/src/lib.rs: the statements on `ssh_keys`.
use spwn.Base.{
  String, ◌==◌, Bool, not, ◌&&◌, ◌||◌, Option, none, some, List, [], ◌∷◌, ◌++◌, select, find, any,
  if◌then◌else◌,
}
use spwn.Base.Sort.{sort_by_key}
use spwn.Db.Rows.{SshKeyRow}
use spwn.Db.Tokens.{unknown_account}
use spwn.World.{
  unique_violation, foreign_key_violation, ok, Exec, pure, ◌>>=◌, ◌>>◌, gets, new_v4, query,
  transact, constrained,
}

unfoldable pub add_ssh_key : String → String → String → String → Exec SshKeyRow
add_ssh_key account_id name public_key fingerprint = do
  id ← new_v4
  now ← gets (λ w. w.now)
  let key : SshKeyRow = record {
    id = id;
    account_id = account_id;
    name = name;
    public_key = public_key;
    fingerprint = fingerprint;
    created_at = now;
  }
  constrained
      (λ d.
        if any (λ k. (SshKeyRow.id k == id) || (k.fingerprint == fingerprint)) d.ssh_keys
        then some unique_violation
        else if unknown_account account_id d
        then some foreign_key_violation
        else none)
      (λ d. record d { ssh_keys = d.ssh_keys ++ key ∷ [] })
  pure key

unfoldable pub list_ssh_keys : String → Exec (List SshKeyRow)
list_ssh_keys account_id = query (λ d.
    sort_by_key (λ k. SshKeyRow.created_at k)
      (select (λ k. SshKeyRow.account_id k == account_id) d.ssh_keys))

-- Whether a row was deleted.
unfoldable pub delete_ssh_key : String → String → Exec Bool
delete_ssh_key id account_id = transact (λ d. (
  ok (any (λ k. (SshKeyRow.id k == id) && (k.account_id == account_id)) d.ssh_keys),
  record d {
    ssh_keys =
        select (λ k. not ((SshKeyRow.id k == id) && (k.account_id == account_id))) d.ssh_keys;
  },
))

abbrev owner_of : Option SshKeyRow → Option String
owner_of none = none
owner_of (some k) = some k.account_id

unfoldable pub get_account_id_by_key_fingerprint : String → Exec (Option String)
get_account_id_by_key_fingerprint fingerprint =
    query (λ d. owner_of (find (λ k. SshKeyRow.fingerprint k == fingerprint) d.ssh_keys))
