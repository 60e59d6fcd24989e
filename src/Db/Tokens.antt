-- ===== src/Db/Tokens.antt =====
-- crates/db/src/lib.rs: the statements on `vm_auth_tokens`, `sessions`, `cli_auth_codes` and
-- `api_tokens`.
pub mod SingleUse
use spwn.Base.{
  ℕ, suc, String, ◌==◌, Bool, true, false, not, ◌&&◌, ◌||◌, Option, none, some, List, [], ◌∷◌, ◌++◌,
  map, length, select, find, any, update_where, if◌then◌else◌,
}
use spwn.Base.Int.{ℤ, ◌+ℤ◌, ltb_ℤ}
use spwn.Db.Rows.{
  Db, VmAuthToken, SessionRow, CliAuthCode, CodeStatus, pending, authorized, denied, ApiTokenRow,
  NewApiToken, AccountRow,
}
use spwn.Db.Vms.{has_id, is_none}
use spwn.Db.Quota.{is_account}
use spwn.World.{
  World, DbError, unique_violation, foreign_key_violation, Result, ok, Exec, Done, pure, ◌>>=◌,
  ◌>>◌, gets, new_v4, transact, query, update, constrained,
}

abbrev pub unknown_account : String → Db → Bool
unknown_account account_id d = is_none (find (is_account account_id) d.accounts)

unfoldable pub create_vm_auth_token : String → String → ℤ → Exec VmAuthToken
create_vm_auth_token account_id vm_id ttl_secs = do
  now ← gets (λ w. w.now)
  id ← new_v4
  constrained
      (λ d.
        if any (λ t. VmAuthToken.id t == id) d.vm_auth_tokens
        then some unique_violation
        else if unknown_account account_id d || is_none (find (has_id vm_id) d.vms)
        then some foreign_key_violation
        else none)
      (λ d. record d {
        vm_auth_tokens =
            d.vm_auth_tokens
            ++ record {
              id = id;
              account_id = account_id;
              vm_id = vm_id;
              expires_at = now +ℤ ttl_secs;
            }
              ∷ [];
      })
  pure (record { id = id; account_id = account_id; vm_id = vm_id; expires_at = now +ℤ ttl_secs })

-- WHERE id = $1 AND expires_at > $2
abbrev pub valid_token : String → ℤ → VmAuthToken → Bool
valid_token token_id now t = (t.id == token_id) && ltb_ℤ now t.expires_at

-- DELETE … RETURNING
unfoldable pub taken : String → ℤ → Db → Result (Option VmAuthToken) × Db
taken token_id now d = (
  ok (find (valid_token token_id now) d.vm_auth_tokens),
  record d { vm_auth_tokens = select (λ t. not (valid_token token_id now t)) d.vm_auth_tokens },
)

unfoldable pub consume_vm_auth_token : String → Exec (Option VmAuthToken)
unfolding taken
consume_vm_auth_token token_id = do now ← gets (λ w. w.now); transact (taken token_id now)

-- The number of rows deleted.
unfoldable pub prune_expired_vm_auth_tokens : Exec ℕ
prune_expired_vm_auth_tokens = do
  now ← gets (λ w. w.now)
  transact (λ d. (
    ok (length (select (λ t. ltb_ℤ (VmAuthToken.expires_at t) now) d.vm_auth_tokens)),
    record d {
      vm_auth_tokens = select (λ t. not (ltb_ℤ (VmAuthToken.expires_at t) now)) d.vm_auth_tokens;
    },
  ))

unfoldable pub create_session : SessionRow → Exec SessionRow
create_session session = do
  constrained
      (λ d.
        if any (λ s. SessionRow.id s == session.id) d.sessions
        then some unique_violation
        else if unknown_account session.account_id d
        then some foreign_key_violation
        else none)
      (λ d. record d { sessions = d.sessions ++ session ∷ [] })
  pure session

unfoldable pub get_session : String → Exec (Option SessionRow)
get_session id = query (λ d. find (λ s. SessionRow.id s == id) d.sessions)

unfoldable pub delete_session : String → Exec Done
delete_session id =
    update (λ d. record d { sessions = select (λ s. not (SessionRow.id s == id)) d.sessions })

unfoldable pub delete_expired_sessions : Exec ℕ
delete_expired_sessions = do
  now ← gets (λ w. w.now)
  transact (λ d. (
    ok (length (select (λ s. ltb_ℤ (SessionRow.expires_at s) now) d.sessions)),
    record d { sessions = select (λ s. not (ltb_ℤ (SessionRow.expires_at s) now)) d.sessions },
  ))

abbrev pub is_code : String → CliAuthCode → Bool
is_code code c = c.code == code

unfoldable pub create_cli_auth_code : String → ℤ → Exec Done
create_cli_auth_code code expires_at =
    constrained (λ d. if any (is_code code) d.cli_auth_codes then some unique_violation else none)
      (λ d. record d {
        cli_auth_codes =
            d.cli_auth_codes
            ++ record { code = code; account_id = none; status = pending; expires_at = expires_at }
              ∷ [];
      })

unfoldable pub get_cli_auth_code : String → Exec (Option CliAuthCode)
get_cli_auth_code code = query (λ d. find (is_code code) d.cli_auth_codes)

unfoldable pub update_codes : String → (CliAuthCode → CliAuthCode) → Db → Db
update_codes code f d = record d { cli_auth_codes = update_where (is_code code) f d.cli_auth_codes }

unfoldable pub authorize_cli_auth_code : String → String → Exec Done
unfolding update_codes
authorize_cli_auth_code code account_id =
    constrained
      (λ d.
        if any (is_code code) d.cli_auth_codes && unknown_account account_id d
        then some foreign_key_violation
        else none)
      (update_codes code (λ c. record c { status = authorized; account_id = some account_id }))

unfoldable pub deny_cli_auth_code : String → Exec Done
unfolding update_codes
deny_cli_auth_code code = update (update_codes code (λ c. record c { status = denied }))

unfoldable pub created_api_token : NewApiToken → ℤ → ApiTokenRow
created_api_token token now = record {
  id = token.id;
  account_id = token.account_id;
  token_hash = token.token_hash;
  name = token.name;
  created_at = now;
  last_used_at = none;
}

unfoldable pub create_api_token : NewApiToken → Exec ApiTokenRow
unfolding created_api_token
create_api_token token = do
  now ← gets (λ w. w.now)
  constrained
      (λ d.
        if any (λ t. (ApiTokenRow.id t == token.id) || (t.token_hash == token.token_hash))
          d.api_tokens
        then some unique_violation
        else if unknown_account token.account_id d
        then some foreign_key_violation
        else none)
      (λ d. record d { api_tokens = d.api_tokens ++ created_api_token token now ∷ [] })
  pure (created_api_token token now)

abbrev pub account_of : Option ApiTokenRow → Option String
account_of none = none
account_of (some t) = some t.account_id

unfoldable pub get_account_id_by_token_hash : String → Exec (Option String)
get_account_id_by_token_hash token_hash =
    query (λ d. account_of (find (λ t. ApiTokenRow.token_hash t == token_hash) d.api_tokens))

unfoldable pub touch_api_token : String → ℤ → Exec Done
touch_api_token token_hash now = update (λ d. record d {
  api_tokens =
      update_where (λ t. ApiTokenRow.token_hash t == token_hash)
        (λ t. record t { last_used_at = some now }) d.api_tokens;
})
