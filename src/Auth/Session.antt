-- ===== src/Auth/Session.antt =====
-- auth/src/session.rs: the account that a request comes from.
pub mod Sound
use spwn.Base.{ℕ, String, ◌==◌, not, Option, none, some, if◌then◌else◌}
use spwn.Base.Int.{ℤ, ltb_ℤ}
use spwn.Base.Text.{strip_prefix}
use spwn.Db.Rows.{SessionRow, AccountRow}
use spwn.Db.Tokens.{get_session, get_account_id_by_token_hash, touch_api_token}
use spwn.Db.Accounts.{get_account}
use spwn.World.{
  Result, ok, err, Exec, Done, pure, ◌>>=◌, ◌>>◌, attempt, ignore, on_result, on_option, gets,
}
use spwn.Auth.Http.{Headers, Crypto}

-- The outcome of an extractor: the account's id, or the status of the rejection.
pub data Identity : Type 0 where
  account : String → Identity
  rejected : ℕ → Identity

abbrev pub identity_of : ℤ → Option SessionRow → Identity
identity_of now none = rejected 401
identity_of now (some session) =
    if ltb_ℤ session.expires_at now then rejected 401 else account session.account_id

unfoldable pub by_session : String → Exec Identity
by_session session_id = do
  now ← gets (λ w. w.now)
  r ← attempt (get_session session_id)
  on_result r (λ session. pure (identity_of now session)) (λ e. pure (rejected 500))

-- `if let Ok(Some(…))`
abbrev pub found : {A : Type 0} → Result (Option A) → Option A
found (ok a) = a
found (err e) = none

-- The token's last use is written by a task of its own: here it is written at once.
unfoldable pub by_token : Crypto → String → Exec Identity
unfolding by_session
by_token crypto raw_token = do
  now ← gets (λ w. w.now)
  r ← attempt (get_account_id_by_token_hash (crypto.sha256_hex raw_token))
  on_option (found r)
      (λ account_id. do
        ignore (touch_api_token (crypto.sha256_hex raw_token) now)
        pure (account account_id))
      (by_session raw_token)

unfoldable pub account_id : Crypto → Headers → Exec Identity
unfolding by_session by_token
account_id crypto headers = on_option headers.session_cookie by_session (
    on_option headers.authorization
      (λ auth. on_option (strip_prefix "Bearer " auth) (by_token crypto) (pure (rejected 401)))
      (pure (rejected 401)))

admin_of : String → Option AccountRow → Identity
admin_of id none = rejected 401
admin_of id (some a) = if not (a.role == "superadmin") then rejected 403 else account id

admin_check : Identity → Exec Identity
unfolding admin_of
admin_check (rejected code) = pure (rejected code)
admin_check (account id) = do
  r ← attempt (get_account id)
  on_result r (λ a. pure (admin_of id a)) (λ e. pure (rejected 500))

-- AdminId
unfoldable pub admin_id : Crypto → Headers → Exec Identity
unfolding account_id admin_check
admin_id crypto headers = do who ← account_id crypto headers; admin_check who
