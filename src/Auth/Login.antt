-- ===== src/Auth/Login.antt =====
-- auth/src/routes.rs and password.rs: signing up, logging in with a password, logging out.
pub mod Sound
pub mod Entering
use spwn.Base.{String, ◌==◌, Bool, true, false, not, Option, none, some, [], ◌∷◌, if◌then◌else◌}
use spwn.Base.Int.{ℤ, pos, ◌+ℤ◌}
use spwn.Base.Text.Letters.{to_lowercase}
use spwn.Db.Json.{obj, field, end, str, bool}
use spwn.Db.Rows.{AccountRow, AuthMode, password, passkey, password_passkey}
use spwn.Db.Accounts.{get_account_by_email, create_account}
use spwn.Db.Tokens.{create_session, delete_session}
use spwn.Db.Passkeys.{create_pending_auth_token}
use spwn.World.{Exec, Done, pure, ◌>>=◌, ◌>>◌, attempt, ignore, on_result, on_option, gets, new_v4}
use spwn.Auth.Http.{
  Crypto, AuthState, Response, Cookie, lax, text, json, status, with_body, with_session,
  new_session, or_500, is_unique,
}
use spwn.Auth.Username.{validate_username}

-- The text of a hash may not be one: then there is no answer.
abbrev verdict : (crypto : Crypto) → String → Option crypto.PasswordHash → Option Bool
verdict crypto pw none = none
verdict crypto pw (some parsed) = some (crypto.verifies pw parsed)

unfoldable pub verify_password : Crypto → String → String → Option Bool
verify_password crypto pw hash = verdict crypto pw (crypto.parse hash)

-- `Ok(true)`
abbrev pub confirmed : Option Bool → Bool
confirmed none = false
confirmed (some b) = b

pub record SignupRequest : Type 0 where
  pub email : String
  pub password : String
  pub username : String
  pub invite_code : String

unfoldable pub signup : Crypto → AuthState → SignupRequest → Exec Response
signup crypto state req =
    if not (req.invite_code == state.invite_code)
    then pure (status 403)
    else on_option (validate_username (to_lowercase req.username))
        (λ msg. pure (with_body 400 (text msg)))
        (on_option (crypto.hash req.password)
          (λ hash. do
            now ← gets (λ w. w.now)
            id ← new_v4
            r ← attempt (
                create_account (record {
                  id = id;
                  email = req.email;
                  password_hash = some hash;
                  username = to_lowercase req.username;
                  created_at = now;
                }))
            on_result r (λ account. pure (status 201))
                (λ e. pure (
                  if is_unique e
                  then with_body 400 (text "email or username already taken")
                  else status 500)))
          (pure (status 500)))

pub record LoginRequest : Type 0 where
  pub email : String
  pub password : String

-- passkey::PENDING_AUTH_TTL_SECS
abbrev pub pending_auth_ttl_secs : ℤ
pending_auth_ttl_secs = pos 300

-- The password is right: a session, or for the mode with both the way to the second factor.
unfoldable pub open_session : AuthState → String → Exec Response
open_session state account_id = do
  now ← gets (λ w. w.now)
  id ← new_v4
  or_500 (create_session (new_session id account_id now state.session_ttl_secs))
      (λ session. pure (with_session state id))

unfoldable pub ask_for_passkey : String → Exec Response
ask_for_passkey account_id = do
  pending_id ← new_v4
  now ← gets (λ w. w.now)
  or_500
      (create_pending_auth_token (record {
        id = pending_id;
        account_id = account_id;
        expires_at = now +ℤ pending_auth_ttl_secs;
      }))
      (λ done. pure (
        with_body 200 (
          json (
            obj (
              field "requires_passkey" (bool true) (field "pending_token" (str pending_id) end))))))

unfoldable pub by_mode : AuthMode → AuthState → String → Exec Response
unfolding open_session ask_for_passkey
by_mode password state account_id = open_session state account_id
by_mode passkey state account_id = pure (status 401)
by_mode password_passkey state account_id = ask_for_passkey account_id

-- An account with passkeys alone is turned away before its password is looked at.
abbrev pub uses_password : AuthMode → Bool
uses_password passkey = false
uses_password _ = true

unfoldable pub login_to : Crypto → AuthState → LoginRequest → AccountRow → Exec Response
unfolding by_mode verify_password
login_to crypto state req account =
    if not (uses_password account.auth_mode)
    then pure (status 401)
    else on_option account.password_hash
        (λ hash.
          if confirmed (verify_password crypto req.password hash)
          then by_mode account.auth_mode state account.id
          else pure (status 401))
        (pure (status 401))

unfoldable pub login : Crypto → AuthState → LoginRequest → Exec Response
unfolding login_to
login crypto state req =
    or_500 (get_account_by_email req.email)
      (λ account. on_option account (login_to crypto state req) (pure (status 401)))

abbrev removal_cookie : Cookie
removal_cookie = record {
  name = "session_id";
  value = "";
  domain = none;
  http_only = false;
  secure = false;
  same_site = lax;
  removal = true;
}

unfoldable pub logout : Option String → Exec Response
logout none = pure (status 204)
logout (some id) = do
  ignore (delete_session id)
  pure (record (status 204) { cookies = removal_cookie ∷ [] })
