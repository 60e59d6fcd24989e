-- ===== src/Auth/Passkey/Entering.antt =====
-- auth/src/passkey.rs: logging in with a passkey, alone or as the second factor.
pub mod Sound
pub mod Second
pub mod Once
use spwn.Base.{String, Bool, true, false, not, Option, none, some, List, is_empty, if◌then◌else◌}
use spwn.Base.Int.{ltb_ℤ}
use spwn.Db.Rows.{
  AccountRow, AuthMode, password, passkey, password_passkey, PasskeyRow, PasskeyChallenge, login,
  PendingAuthToken,
}
use spwn.Db.Vms.{equals}
use spwn.Db.Accounts.{get_account_by_username}
use spwn.Db.Passkeys.{
  list_passkeys, get_passkey_by_credential_id, update_passkey_json, get_passkey_challenge,
  delete_passkey_challenge, get_pending_auth_token, delete_pending_auth_token,
}
use spwn.World.{Exec, Done, pure, ◌>>=◌, ◌>>◌, attempt, ignore, on_option, gets}
use spwn.Auth.Http.{AuthState, Response, text, status, with_body, or_500}
use spwn.Auth.Session.{found}
use spwn.Auth.Login.{open_session}
use spwn.Auth.Webauthn.{Webauthn, offer, all_parsed}

-- A challenge for the passkeys of the rows.
unfoldable pub challenge_for : Webauthn → String → List PasskeyRow → Exec Response
challenge_for wa account_id rows =
    on_option (all_parsed wa.passkey_of rows)
      (λ passkeys.
        on_option (wa.start_authentication passkeys)
          (λ started.
            on_option (wa.authentication_text started.1) (offer login account_id started.0)
              (pure (status 500)))
          (pure (status 500)))
      (pure (status 500))

abbrev has_passkey_mode : AuthMode → Bool
has_passkey_mode password = false
has_passkey_mode passkey = true
has_passkey_mode password_passkey = true

unfoldable pub start_for : Webauthn → AccountRow → Exec Response
unfolding challenge_for
start_for wa account =
    if not (has_passkey_mode account.auth_mode)
    then pure (with_body 400 (text "account does not use passkeys"))
    else or_500 (list_passkeys account.id)
        (λ rows. if is_empty rows then pure (status 401) else challenge_for wa account.id rows)

unfoldable pub passkey_login_start : Webauthn → String → Exec Response
unfolding start_for
passkey_login_start wa username =
    or_500 (get_account_by_username username)
      (λ account. on_option account (start_for wa) (pure (status 401)))

abbrev changed : {P : Type 0} → Option (Bool × P) → Option P
changed none = none
changed (some (false, p)) = none
changed (some (true, p)) = some p

-- `if let Ok(Some(row)) = … && let Ok(mut passkey) = … && … == Some(true) && let Ok(updated_json) = …`
unfoldable pub update_counter : (wa : Webauthn) → wa.Outcome → Exec Done
update_counter wa outcome = do
  r ← attempt (get_passkey_by_credential_id (wa.used_cred_id outcome))
  on_option (found r)
      (λ row.
        on_option (wa.passkey_of (PasskeyRow.passkey_json row))
          (λ key.
            on_option (changed (wa.update_credential key outcome))
              (λ updated.
                on_option (wa.passkey_text updated)
                  (λ updated_json. ignore (update_passkey_json row.id updated_json)) (pure tt))
              (pure tt))
          (pure tt))
      (pure tt)

-- The answer to the challenge is right or not; a session for the account when it is.
unfoldable pub enter_if_right :
    (wa : Webauthn) → AuthState → String → wa.Credential → wa.Authentication → Exec Response
unfolding update_counter
enter_if_right wa state account_id credential auth_state =
    on_option (wa.finish_authentication credential auth_state)
      (λ outcome. do update_counter wa outcome; open_session state account_id) (pure (status 401))

unfoldable pub passkey_login_finish :
    (wa : Webauthn) → AuthState → String → wa.Credential → Exec Response
unfolding enter_if_right
passkey_login_finish wa state challenge_id credential =
    or_500 (get_passkey_challenge challenge_id login) (λ row.
      on_option row
        (λ challenge. do
          now ← gets (λ w. w.now)
          if ltb_ℤ (PasskeyChallenge.expires_at challenge) now
              then (do ignore (delete_passkey_challenge challenge_id); pure (status 400))
              else on_option challenge.account_id
                  (λ account_id.
                    on_option (wa.authentication_of challenge.challenge_json)
                      (λ auth_state. do
                        ignore (delete_passkey_challenge challenge_id)
                        enter_if_right wa state account_id credential auth_state)
                      (pure (status 500)))
                  (pure (status 500)))
        (pure (status 400)))

-- The challenge and the token are used up before the answer is looked at.
unfoldable pub verify_with :
    (wa : Webauthn)
    → AuthState
    → String
    → String
    → wa.Credential
    → PendingAuthToken
    → PasskeyChallenge
    → Exec Response
unfolding enter_if_right
verify_with wa state pending_token challenge_id credential token challenge =
    on_option (wa.authentication_of challenge.challenge_json)
      (λ auth_state. do
        ignore (delete_passkey_challenge challenge_id)
        ignore (delete_pending_auth_token pending_token)
        enter_if_right wa state token.account_id credential auth_state)
      (pure (status 500))

unfoldable pub verify_challenge :
    (wa : Webauthn) → AuthState → String → String → wa.Credential → PendingAuthToken → Exec Response
unfolding verify_with
verify_challenge wa state pending_token challenge_id credential token =
    or_500 (get_passkey_challenge challenge_id login) (λ row.
      on_option row
        (λ challenge. do
          now ← gets (λ w. w.now)
          if ltb_ℤ (PasskeyChallenge.expires_at challenge) now
              then (do ignore (delete_passkey_challenge challenge_id); pure (status 400))
              else if not (equals challenge.account_id token.account_id)
              then pure (status 403)
              else verify_with wa state pending_token challenge_id credential token challenge)
        (pure (status 400)))

-- The common beginning of the second factor's handlers.
unfoldable pub for_pending : String → (PendingAuthToken → Exec Response) → Exec Response
for_pending pending_token rest = or_500 (get_pending_auth_token pending_token) (λ row.
    on_option row
      (λ token. do
        now ← gets (λ w. w.now)
        if ltb_ℤ (PendingAuthToken.expires_at token) now
            then (do ignore (delete_pending_auth_token pending_token); pure (status 401))
            else rest token)
      (pure (status 401)))

unfoldable pub passkey_verify :
    (wa : Webauthn) → AuthState → String → String → wa.Credential → Exec Response
unfolding for_pending verify_challenge
passkey_verify wa state pending_token challenge_id credential =
    for_pending pending_token (verify_challenge wa state pending_token challenge_id credential)

unfoldable pub passkey_2fa_start : Webauthn → String → Exec Response
unfolding for_pending challenge_for
passkey_2fa_start wa pending_token = for_pending pending_token (λ token.
    or_500 (list_passkeys (PendingAuthToken.account_id token)) (challenge_for wa token.account_id))
