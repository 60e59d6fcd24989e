-- ===== src/Auth/Passkey.antt =====
-- auth/src/passkey.rs: an account's passkeys and its way to log in. Every handler takes the account
-- that the extractor has admitted.
pub mod Entering
use spwn.Base.{
  String, ◌==◌, Bool, true, false, not, Option, none, some, List, map, is_empty, if◌then◌else◌,
}
use spwn.Base.Int.{ltb_ℤ}
use spwn.Db.Json.{Json, obj, field, end, str, num, arr}
use spwn.Db.Rows.{
  PasskeyRow, PasskeyChallenge, registration, AuthMode, password, passkey, password_passkey,
}
use spwn.Db.Vms.{equals}
use spwn.Db.Accounts.{get_account, set_account_auth_mode}
use spwn.Db.Passkeys.{
  create_passkey, list_passkeys, rename_passkey, delete_passkey, get_passkey_challenge,
  delete_passkey_challenge,
}
use spwn.World.{Exec, pure, ◌>>=◌, ◌>>◌, attempt, ignore, on_result, on_option, gets, new_v4}
use spwn.Auth.Http.{Response, text, json, status, with_body, or_500, is_unique}
use spwn.Auth.Profile.{items}
use spwn.Auth.Webauthn.{Webauthn, offer}

abbrev shown_name : Option String → String → String
shown_name none username = username
shown_name (some name) username = name

unfoldable pub passkey_register_start : Webauthn → String → Exec Response
passkey_register_start wa account_id = or_500 (get_account account_id) (λ found.
    on_option found
      (λ account. or_500 (list_passkeys account_id) (λ existing.
        on_option (wa.parse_uuid account_id)
          (λ user_uuid.
            on_option
              (wa.start_registration user_uuid account.username
                (shown_name account.display_name account.username)
                (map (λ p. PasskeyRow.credential_id p) existing))
              (λ started.
                on_option (wa.registration_text started.1) (offer registration account_id started.0)
                  (pure (status 500)))
              (pure (status 500)))
          (pure (status 500))))
      (pure (status 401)))

-- The passkey that the answer to the challenge has given.
unfoldable pub keep_passkey :
    (wa : Webauthn) → String → String → wa.Passkey → String → Exec Response
keep_passkey wa account_id name new_key passkey_json = do
  passkey_id ← new_v4
  r ← attempt (create_passkey passkey_id account_id (wa.cred_id new_key) passkey_json name)
  on_result r
      (λ row.
        pure
          (with_body 200 (json (obj (field "id" (str passkey_id) (field "name" (str name) end))))))
      (λ e.
        pure
          (if is_unique e then with_body 409 (text "passkey already registered") else status 500))

-- The challenge is used up before its answer is looked at.
unfoldable pub answer_registration :
    (wa : Webauthn) → String → String → String → wa.NewCredential → PasskeyChallenge → Exec Response
unfolding keep_passkey
answer_registration wa account_id challenge_id name credential challenge =
    on_option (wa.registration_of challenge.challenge_json)
      (λ reg_state. do
        ignore (delete_passkey_challenge challenge_id)
        on_option (wa.finish_registration credential reg_state)
            (λ new_key.
              on_option (wa.passkey_text new_key) (keep_passkey wa account_id name new_key)
                (pure (status 500)))
            (pure (with_body 400 (text "registration verification failed"))))
      (pure (status 500))

unfoldable pub passkey_register_finish :
    (wa : Webauthn) → String → String → String → wa.NewCredential → Exec Response
unfolding answer_registration
passkey_register_finish wa account_id challenge_id name credential =
    or_500 (get_passkey_challenge challenge_id registration) (λ found.
      on_option found
        (λ challenge. do
          now ← gets (λ w. w.now)
          if ltb_ℤ (PasskeyChallenge.expires_at challenge) now
              then (do
                ignore (delete_passkey_challenge challenge_id)
                pure (with_body 400 (text "challenge expired")))
              else if not (equals challenge.account_id account_id)
              then pure (status 403)
              else answer_registration wa account_id challenge_id name credential challenge)
        (pure (with_body 400 (text "challenge not found or expired"))))

-- PasskeyItem
unfoldable pub passkey_json : PasskeyRow → Json
passkey_json k =
    obj (
      field "id" (str k.id) (field "name" (str k.name) (field "created_at" (num k.created_at) end)))

unfoldable pub passkey_items : String → Exec Response
unfolding passkey_json
passkey_items account_id =
    or_500 (list_passkeys account_id)
      (λ keys. pure (with_body 200 (json (arr (items (map passkey_json keys))))))

unfoldable pub name_passkey : String → String → String → Exec Response
name_passkey account_id id name =
    or_500 (rename_passkey id account_id name)
      (λ done. pure (if done then status 204 else status 404))

unfoldable pub remove_passkey : String → String → Exec Response
remove_passkey account_id id =
    or_500 (delete_passkey id account_id) (λ done. pure (if done then status 204 else status 404))

unfoldable pub mode_of : String → Option AuthMode
mode_of mode =
    if mode == "password"
    then some password
    else if mode == "passkey"
    then some passkey
    else if mode == "password_passkey"
    then some password_passkey
    else none

unfoldable pub switch_mode : String → AuthMode → Exec Response
switch_mode account_id mode =
    or_500 (set_account_auth_mode account_id mode) (λ done. pure (status 204))

unfoldable pub with_a_passkey : String → AuthMode → Exec Response
unfolding switch_mode
with_a_passkey account_id mode = or_500 (list_passkeys account_id) (λ passkeys.
    if is_empty passkeys
    then pure (with_body 400 (text "register a passkey before switching mode"))
    else switch_mode account_id mode)

unfoldable pub switch_to : String → AuthMode → Exec Response
unfolding switch_mode with_a_passkey
switch_to account_id password = switch_mode account_id password
switch_to account_id passkey = with_a_passkey account_id passkey
switch_to account_id password_passkey = with_a_passkey account_id password_passkey

unfoldable pub update_auth_mode : String → String → Exec Response
unfolding mode_of switch_to
update_auth_mode account_id mode =
    on_option (mode_of mode) (switch_to account_id)
      (pure (with_body 400 (text "invalid auth mode")))
