-- ===== src/Tests/PasskeyRuns.antt =====
-- Logging in with a passkey, at a concrete state.
use spwn.Auth.Login.{open_session}
use spwn.Base.{
  String, [], any, find, if◌then◌else◌, inl, none, refl, select, some, update_where, ◌==◌, ◌∷◌, ◌≡◌,
  ◌≢◌,
}
use spwn.Base.Int.{pos, ◌+ℤ◌}
use spwn.Db.Json.{end}
use spwn.Db.Rows.{stopped, PasskeyChallenge, login, PendingAuthToken}
use spwn.Db.Tokens.{create_session}
use spwn.Db.Passkeys.{
  bytes_eq, delete_passkey_challenge, delete_pending_auth_token, get_passkey_by_credential_id,
  get_passkey_challenge, get_pending_auth_token, update_passkey_json,
}
use spwn.World.{
  World, after, attempt, constrained, gets, ignore, new_v4, ok, on_option, on_result, pure, query,
  result, transact, update, ◌>>=◌,
}
use spwn.Auth.Http.{Response, status, with_session}
use spwn.Auth.Webauthn.{Webauthn}
use spwn.Auth.Passkey.Entering.{
  enter_if_right, for_pending, passkey_login_finish, passkey_verify, update_counter,
  verify_challenge, verify_with,
}
use spwn.Auth.Passkey.Entering.Sound.{RightAnswer, Entered, passkey_login_finish-Entered}
use spwn.Auth.Passkey.Entering.Second.{ValidPending, passkey_verify-Entered}
use spwn.Auth.Passkey.Entering.Once.{passkey_login_finish_once}
use spwn.Tests.Sample.{vm_row, db_with, world_with}
use spwn.Tests.LoginRuns.{state}

-- A passkey is its text, and the right answer to a challenge is the challenge's text.
abbrev wa : Webauthn
wa = record {
  Uuid = String;
  Passkey = String;
  Registration = String;
  Authentication = String;
  NewCredential = String;
  Credential = String;
  Outcome = String;
  parse_uuid = λ s. some s;
  start_registration = λ id username name exclude. some (end, id);
  finish_registration = λ credential registration. some credential;
  start_authentication = λ passkeys. some (end, "riddle");
  finish_authentication =
      λ credential challenge. if credential == challenge then some credential else none;
  update_credential = λ key outcome. none;
  cred_id = λ key. [];
  used_cred_id = λ outcome. [];
  registration_text = λ s. some s;
  registration_of = λ s. some s;
  authentication_text = λ s. some s;
  authentication_of = λ s. some s;
  passkey_text = λ s. some s;
  passkey_of = λ s. some s;
}

abbrev challenge : PasskeyChallenge
challenge = record {
  id = "c1";
  account_id = some "alice";
  challenge_json = "riddle";
  kind = login;
  expires_at = pos 1200;
}

abbrev pending : PendingAuthToken
pending = record { id = "p1"; account_id = "alice"; expires_at = pos 1200 }

abbrev asked_world : World
asked_world = world_with (record (db_with (vm_row "vm1" stopped ∷ [])) {
  passkey_challenges = challenge ∷ [];
  pending_auth_tokens = pending ∷ [];
})

logs_in :
    result (passkey_login_finish wa state "c1" "riddle") asked_world
    ≡ ok (with_session state (asked_world.ids asked_world.next_id))
unfolding any attempt bytes_eq constrained create_session delete_passkey_challenge enter_if_right
    find get_passkey_by_credential_id get_passkey_challenge gets ignore new_v4 on_option on_result
    open_session passkey_login_finish pure query select transact update update_counter
    update_passkey_json update_where ◌+ℤ◌ ◌>>=◌
logs_in = refl

passkey_login_finish-Entered_example :
    (a : String) × RightAnswer wa "c1" "riddle" a asked_world.now asked_world.db
    × Entered state a
        (with_session state (asked_world.ids asked_world.next_id))
        asked_world.now
        (after (passkey_login_finish wa state "c1" "riddle") asked_world).db
passkey_login_finish-Entered_example =
    passkey_login_finish-Entered wa state "c1" "riddle" asked_world
      (with_session state (asked_world.ids asked_world.next_id)) logs_in refl

verifies :
    result (passkey_verify wa state "p1" "c1" "riddle") asked_world
    ≡ ok (with_session state (asked_world.ids asked_world.next_id))
unfolding any attempt bytes_eq constrained create_session delete_passkey_challenge
    delete_pending_auth_token enter_if_right find for_pending get_passkey_by_credential_id
    get_passkey_challenge get_pending_auth_token gets ignore new_v4 on_option on_result open_session
    passkey_verify pure query select transact update update_counter update_passkey_json update_where
    verify_challenge verify_with ◌+ℤ◌ ◌>>=◌
verifies = refl

passkey_verify-Entered_example :
    (a : String) × ValidPending "p1" a asked_world.now asked_world.db
    × RightAnswer wa "c1" "riddle" a asked_world.now asked_world.db
    × Entered state a
        (with_session state (asked_world.ids asked_world.next_id))
        asked_world.now
        (after (passkey_verify wa state "p1" "c1" "riddle") asked_world).db
passkey_verify-Entered_example =
    passkey_verify-Entered wa state "p1" "c1" "riddle" asked_world
      (with_session state (asked_world.ids asked_world.next_id)) verifies refl

abbrev left_world : World
left_world = after (passkey_login_finish wa state "c1" "riddle") asked_world

not_again : result (passkey_login_finish wa state "c1" "riddle") left_world ≡ ok (status 400)
unfolding any attempt bytes_eq constrained create_session delete_passkey_challenge enter_if_right
    find get_passkey_by_credential_id get_passkey_challenge gets ignore new_v4 on_option on_result
    open_session passkey_login_finish pure query select transact update update_counter
    update_passkey_json update_where ◌+ℤ◌ ◌>>=◌
not_again = refl

passkey_login_finish_once_example : Response.status (status 400) ≢ 200
passkey_login_finish_once_example =
    passkey_login_finish_once wa state "c1" "riddle" "riddle" asked_world left_world
      (with_session state (asked_world.ids asked_world.next_id)) (status 400) refl refl logs_in
      (inl refl) refl not_again
