-- ===== src/Auth/Cli.antt =====
-- auth/src/routes.rs: the login of the command line tool. The tool asks for a code, its user
-- authorizes or denies the code in a browser, and the tool polls for its token.
pub mod Views
pub mod Turns
pub mod Token
use spwn.Base.{String, ◌==◌, Bool, true, false, not, ◌||◌, Option, none, some, List, if◌then◌else◌}
use spwn.Base.Int.{ℤ, pos, ◌+ℤ◌, ltb_ℤ}
use spwn.Base.Text.{◌&◌}
use spwn.Base.Text.Letters.{to_lowercase}
use spwn.Db.Json.{Json, obj, field, end, str, num}
use spwn.Db.Rows.{CliAuthCode, CodeStatus, pending, authorized, denied}
use spwn.Db.Tokens.{
  create_cli_auth_code, get_cli_auth_code, authorize_cli_auth_code, deny_cli_auth_code,
  create_api_token,
}
use spwn.World.{Exec, Done, pure, ◌>>=◌, attempt, on_result, on_option, gets, new_v4}
use spwn.Auth.Http.{Crypto, AuthState, Response, text, json, status, with_body, or_500}

abbrev pub cli_code_ttl_secs : ℤ
cli_code_ttl_secs = pos 300

abbrev or_else : Option String → String → String
or_else none d = d
or_else (some s) d = s

-- `drawn` is the text of twelve letters and digits that the random generator gives.
unfoldable pub cli_init : AuthState → String → Option String → Exec Response
cli_init state drawn base_url = do
  let code = to_lowercase drawn
  now ← gets (λ w. w.now)
  or_500 (create_cli_auth_code code (now +ℤ cli_code_ttl_secs)) (λ done. pure (
      with_body 200 (
        json (
          obj (
            field "code" (str code) (
              field "browser_url"
                (str (or_else base_url state.public_url & "/cli-auth?code=" & code))
                (field "expires_in" (num cli_code_ttl_secs) end)))))))

-- CliPollResponse without a token
abbrev pub poll_status : String → Response
poll_status s = with_body 200 (json (obj (field "status" (str s) end)))

abbrev pub poll_token : String → Response
poll_token token =
    with_body 200 (json (obj (field "status" (str "authorized") (field "token" (str token) end))))

-- Uuid::simple: the value without its hyphens
unfoldable pub mint : Crypto → (String → String) → String → String → Exec Response
mint crypto simple code account_id = do
  raw ← new_v4
  id ← new_v4
  let raw_token = "spwn_tok_" & simple raw
  or_500
      (create_api_token (record {
        id = id;
        account_id = account_id;
        token_hash = crypto.sha256_hex raw_token;
        name = "CLI (" & code & ")";
      }))
      (λ token. pure (poll_token raw_token))

by_status : CodeStatus → Crypto → (String → String) → String → Option String → Exec Response
unfolding mint
by_status pending crypto simple code account_id = pure (poll_status "pending")
by_status denied crypto simple code account_id = pure (poll_status "denied")
by_status authorized crypto simple code account_id =
    on_option account_id (mint crypto simple code) (pure (status 500))

unfoldable pub cli_poll : Crypto → (String → String) → String → Exec Response
unfolding by_status
cli_poll crypto simple code = do
  now ← gets (λ w. w.now)
  or_500 (get_cli_auth_code code) (λ entry.
      on_option entry
        (λ e.
          if ltb_ℤ (CliAuthCode.expires_at e) now
          then pure (poll_status "expired")
          else by_status e.status crypto simple code e.account_id)
        (pure (poll_status "expired")))

abbrev is_pending_code : CodeStatus → Bool
is_pending_code pending = true
is_pending_code _ = false

-- The handlers behind AccountId take the account that the extractor has admitted.
unfoldable pub cli_authorize : String → String → Exec Response
cli_authorize account_id code = do
  now ← gets (λ w. w.now)
  or_500 (get_cli_auth_code code) (λ entry.
      on_option entry
        (λ e.
          if ltb_ℤ (CliAuthCode.expires_at e) now || not (is_pending_code e.status)
          then pure (with_body 410 (text "code expired or already used"))
          else or_500 (authorize_cli_auth_code code account_id) (λ done. pure (status 204)))
        (pure (with_body 404 (text "code not found"))))

unfoldable pub cli_deny : String → String → Exec Response
cli_deny account_id code = or_500 (deny_cli_auth_code code) (λ done. pure (status 204))
