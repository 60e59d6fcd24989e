-- ===== src/Tests/LoginRuns.antt =====
-- The requests that log in, at concrete states.
use spwn.Db.Vms.{get_vm_by_subdomain}
use spwn.Base.Text.Letters.{split_on, trim}
use spwn.Db.Tokens.{create_session, get_session}
use spwn.Db.Accounts.{get_account_by_email}
use spwn.Base.{String, ◌==◌, ◌≡◌, refl, ◌⊎◌, true, none, some, [], ◌∷◌, find, any, arith}
use spwn.Base.Int.{pos, ◌+ℤ◌}
use spwn.Base.Text.{◌&◌, strip_prefix, strip_suffix}
use spwn.Db.Rows.{VmRow, AccountRow, SessionRow, CliAuthCode, authorized, stopped}
use spwn.World.{
  World, result, after, ok, query, constrained, attempt, gets, new_v4, on_result, on_option, ◌>>=◌,
}
use spwn.Auth.Http.{Crypto, AuthState, Headers, status, with_session}
use spwn.Auth.Session.{account, account_id}
use spwn.Auth.Session.Sound.{Shows, account_id-Shows}
use spwn.Auth.Login.{LoginRequest, login}
use spwn.Auth.Login.Sound.{Proves, LoggedIn, login-LoggedIn}
use spwn.Auth.Login.Entering.{login-account_id}
use spwn.Auth.Cli.{cli_poll, poll_token}
use spwn.Auth.Cli.Turns.{authorize, refuse, handle, Served, handle-Turn, granted_settles}
use spwn.Auth.Cli.Views.{Turn, view, granted, turned_down}
use spwn.Auth.Cli.Token.{IsAuthorized, NewTokens, cli_poll-account_id, bearing}
use spwn.Auth.Gateway.Entry.{AccessQuery, caddy_auth}
use spwn.Auth.Gateway.Access.{Asked, caddy_auth-Opened}
use spwn.Auth.Gateway.Opening.{Opened}
use spwn.Tests.Sample.{vm_row, account_row, db_with, world_with}

-- Hashes that can be read.
abbrev crypto : Crypto
crypto = record {
  PasswordHash = String;
  parse = λ h. some h;
  verifies = λ pw h. pw == h;
  hash = λ pw. some pw;
  sha256_hex = λ s. "#" & s;
}

abbrev pub state : AuthState
state = record {
  invite_code = "welcome";
  session_ttl_secs = pos 3600;
  public_url = "https://example.org/";
  base_domain = "example.org";
  gateway_secret = none;
  secure_cookies = true;
}

abbrev pub no_headers : Headers
no_headers = record {
  session_cookie = none;
  authorization = none;
  cookie = none;
  host = none;
  x_forwarded_host = none;
  x_forwarded_for = none;
  content_type = none;
}

abbrev alice : AccountRow
alice = record (account_row "alice") { password_hash = some "secret" }

abbrev quiet_world : World
quiet_world = world_with (record (db_with (vm_row "vm1" stopped ∷ [])) { accounts = alice ∷ [] })

abbrev login_request : LoginRequest
login_request = record { email = "alice@example.org"; password = "secret" }

logged_in :
    result (login crypto state login_request) quiet_world
    ≡ ok (with_session state (quiet_world.ids quiet_world.next_id))
unfolding any attempt constrained create_session find get_account_by_email gets login new_v4
    on_option on_result query ◌>>=◌
logged_in = refl

login-LoggedIn_example :
    (a : AccountRow) × Proves crypto login_request a quiet_world.db
    × LoggedIn state a
        (with_session state (quiet_world.ids quiet_world.next_id))
        quiet_world.now
        quiet_world.db
        (after (login crypto state login_request) quiet_world).db
login-LoggedIn_example =
    login-LoggedIn crypto state login_request quiet_world
      (with_session state (quiet_world.ids quiet_world.next_id)) logged_in refl

abbrev with_cookie : Headers
with_cookie = record no_headers { session_cookie = some (quiet_world.ids quiet_world.next_id) }

abbrev later_world : World
later_world = record (after (login crypto state login_request) quiet_world) {
  now = pos 2000;
  faults = [];
}

login-account_id_example :
    (a : AccountRow) × Proves crypto login_request a quiet_world.db
    × (result (account_id crypto with_cookie) later_world ≡ ok (account a.id))
unfolding ◌+ℤ◌
login-account_id_example =
    login-account_id crypto state login_request quiet_world
      (with_session state (quiet_world.ids quiet_world.next_id))
      (quiet_world.ids quiet_world.next_id) with_cookie later_world logged_in refl refl refl refl
      refl (omega arith)

-- A session of alice's, and a code that she has authorized.
abbrev code : CliAuthCode
code = record {
  code = "abc";
  account_id = some "alice";
  status = authorized;
  expires_at = pos 1300;
}

abbrev session : SessionRow
session = record { id = "s1"; account_id = "alice"; created_at = pos 900; expires_at = pos 4500 }

abbrev entered_world : World
entered_world = world_with (record (db_with (vm_row "vm1" stopped ∷ [])) {
  sessions = session ∷ [];
  cli_auth_codes = code ∷ [];
})

abbrev s1_headers : Headers
s1_headers = record no_headers {
  session_cookie = some "s1";
  cookie = some "theme=dark; session_id=s1";
  host = some "web-alice.example.org";
}

admitted : result (account_id crypto s1_headers) entered_world ≡ ok (account "alice")
unfolding account_id attempt find get_session gets on_option on_result query ◌>>=◌
admitted = refl

account_id-Shows_example : Shows crypto s1_headers "alice" entered_world.now entered_world.db
account_id-Shows_example = account_id-Shows crypto s1_headers entered_world "alice" admitted

abbrev no_query : AccessQuery
no_query = record { token = none; auth_token = none }

let_through : result (caddy_auth state s1_headers no_query) entered_world ≡ ok (status 200)
unfolding attempt caddy_auth find get_session get_vm_by_subdomain gets on_option query split_on
    strip_prefix strip_suffix trim ◌>>=◌
let_through = refl

caddy_auth-Opened_example :
    (vm : VmRow) × Asked state s1_headers vm entered_world.db
    × Opened s1_headers no_query vm entered_world.now entered_world.db
caddy_auth-Opened_example =
    caddy_auth-Opened state s1_headers no_query entered_world (status 200) let_through refl

abbrev simple : String → String
simple s = s

handle-Turn_example :
    Turn
      (view "abc" entered_world.db)
      (view "abc" (after (handle crypto state simple (refuse "bob" "abc")) entered_world).db)
handle-Turn_example = handle-Turn crypto state simple (refuse "bob" "abc") "abc" entered_world

is_granted : view "abc" entered_world.db ≡ granted "alice"
unfolding find
is_granted = refl

abbrev served :
    Served crypto state simple entered_world.db
      (after (handle crypto state simple (authorize "bob" "abc")) entered_world).db
served = Served.then_call entered_world (authorize "bob" "abc") (Served.done entered_world.db)

granted_settles_example :
    (view "abc" (after (handle crypto state simple (authorize "bob" "abc")) entered_world).db
      ≡ granted "alice")
    ⊎ (view "abc" (after (handle crypto state simple (authorize "bob" "abc")) entered_world).db
        ≡ turned_down)
granted_settles_example =
    granted_settles crypto state simple "abc" "alice" entered_world.db
      (after (handle crypto state simple (authorize "bob" "abc")) entered_world).db served
      is_granted

is_authorized : IsAuthorized "abc" "alice" entered_world.now entered_world.db
unfolding find
is_authorized = record {
  entry = code;
  stored = refl;
  status = refl;
  owner = refl;
  known = refl;
  fresh = omega arith;
}

new_tokens : NewTokens crypto simple entered_world.ids entered_world.db
unfolding any
new_tokens i j = refl

abbrev polled_world : World
polled_world = record (after (cli_poll crypto simple "abc") entered_world) {
  now = pos 2000;
  faults = [];
}

cli_poll-account_id_example :
    (raw : String) × (result (cli_poll crypto simple "abc") entered_world ≡ ok (poll_token raw))
    × (result (account_id crypto (bearing raw no_headers)) polled_world ≡ ok (account "alice"))
cli_poll-account_id_example =
    cli_poll-account_id crypto simple "abc" "alice" no_headers entered_world polled_world refl refl
      is_authorized new_tokens refl refl
