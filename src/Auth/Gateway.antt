-- ===== src/Auth/Gateway.antt =====
-- auth/src/gateway.rs: what the SSH gateway asks for, and in Entry what Caddy does.
pub mod Entry
pub mod Opening
pub mod Access
use spwn.Base.{
  ℕ, String, ◌==◌, Bool, true, false, not, ◌&&◌, ◌||◌, Option, none, some, List, [], ◌∷◌, eqb, map,
  if◌then◌else◌,
}
use Prim.Native.Char.{Char, code}
use spwn.Base.Int.{ℤ, pos, ◌+ℤ◌, ltb_ℤ}
use spwn.Base.Text.{◌&◌, strip_prefix, strip_suffix}
use spwn.Base.Text.Letters.{split_on, trim, trim_end_by}
use spwn.Db.Json.{Json, obj, field, end, str, num, bool}
use spwn.Db.Rows.{
  AccountRow, VmRow, VmStatus, stopped, starting, running, stopping, snapshotting, error, HostRow,
  SessionRow, VmAuthToken,
}
use spwn.Db.Vms.{get_vm, get_vm_by_subdomain, equals}
use spwn.Db.Hosts.{get_host}
use spwn.Db.Accounts.{get_account, get_account_by_email}
use spwn.Db.Keys.{get_account_id_by_key_fingerprint}
use spwn.Db.Tokens.{
  get_account_id_by_token_hash, touch_api_token, create_session, get_session, consume_vm_auth_token,
}
use spwn.World.{
  Result, ok, err, Exec, Done, pure, ◌>>=◌, ◌>>◌, attempt, ignore, on_result, on_option, gets,
  new_v4,
}
use spwn.Auth.Http.{
  Crypto, AuthState, Headers, Response, Cookie, lax, text, json, failure, status, with_body,
  error_json, new_session,
}
use spwn.Auth.Session.{found}
use spwn.Auth.Login.{verify_password, confirmed}

abbrev unwrap_or : Option String → String → String
unwrap_or none d = d
unwrap_or (some s) d = s

unfoldable pub check_gateway_secret : AuthState → Headers → Bool
check_gateway_secret state headers = elim state.gateway_secret [
  | none ↦ false
  | some secret ↦ elim headers.authorization [
    | none ↦ false
    | some auth ↦ unwrap_or (strip_prefix "Bearer " auth) auth == secret
  ]
]

abbrev gateway_session_ttl_secs : ℤ
gateway_session_ttl_secs = pos 86400

-- GatewayAuthResponse: the user name is left out when it is not known.
abbrev granted : String → Option String → Response
granted account_id none =
    with_body 200 (json (obj (field "ok" (bool true) (field "account_id" (str account_id) end))))
granted account_id (some username) = with_body 200 (
    json (
      obj (
        field "ok" (bool true)
          (field "account_id" (str account_id) (field "username" (str username) end)))))

abbrev refused : String → Response
refused e =
    with_body 200 (
      json
        (obj (field "ok" (bool false) (field "account_id" (str "") (field "error" (str e) end)))))

abbrev username_of : Result (Option AccountRow) → Option String
username_of (ok (some a)) = some a.username
username_of _ = none

password_checked : Crypto → String → AccountRow → Response
password_checked crypto pw account = elim account.password_hash [
  | none ↦ refused "invalid credentials"
  | some hash ↦
      if confirmed (verify_password crypto pw hash)
      then granted account.id (some account.username)
      else refused "invalid credentials"
]

-- The password may be an API token; else it is the password of the account with this email.
unfoldable pub gateway_auth_password :
    Crypto → AuthState → Headers → String → String → Exec Response
unfolding password_checked
gateway_auth_password crypto state headers username pw =
    if not (check_gateway_secret state headers) then pure (status 401) else do
      r ← attempt (get_account_id_by_token_hash (crypto.sha256_hex pw))
      on_option (found r)
          (λ account_id. do
            now ← gets (λ w. w.now)
            ignore (touch_api_token (crypto.sha256_hex pw) now)
            account ← attempt (get_account account_id)
            pure (granted account_id (username_of account)))
          (do
            account ← attempt (get_account_by_email username)
            on_option (found account) (λ a. pure (password_checked crypto pw a))
                (pure (refused "invalid credentials")))

unfoldable pub gateway_auth_pubkey : AuthState → Headers → String → Exec Response
gateway_auth_pubkey state headers fingerprint =
    if not (check_gateway_secret state headers) then pure (status 401) else do
      r ← attempt (get_account_id_by_key_fingerprint fingerprint)
      on_option (found r)
          (λ account_id. do
            account ← attempt (get_account account_id)
            pure (granted account_id (username_of account)))
          (pure (refused "unknown key"))

unfoldable pub gateway_create_session : AuthState → Headers → String → Exec Response
gateway_create_session state headers account_id =
    if not (check_gateway_secret state headers) then pure (status 401) else do
      now ← gets (λ w. w.now)
      id ← new_v4
      r ← attempt (create_session (new_session id account_id now gateway_session_ttl_secs))
      on_result r (λ s. pure (with_body 200 (json (obj (field "token" (str id) end)))))
          (λ e. pure (with_body 500 (failure e)))

unfoldable pub status_text : VmStatus → String
status_text stopped = "stopped"
status_text starting = "starting"
status_text running = "running"
status_text stopping = "stopping"
status_text snapshotting = "snapshotting"
status_text error = "error"

-- GatewayVmResponse
unfoldable pub vm_located : VmRow → HostRow → Response
unfolding status_text
vm_located vm host = with_body 200 (
    json (
      obj (
        field "vm_id" (str vm.id) (
          field "host_agent_addr" (str host.address) (
            field "vm_ip" (str vm.ip_address) (
              field "status" (str (status_text vm.status))
                (field "exposed_port" (num vm.exposed_port) end)))))))

abbrev with_error : ℕ → String → Response
with_error code e = with_body code (error_json e)

unfoldable pub locate_vm : Result (Option VmRow) → Exec Response
unfolding vm_located
locate_vm r =
    on_option (found r)
      (λ vm.
        on_option (VmRow.host_id vm)
          (λ host_id. do
            h ← attempt (get_host host_id)
            on_option (found h) (λ host. pure (vm_located vm host))
                (pure (with_error 503 "host not found")))
          (pure (with_error 503 "vm has no host assigned")))
      (pure (with_error 404 "vm not found"))

unfoldable pub gateway_lookup_vm :
    AuthState → Headers → Option String → Option String → Exec Response
unfolding locate_vm
gateway_lookup_vm state headers vm_id subdomain =
    if not (check_gateway_secret state headers)
    then pure (status 401)
    else on_option vm_id (λ id. do r ← attempt (get_vm id); locate_vm r)
        (on_option subdomain (λ sub. do r ← attempt (get_vm_by_subdomain sub); locate_vm r)
          (pure (with_error 400 "vm_id or subdomain required")))
