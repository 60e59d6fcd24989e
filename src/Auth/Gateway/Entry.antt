-- ===== src/Auth/Gateway/Entry.antt =====
-- auth/src/gateway.rs: Caddy lets a request to a VM through when `caddy_auth` answers 200.
use spwn.Base.{
  String, ◌==◌, Bool, true, false, not, ◌&&◌, ◌||◌, Option, none, some, List, [], ◌∷◌, eqb, map,
  if◌then◌else◌,
}
use Prim.Native.Char.{code}
use spwn.Base.Int.{ℤ, ltb_ℤ}
use spwn.Base.Text.{◌&◌, strip_prefix, strip_suffix}
use spwn.Base.Text.Letters.{split_on, trim, trim_end_by}
use spwn.Db.Rows.{VmRow, SessionRow, VmAuthToken}
use spwn.Db.Vms.{get_vm_by_subdomain, equals}
use spwn.Db.Tokens.{create_session, get_session, consume_vm_auth_token}
use spwn.World.{Exec, pure, ◌>>=◌, attempt, on_result, on_option, gets, new_v4}
use spwn.Auth.Http.{AuthState, Headers, Response, Cookie, lax, status, new_session}
use spwn.Auth.Session.{found}
use spwn.Auth.Gateway.{unwrap_or}

-- The parameters of the request that the handler reads.
pub record AccessQuery : Type 0 where
  pub token : Option String
  pub auth_token : Option String

-- headers.get("x-forwarded-host").or_else(|| headers.get("host"))
unfoldable pub requested_host : Headers → String
requested_host headers = elim headers.x_forwarded_host [
  | some h ↦ h
  | none ↦ unwrap_or headers.host ""
]

abbrev first_prefixed : String → List String → Option String
first_prefixed p [] = none
first_prefixed p (c ∷ cs) = elim (strip_prefix p c) [ some v ↦ some v | none ↦ first_prefixed p cs ]

-- The value of the cookie `session_id` in the header's text.
unfoldable pub session_id_of : Headers → Option String
session_id_of headers =
    first_prefixed "session_id="
      (map trim (split_on (λ c. eqb (code c) b';') (unwrap_or headers.cookie "")))

abbrev access_cookie : AuthState → String → Cookie
access_cookie state id = record {
  name = "session_id";
  value = id;
  domain = some ("." & state.base_domain);
  http_only = true;
  secure = state.secure_cookies;
  same_site = lax;
  removal = false;
}

unfoldable pub login_redirect : AuthState → String → Response
login_redirect state host = record (status 307) {
  location =
      some
        (trim_end_by (λ c. eqb (code c) b'/') state.public_url & "/login?redirect=https://" & host);
}

-- Whether a session opens the VM: its owner's, not run out.
abbrev pub opens : ℤ → VmRow → SessionRow → Bool
opens now vm s = not (ltb_ℤ s.expires_at now) && (s.account_id == vm.account_id)

unfoldable pub by_cookie : AuthState → String → Headers → VmRow → Exec Response
unfolding login_redirect session_id_of
by_cookie state host headers vm =
    on_option (session_id_of headers)
      (λ sid. do
        r ← attempt (get_session sid)
        now ← gets (λ w. w.now)
        on_option (found r)
            (λ s. pure (if opens now vm s then status 200 else login_redirect state host))
            (pure (login_redirect state host)))
      (pure (login_redirect state host))

-- The rest of the handler runs when the token does not let the request in.
unfoldable pub admit_with_session : AuthState → String → Exec Response → Exec Response
admit_with_session state account_id rest = do
  now ← gets (λ w. w.now)
  id ← new_v4
  r ← attempt (create_session (new_session id account_id now state.session_ttl_secs))
  on_result r (λ s. pure (record (status 200) { cookies = access_cookie state id ∷ [] }))
      (λ e. rest)

unfoldable pub by_auth_token : AuthState → VmRow → Exec Response → VmAuthToken → Exec Response
unfolding admit_with_session
by_auth_token state vm rest token =
    if token.vm_id == vm.id then admit_with_session state token.account_id rest else rest

unfoldable pub private_access : AuthState → String → Headers → AccessQuery → VmRow → Exec Response
unfolding by_cookie by_auth_token
private_access state host headers params vm =
    on_option params.auth_token
      (λ auth_token. do
        r ← attempt (consume_vm_auth_token auth_token)
        on_option (found r) (by_auth_token state vm (by_cookie state host headers vm))
            (by_cookie state host headers vm))
      (by_cookie state host headers vm)

-- `if let Some(token) = params.get("token")` with the comparison below it
abbrev pub shares : VmRow → Option String → Bool
shares vm none = false
shares vm (some token) = equals vm.share_token token

unfoldable pub vm_access : AuthState → String → Headers → AccessQuery → VmRow → Exec Response
unfolding private_access
vm_access state host headers params vm =
    if vm.is_public || shares vm params.token
    then pure (status 200)
    else private_access state host headers params vm

unfoldable pub caddy_auth : AuthState → Headers → AccessQuery → Exec Response
unfolding requested_host vm_access
caddy_auth state headers params =
    on_option (strip_suffix ("." & state.base_domain) (requested_host headers))
      (λ subdomain. do
        r ← attempt (get_vm_by_subdomain subdomain)
        on_option (found r) (vm_access state (requested_host headers) headers params)
            (pure (status 404)))
      (pure (status 404))
