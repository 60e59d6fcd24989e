-- ===== src/Auth/Http.antt =====
-- The responses of the HTTP handlers (axum), and what the handlers have of the server: AuthState of
-- auth/src/routes.rs. Hashing is the argon2 and sha2 crates'.
pub mod Rules
use spwn.Base.{ℕ, String, Bool, true, false, Option, none, some, List, [], ◌∷◌, if◌then◌else◌}
use spwn.Base.Int.{ℤ, ◌+ℤ◌}
use spwn.Base.Text.{◌&◌}
use spwn.Db.Json.{Json, obj, field, end, str}
use spwn.Db.Rows.{SessionRow}
use spwn.World.{
  Failure, sqlx, unique_violation, Result, ok, err, Exec, pure, attempt, on_result, ◌>>=◌,
}

pub data Body : Type 0 where
  empty : Body
  text : String → Body
  json : Json → Body
  bytes : List ℕ → Body
  -- the message of an error
  failure : Failure → Body

pub data SameSite : Type 0 where
  lax cross_site : SameSite

pub record Cookie : Type 0 where
  pub name : String
  pub value : String
  pub domain : Option String
  pub http_only : Bool
  pub secure : Bool
  pub same_site : SameSite
  -- an order to the browser to forget the cookie
  pub removal : Bool

pub record Response : Type 0 where
  pub status : ℕ
  pub cookies : List Cookie
  pub location : Option String
  pub body : Body

abbrev pub with_body : ℕ → Body → Response
with_body status body = record { status = status; cookies = []; location = none; body = body }

-- StatusCode::into_response
abbrev pub status : ℕ → Response
status code = with_body code empty

-- Json(serde_json::json!({ "error": … }))
abbrev pub error_json : String → Body
error_json e = json (obj (field "error" (str e) end))

-- The crates argon2 and sha2: `parse` is PasswordHash::new, `verifies` the comparison of a password
-- with a parsed hash, `hash` the hash with a new salt, and `sha256_hex` hex::encode(Sha256::digest).
pub record Crypto : Type 1 where
  pub PasswordHash : Type 0
  pub parse : String → Option PasswordHash
  pub verifies : String → PasswordHash → Bool
  pub hash : String → Option String
  pub sha256_hex : String → String

pub record AuthState : Type 0 where
  pub invite_code : String
  pub session_ttl_secs : ℤ
  pub public_url : String
  pub base_domain : String
  pub gateway_secret : Option String
  pub secure_cookies : Bool

-- The headers that the handlers read; one that is no text counts as absent.
pub record Headers : Type 0 where
  pub session_cookie : Option String
  pub authorization : Option String
  pub cookie : Option String
  pub host : Option String
  pub x_forwarded_host : Option String
  pub x_forwarded_for : Option String
  pub content_type : Option String

-- The cookie of a session.
abbrev pub session_cookie : AuthState → String → Cookie
session_cookie state id = record {
  name = "session_id";
  value = id;
  domain = some ("." & state.base_domain);
  http_only = true;
  secure = state.secure_cookies;
  same_site = if state.secure_cookies then cross_site else lax;
  removal = false;
}

abbrev pub with_session : AuthState → String → Response
with_session state id = record (status 200) { cookies = session_cookie state id ∷ [] }

-- A session of `ttl` seconds, made when the handler asks for it.
abbrev pub new_session : String → String → ℤ → ℤ → SessionRow
new_session id account_id now ttl = record {
  id = id;
  account_id = account_id;
  created_at = now;
  expires_at = now +ℤ ttl;
}

abbrev pub is_unique : Failure → Bool
is_unique (sqlx unique_violation) = true
is_unique _ = false

module _ {A : Type 0} where
  -- `match db::… { Ok(a) => …, Err(_) => return INTERNAL_SERVER_ERROR }`
  abbrev pub or_500 : Exec A → (A → Exec Response) → Exec Response
  or_500 m f = do r ← attempt m; on_result r f (λ e. pure (status 500))
