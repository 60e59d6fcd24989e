-- ===== src/Db/Rows/Login.antt =====
-- crates/db/src/lib.rs: the rows of accounts and of what logs in to them.
use spwn.Base.{ℕ, String, Option, List}
use spwn.Base.Int.{ℤ}
use spwn.Db.Rows.Statuses.{AuthMode, CodeStatus}

pub record AccountRow : Type 0 where
  pub id : String
  pub email : String
  pub password_hash : Option String
  pub username : String
  pub display_name : Option String
  pub avatar_bytes : Option (List ℕ)
  pub theme : String
  pub vcpu_limit : ℤ
  pub mem_limit_mb : ℤ
  pub vm_limit : ℤ
  pub created_at : ℤ
  pub role : String
  pub auth_mode : AuthMode

pub record SessionRow : Type 0 where
  pub id : String
  pub account_id : String
  pub created_at : ℤ
  pub expires_at : ℤ

pub record VmAuthToken : Type 0 where
  pub id : String
  pub account_id : String
  pub vm_id : String
  pub expires_at : ℤ

pub record CliAuthCode : Type 0 where
  pub code : String
  pub account_id : Option String
  pub status : CodeStatus
  pub expires_at : ℤ

pub record ApiTokenRow : Type 0 where
  pub id : String
  pub account_id : String
  pub token_hash : String
  pub name : String
  pub created_at : ℤ
  pub last_used_at : Option ℤ

pub record NewApiToken : Type 0 where
  pub id : String
  pub account_id : String
  pub token_hash : String
  pub name : String

pub record SshKeyRow : Type 0 where
  pub id : String
  pub account_id : String
  pub name : String
  pub public_key : String
  pub fingerprint : String
  pub created_at : ℤ

pub record PasskeyRow : Type 0 where
  pub id : String
  pub account_id : String
  pub credential_id : List ℕ
  pub passkey_json : String
  pub name : String
  pub created_at : ℤ

-- passkey_challenges.kind
pub data ChallengeKind : Type 0 where
  registration login : ChallengeKind

pub record PasskeyChallenge : Type 0 where
  pub id : String
  pub account_id : Option String
  pub challenge_json : String
  pub kind : ChallengeKind
  pub expires_at : ℤ

pub record PendingAuthToken : Type 0 where
  pub id : String
  pub account_id : String
  pub expires_at : ℤ

pub record NewAccount : Type 0 where
  pub id : String
  pub email : String
  pub password_hash : Option String
  pub username : String
  pub created_at : ℤ
