-- ===== src/Auth/Webauthn.antt =====
-- auth/src/passkey.rs: what its handlers have of the crate webauthn-rs, and the steps that they share.
use spwn.Base.{ℕ, String, Bool, Option, none, some, List, [], ◌∷◌}
use spwn.Base.Int.{ℤ, pos, ◌+ℤ◌}
use spwn.Db.Json.{Fields, obj, field, str}
use spwn.Db.Rows.{PasskeyRow, ChallengeKind}
use spwn.Db.Passkeys.{create_passkey_challenge}
use spwn.World.{Exec, pure, ◌>>=◌, gets, new_v4}
use spwn.Auth.Http.{Response, json, with_body, or_500}

-- The crate's types and calls, with the texts that serde_json makes of them. A call that fails gives
-- none. `start_registration` and `start_authentication` also give the fields of what the browser is
-- told; the challenge that they draw is part of them. `update_credential` gives the passkey that the
-- call leaves and whether it differs, or none when the passkey is another one.
pub record Webauthn : Type 1 where
  pub Uuid : Type 0
  pub Passkey : Type 0
  pub Registration : Type 0
  pub Authentication : Type 0
  pub NewCredential : Type 0
  pub Credential : Type 0
  pub Outcome : Type 0
  pub parse_uuid : String → Option Uuid
  pub start_registration : Uuid → String → String → List (List ℕ) → Option (Fields × Registration)
  pub finish_registration : NewCredential → Registration → Option Passkey
  pub start_authentication : List Passkey → Option (Fields × Authentication)
  pub finish_authentication : Credential → Authentication → Option Outcome
  pub update_credential : Passkey → Outcome → Option (Bool × Passkey)
  pub cred_id : Passkey → List ℕ
  pub used_cred_id : Outcome → List ℕ
  pub registration_text : Registration → Option String
  pub registration_of : String → Option Registration
  pub authentication_text : Authentication → Option String
  pub authentication_of : String → Option Authentication
  pub passkey_text : Passkey → Option String
  pub passkey_of : String → Option Passkey

abbrev pub challenge_ttl_secs : ℤ
challenge_ttl_secs = pos 300

-- The challenge is kept under a new id, which the browser is told with it.
unfoldable pub offer : ChallengeKind → String → Fields → String → Exec Response
offer kind account_id told challenge_json = do
  challenge_id ← new_v4
  now ← gets (λ w. w.now)
  or_500
      (create_passkey_challenge (record {
        id = challenge_id;
        account_id = some account_id;
        challenge_json = challenge_json;
        kind = kind;
        expires_at = now +ℤ challenge_ttl_secs;
      }))
      (λ done. pure (with_body 200 (json (obj (field "challenge_id" (str challenge_id) told)))))

module _ {P : Type 0} where
  and_more : Option P → Option (List P) → Option (List P)
  and_more none ps = none
  and_more (some p) none = none
  and_more (some p) (some ps) = some (p ∷ ps)

  -- collect::<Result<Vec<_>, _>>()
  unfoldable pub all_parsed : (String → Option P) → List PasskeyRow → Option (List P)
  unfolding and_more
  all_parsed passkey_of [] = some []
  all_parsed passkey_of (row ∷ rows) =
      and_more (passkey_of row.passkey_json) (all_parsed passkey_of rows)
