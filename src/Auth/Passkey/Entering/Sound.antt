-- ===== src/Auth/Passkey/Entering/Sound.antt =====
-- auth/src/passkey.rs: what a login with a passkey comes to.
use spwn.Base.{
  String, ◌==◌, ◌≡◌, refl, subst, true, false, some, [], ◌∷◌, find, Among, find-Among,
  find_satisfies, arith,
}
use spwn.Base.Int.{ℤ, ltb_ℤ, ◌≤ℤ◌}
use spwn.Db.Rows.{Db, SessionRow, PasskeyChallenge, login}
use spwn.Db.Passkeys.{
  get_passkey_by_credential_id, update_passkey_json, get_passkey_challenge, is_challenge,
  delete_passkey_challenge,
}
use spwn.World.{World, Result, ok, Done, result, after}
use spwn.World.Runs.{
  Setting, Runs, Runs-bind, Runs-pure, Runs-now, Runs-attempt, Runs-ignore, Runs-query, Runs-update,
  Runs-on_option, Runs-if, runs_in,
}
use spwn.Auth.Http.{AuthState, Response, session_cookie, with_session, new_session}
use spwn.Auth.Http.Rules.{Succeeds, Succeeds-status, Runs-or_500, plus_session}
use spwn.Auth.Login.Sound.{Runs-open_session}
use spwn.Auth.Webauthn.{Webauthn}
use spwn.Auth.Passkey.Entering.{update_counter, enter_if_right, passkey_login_finish}

pub still_fresh : (now expires : ℤ) → ltb_ℤ expires now ≡ false → now ≤ℤ expires
still_fresh now expires e = ground arith

-- A right answer to a login challenge of the account that has not run out.
pub record RightAnswer (wa : Webauthn) (challenge_id : String) (credential : wa.Credential)
    (a : String) (now : ℤ) (d : Db) : Type 0 where
  pub challenge : PasskeyChallenge
  pub stored : Among challenge d.passkey_challenges
  pub asked : is_challenge challenge_id login challenge ≡ true
  pub owner : challenge.account_id ≡ some a
  pub fresh : now ≤ℤ challenge.expires_at
  pub auth_state : wa.Authentication
  pub read : wa.authentication_of challenge.challenge_json ≡ some auth_state
  pub outcome : wa.Outcome
  pub right : wa.finish_authentication credential auth_state ≡ some outcome

-- A session of the account with its cookie.
pub record Entered (state : AuthState) (a : String) (resp : Response) (now : ℤ) (d : Db)
    : Type 0 where
  pub id : String
  pub cookie : resp.cookies ≡ session_cookie state id ∷ []
  pub session :
      find (λ s. SessionRow.id s == id) d.sessions
      ≡ some (new_session id a now state.session_ttl_secs)

abbrev SameChallenges : Db → Db → Type 0
SameChallenges d d' = d'.passkey_challenges ≡ d.passkey_challenges

module _ (c : Setting) (wa : Webauthn) where
  -- The counter is a matter of the passkeys' table, whatever fails.
  pub Runs-update_counter :
      (d : Db) (Q : Result Done → Db → Type 0) (outcome : wa.Outcome)
      → ((d' : Db) → SameChallenges d d' → Q (ok tt) d')
      → Runs c d (update_counter wa outcome) Q
  unfolding update_counter get_passkey_by_credential_id update_passkey_json
  Runs-update_counter d Q outcome k = Runs-bind c d _ _ _ (
      Runs-attempt c d _ _ (
        Runs-query c d _ _
          (Runs-on_option c d _ _ _ _
            (λ row e.
              Runs-on_option c d _ _ _ _
                (λ key e2.
                  Runs-on_option c d _ _ _ _
                    (λ updated e3.
                      Runs-on_option c d _ _ _ _
                        (λ updated_json e4.
                          Runs-ignore c d _ _ (Runs-update c d _ _ (k _ refl) (λ x q. k d refl)))
                        (λ e4. Runs-pure c d _ _ (k d refl)))
                    (λ e3. Runs-pure c d _ _ (k d refl)))
                (λ e2. Runs-pure c d _ _ (k d refl)))
            (λ e. Runs-pure c d _ _ (k d refl)))
          (λ x q. Runs-on_option c d Q _ _ _ (λ row e. cc) (λ e. Runs-pure c d _ _ (k d refl)))))

  Runs-enter_if_right :
      (d : Db) (state : AuthState) (a : String) (credential : wa.Credential) (s : wa.Authentication)
      (P : Response → Db → Type 0)
      → ((outcome : wa.Outcome) (resp : Response) (d' : Db)
          → wa.finish_authentication credential s ≡ some outcome
          → Entered state a resp c.now d'
          → SameChallenges d d'
          → P resp d')
      → Runs c d (enter_if_right wa state a credential s) (Succeeds P)
  unfolding enter_if_right
  Runs-enter_if_right d state a credential s P k =
      Runs-on_option c d _ _ _ _
        (λ outcome right. Runs-bind c d _ _ _ (
          Runs-update_counter d _ outcome (λ d1 same.
            Runs-open_session c state d1 _ a
              (λ id stored. λ s2.
                k outcome (with_session state id) (plus_session _ d1) right
                  (record { id = id; cookie = refl; session = stored }) same)
              (λ s2. absurd (omega arith)))))
        (λ wrong. Succeeds-status c d _ 401 (omega arith))

  module _ (state : AuthState) (challenge_id : String) (credential : wa.Credential) (d : Db) where
    -- The account has answered right, and has a session.
    unfoldable pub Enters : (String → Type 0) → Response → Db → Type 0
    Enters P resp d' =
        (a : String) × P a
        × RightAnswer wa challenge_id credential a c.now d
        × Entered state a resp c.now d'

    challenge_right :
        (challenge : PasskeyChallenge) (a : String) (s : wa.Authentication) (outcome : wa.Outcome)
        → find (is_challenge challenge_id login) d.passkey_challenges ≡ some challenge
        → challenge.account_id ≡ some a
        → ltb_ℤ challenge.expires_at c.now ≡ false
        → wa.authentication_of challenge.challenge_json ≡ some s
        → wa.finish_authentication credential s ≡ some outcome
        → RightAnswer wa challenge_id credential a c.now d
    challenge_right challenge a s outcome found_c owner fresh read right = record {
      challenge = challenge;
      stored = find-Among _ d.passkey_challenges challenge found_c;
      asked = find_satisfies _ d.passkey_challenges challenge found_c;
      owner = owner;
      fresh = still_fresh c.now challenge.expires_at fresh;
      auth_state = s;
      read = read;
      outcome = outcome;
      right = right;
    }

    -- From any tables that the handler has come to in between.
    pub then-Enters :
        (P : String → Type 0) (challenge : PasskeyChallenge) (a : String) (s : wa.Authentication)
        (d1 : Db)
        → P a
        → find (is_challenge challenge_id login) d.passkey_challenges ≡ some challenge
        → challenge.account_id ≡ some a
        → ltb_ℤ challenge.expires_at c.now ≡ false
        → wa.authentication_of challenge.challenge_json ≡ some s
        → Runs c d1 (enter_if_right wa state a credential s) (Succeeds (Enters P))
    unfolding Enters
    then-Enters P challenge a s d1 p found_c owner fresh read =
        Runs-enter_if_right d1 state a credential s _ (λ outcome resp d' right entered same.
          (a, p, challenge_right challenge a s outcome found_c owner fresh read right, entered))

    passkey_login_finish-Enters :
        Runs c d
          (passkey_login_finish wa state challenge_id credential)
          (Succeeds (Enters (λ a. Unit)))
    unfolding passkey_login_finish get_passkey_challenge delete_passkey_challenge
    passkey_login_finish-Enters = Runs-or_500 c d _ _ _ (
        Runs-query c d _ _
          (Runs-on_option c d _ _ _ _
            (λ challenge found_c. Runs-bind c d _ _ _ (
              Runs-now c d _ (
                Runs-if c d _ _ _ _
                  (λ old. Runs-bind c d _ _ _ (
                    Runs-ignore c d _ _ (
                      Runs-update c d _ _ (Succeeds-status c _ _ 400 (omega arith))
                        (λ x q. Succeeds-status c d _ 400 (omega arith)))))
                  (λ fresh.
                    Runs-on_option c d _ _ _ _
                      (λ a owner.
                        Runs-on_option c d _ _ _ _
                          (λ s read. Runs-bind c d _ _ _ (
                            Runs-ignore c d _ _ (
                              Runs-update c d _ _
                                (then-Enters _ challenge a s _ tt found_c owner fresh read)
                                (λ x q.
                                  then-Enters _ challenge a s d tt found_c owner fresh read))))
                          (λ e. Succeeds-status c d _ 500 (omega arith)))
                      (λ e. Succeeds-status c d _ 500 (omega arith))))))
            (λ e. Succeeds-status c d _ 400 (omega arith)))
          (λ x q. λ s. absurd (omega arith)))

-- Whatever fails on the way, a login with a passkey that is answered by 200 has answered a stored
-- login challenge rightly, one that had not run out, and has made a session of the challenge's
-- account, which is the one found by the id in the cookie.
pub passkey_login_finish-Entered :
    (wa : Webauthn) (state : AuthState) (challenge_id : String) (credential : wa.Credential)
    (w : World) (resp : Response)
    → result (passkey_login_finish wa state challenge_id credential) w ≡ ok resp
    → resp.status ≡ 200
    → (a : String) × RightAnswer wa challenge_id credential a w.now w.db
      × Entered state a resp w.now
          (after (passkey_login_finish wa state challenge_id credential) w).db
unfolding Enters
passkey_login_finish-Entered wa state challenge_id credential w resp e s =
    let (a, p, right, entered) =
      subst
        (λ r.
          Succeeds
            (Enters (record { now = w.now; ids = w.ids; quiet = false }) wa state challenge_id
              credential w.db (λ a. Unit))
            r (after (passkey_login_finish wa state challenge_id credential) w).db)
        e
        (runs_in (passkey_login_finish wa state challenge_id credential) _ w
          (passkey_login_finish-Enters _ wa state challenge_id credential w.db))
        s in
    (a, right, entered)
