-- ===== src/Auth/Passkey/Entering/Second.antt =====
-- auth/src/passkey.rs: what the second factor comes to.
use spwn.Base.{
  String, ◌≡◌, refl, ap, subst, false, not, Option, none, some, find, Among, find-Among,
  find_satisfies, eq_iff, arith,
}
use spwn.Base.Int.{ℤ, ltb_ℤ, ◌≤ℤ◌}
use spwn.Db.Rows.{Db, PasskeyChallenge, login, PendingAuthToken}
use spwn.Db.Vms.{equals}
use spwn.Db.Passkeys.{
  get_passkey_challenge, is_challenge, delete_passkey_challenge, get_pending_auth_token,
  delete_pending_auth_token,
}
use spwn.World.{World, ok, result, after, ignore, ◌>>◌}
use spwn.World.Runs.{
  Setting, Runs, Runs-bind, Runs-now, Runs-ignore, Runs-query, Runs-update, Runs-on_option, Runs-if,
  runs_in,
}
use spwn.Auth.Http.{AuthState, Response}
use spwn.Auth.Http.Rules.{Succeeds, Succeeds-status, Runs-or_500}
use spwn.Auth.Webauthn.{Webauthn}
use spwn.Auth.Passkey.Entering.Sound.{RightAnswer, Entered, Enters, then-Enters, still_fresh}
use spwn.Auth.Passkey.Entering.{
  enter_if_right, verify_with, verify_challenge, for_pending, passkey_verify,
}

-- A token for the second factor that has not run out.
pub record ValidPending (pending_token a : String) (now : ℤ) (d : Db) : Type 0 where
  pub token : PendingAuthToken
  pub stored : Among token d.pending_auth_tokens
  pub same_id : token.id ≡ pending_token
  pub owner : token.account_id ≡ a
  pub fresh : now ≤ℤ token.expires_at

equals-owner : (o : Option String) (a : String) → not (equals o a) ≡ false → o ≡ some a
equals-owner none a e = cc
equals-owner (some t) a e = ap some (ground (arith, eq_iff t a))

module _ (c : Setting) (wa : Webauthn) (state : AuthState) (challenge_id : String)
    (credential : wa.Credential) (d : Db) (pending_token : String) where
  abbrev Reached : (String → Type 0) → Response → Db → Type 0
  Reached = Enters c wa state challenge_id credential d

  abbrev Pending : String → Type 0
  Pending a = ValidPending pending_token a c.now d

  verify_with-Enters :
      (token : PendingAuthToken) (challenge : PasskeyChallenge)
      → Pending token.account_id
      → find (is_challenge challenge_id login) d.passkey_challenges ≡ some challenge
      → challenge.account_id ≡ some token.account_id
      → ltb_ℤ challenge.expires_at c.now ≡ false
      → Runs c d
          (verify_with wa state pending_token challenge_id credential token challenge)
          (Succeeds (Reached Pending))
  unfolding verify_with delete_passkey_challenge delete_pending_auth_token
  verify_with-Enters token challenge p found_c owner fresh =
      Runs-on_option c d _ _ _ _
        (λ s read.
          let go : (d1 : Db)
              → Runs c d1 (enter_if_right wa state token.account_id credential s)
                  (Succeeds (Reached Pending)) =
            λ d1.
              then-Enters c wa state challenge_id credential d Pending challenge token.account_id s
                d1 p found_c owner fresh read in
          let used : (d1 : Db)
              → Runs c d1
                  (ignore (delete_pending_auth_token pending_token)
                    >> enter_if_right wa state token.account_id credential s)
                  (Succeeds (Reached Pending)) =
            λ d1.
              Runs-bind c d1 _ _ _
                (Runs-ignore c d1 _ _ (Runs-update c d1 _ _ (go _) (λ x q. go d1))) in
          Runs-bind c d _ _ _ (Runs-ignore c d _ _ (Runs-update c d _ _ (used _) (λ x q. used d))))
        (λ e. Succeeds-status c d _ 500 (omega arith))

  verify_challenge-Enters :
      (token : PendingAuthToken)
      → Pending token.account_id
      → Runs c d
          (verify_challenge wa state pending_token challenge_id credential token)
          (Succeeds (Reached Pending))
  unfolding verify_challenge get_passkey_challenge delete_passkey_challenge
  verify_challenge-Enters token p = Runs-or_500 c d _ _ _ (
      Runs-query c d _ _
        (Runs-on_option c d _ _ _ _
          (λ challenge found_c. Runs-bind c d _ _ _ (
            Runs-now c d _ (
              Runs-if c d _ _ _ _
                (λ old. Runs-bind c d _ _ _ (
                  Runs-ignore c d _ _ (
                    Runs-update c d _ _ (Succeeds-status c _ _ 400 (omega arith))
                      (λ x q. Succeeds-status c d _ 400 (omega arith)))))
                (λ fresh.
                  Runs-if c d _ _ _ _ (λ other. Succeeds-status c d _ 403 (omega arith))
                    (λ own.
                      verify_with-Enters token challenge p found_c
                        (equals-owner challenge.account_id token.account_id own) fresh)))))
          (λ e. Succeeds-status c d _ 400 (omega arith)))
        (λ x q. λ s. absurd (omega arith)))

  passkey_verify-Enters :
      Runs c d
        (passkey_verify wa state pending_token challenge_id credential)
        (Succeeds (Reached Pending))
  unfolding passkey_verify for_pending get_pending_auth_token delete_pending_auth_token
  passkey_verify-Enters = Runs-or_500 c d _ _ _ (
      Runs-query c d _ _
        (Runs-on_option c d _ _ _ _
          (λ token found_t. Runs-bind c d _ _ _ (
            Runs-now c d _ (
              Runs-if c d _ _ _ _
                (λ old. Runs-bind c d _ _ _ (
                  Runs-ignore c d _ _ (
                    Runs-update c d _ _ (Succeeds-status c _ _ 401 (omega arith))
                      (λ x q. Succeeds-status c d _ 401 (omega arith)))))
                (λ fresh. verify_challenge-Enters token (record {
                  token = token;
                  stored = find-Among _ d.pending_auth_tokens token found_t;
                  same_id =
                      (eq_iff token.id pending_token).0
                        (find_satisfies _ d.pending_auth_tokens token found_t);
                  owner = refl;
                  fresh = still_fresh c.now token.expires_at fresh;
                })))))
          (λ e. Succeeds-status c d _ 401 (omega arith)))
        (λ x q. λ s. absurd (omega arith)))

-- Whatever fails on the way, a second factor that is answered by 200 came with a token of a login
-- that had not run out, has answered a stored login challenge of the token's account rightly, one
-- that had not run out, and has made a session of this account, which is the one found by the id in
-- the cookie.
pub passkey_verify-Entered :
    (wa : Webauthn) (state : AuthState) (pending_token challenge_id : String)
    (credential : wa.Credential) (w : World) (resp : Response)
    → result (passkey_verify wa state pending_token challenge_id credential) w ≡ ok resp
    → resp.status ≡ 200
    → (a : String) × ValidPending pending_token a w.now w.db
      × RightAnswer wa challenge_id credential a w.now w.db
      × Entered state a resp w.now
          (after (passkey_verify wa state pending_token challenge_id credential) w).db
unfolding Enters
passkey_verify-Entered wa state pending_token challenge_id credential w resp e s =
    subst
      (λ r.
        Succeeds
          (Enters (record { now = w.now; ids = w.ids; quiet = false }) wa state challenge_id
            credential w.db (λ a. ValidPending pending_token a w.now w.db))
          r (after (passkey_verify wa state pending_token challenge_id credential) w).db)
      e
      (runs_in (passkey_verify wa state pending_token challenge_id credential) _ w
        (passkey_verify-Enters _ wa state challenge_id credential w.db pending_token))
      s
