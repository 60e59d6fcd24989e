-- ===== src/Auth/Login/Sound.antt =====
-- auth/src/routes.rs: what a login with a password comes to.
use spwn.Base.{
  String, ◌==◌, ◌≡◌, refl, ap, subst, inl, inr, Bool, true, false, Option, none, some, List, [],
  ◌∷◌, ◌++◌, find, Among, find-Among, find_satisfies, eq_iff, arith,
}
use spwn.Base.Int.{ℤ}
use spwn.Db.Rows.{
  Db, AccountRow, AuthMode, password, passkey, password_passkey, SessionRow, PendingAuthToken,
}
use spwn.Db.Accounts.{get_account_by_email}
use spwn.Db.Passkeys.{create_pending_auth_token}
use spwn.World.{World, Result, ok, err, result, after}
use spwn.World.Runs.{
  Setting, Runs, Runs-bind, Runs-pure, Runs-now, Runs-new_v4, Runs-query, Runs-constrained,
  Runs-on_option, Runs-if, Runs-weaken, runs_in,
}
use spwn.Auth.Http.{Crypto, AuthState, Response, session_cookie, new_session, status, with_session}
use spwn.Auth.Http.Rules.{Succeeds, Succeeds-status, Runs-or_500, Runs-create_session, plus_session}
use spwn.Auth.Login.{
  LoginRequest, verify_password, confirmed, open_session, ask_for_passkey, by_mode, login_to, login,
}

-- The account of the email address, whose password the request has.
pub record Proves (crypto : Crypto) (req : LoginRequest) (a : AccountRow) (d : Db) : Type 0 where
  pub stored : Among a d.accounts
  pub same_email : a.email ≡ req.email
  pub hash : String
  pub has_hash : a.password_hash ≡ some hash
  pub right : verify_password crypto req.password hash ≡ some true

confirmed-some : (o : Option Bool) → confirmed o ≡ true → o ≡ some true
confirmed-some none e = cc
confirmed-some (some b) e = ap some e

-- A session and its cookie for the mode with a password only. For the mode with both factors there
-- is no session yet, but a token for the second one.
pub data LoggedIn (state : AuthState) (a : AccountRow) (resp : Response) (now : ℤ) (d d' : Db)
    : Type 0 where
  by_password :
      (id : String)
      → a.auth_mode ≡ password
      → resp.cookies ≡ session_cookie state id ∷ []
      → find (λ s. SessionRow.id s == id) d'.sessions
        ≡ some (new_session id a.id now state.session_ttl_secs)
      → LoggedIn state a resp now d d'
  half_way :
      (t : PendingAuthToken)
      → a.auth_mode ≡ password_passkey
      → resp.cookies ≡ []
      → Among t d'.pending_auth_tokens
      → t.account_id ≡ a.id
      → d'.sessions ≡ d.sessions
      → LoggedIn state a resp now d d'

Among-snoc : {A : Type 0} (xs : List A) (a : A) → Among a (xs ++ a ∷ [])
Among-snoc [] a = inl refl
Among-snoc (x ∷ xs) a = inr (Among-snoc xs a)

module _ (c : Setting) (state : AuthState) (d : Db) where
  Opens : AccountRow → Response → Db → Type 0
  Opens a resp d' = LoggedIn state a resp c.now d d'

  -- The session is the one found by the id in the cookie.
  pub Runs-open_session :
      (Q : Result Response → Db → Type 0) (a : String)
      → ((id : String)
          → find
              (λ s. SessionRow.id s == id)
              (plus_session (new_session id a c.now state.session_ttl_secs) d).sessions
            ≡ some (new_session id a c.now state.session_ttl_secs)
          → Q
              (ok (with_session state id))
              (plus_session (new_session id a c.now state.session_ttl_secs) d))
      → Q (ok (status 500)) d
      → Runs c d (open_session state a) Q
  unfolding open_session
  Runs-open_session Q a made failed = Runs-bind c d _ _ _ (
      Runs-now c d _ (
        Runs-bind c d _ _ _ (
          Runs-new_v4 c d _ (λ i. Runs-or_500 c d _ _ _ (
            Runs-create_session c d _ _ (λ stored. Runs-pure c _ _ _ (made (c.ids i) stored))
              (λ e. failed))))))

  open_session-Succeeds :
      (a : AccountRow)
      → a.auth_mode ≡ password
      → Runs c d (open_session state a.id) (Succeeds (Opens a))
  unfolding Opens
  open_session-Succeeds a mode =
      Runs-open_session _ a.id (λ id stored. λ s. by_password id mode refl stored)
        (λ s. absurd (omega arith))

  ask_for_passkey-Succeeds :
      (a : AccountRow)
      → a.auth_mode ≡ password_passkey
      → Runs c d (ask_for_passkey a.id) (Succeeds (Opens a))
  unfolding ask_for_passkey create_pending_auth_token Opens
  ask_for_passkey-Succeeds a mode = Runs-bind c d _ _ _ (
      Runs-new_v4 c d _ (λ i. Runs-bind c d _ _ _ (
        Runs-now c d _ (
          Runs-or_500 c d _ _ _ (
            Runs-constrained c d _ _ _
              (λ v.
                Runs-pure c _ _ _
                  (λ s. half_way _ mode refl (Among-snoc d.pending_auth_tokens _) refl refl))
              (λ x v. λ s. absurd (omega arith)) (λ x q. λ s. absurd (omega arith)))))))

  by_mode-Succeeds :
      (m : AuthMode) (a : AccountRow)
      → a.auth_mode ≡ m
      → Runs c d (by_mode m state a.id) (Succeeds (Opens a))
  unfolding by_mode
  by_mode-Succeeds password a e = open_session-Succeeds a e
  by_mode-Succeeds passkey a e = Succeeds-status c d _ 401 (omega arith)
  by_mode-Succeeds password_passkey a e = ask_for_passkey-Succeeds a e

  module _ (crypto : Crypto) (req : LoginRequest) where
    -- The account has been found by its email address.
    IsUser : AccountRow → Type 0
    IsUser a = Among a d.accounts × (a.email ≡ req.email)

    Enters : Response → Db → Type 0
    Enters resp d' = (a : AccountRow) × Proves crypto req a d × LoggedIn state a resp c.now d d'

    enters :
        (a : AccountRow)
        → Proves crypto req a d
        → (r : Result Response) (d' : Db) → Succeeds (Opens a) r d'
        → Succeeds Enters r d'
    unfolding Enters Opens
    enters a p (err e) d' k = tt
    enters a p (ok resp) d' k = λ s. (a, p, k s)

    login_to-Succeeds :
        (a : AccountRow) → IsUser a → Runs c d (login_to crypto state req a) (Succeeds Enters)
    unfolding login_to IsUser
    login_to-Succeeds a (stored, same_email) =
        Runs-if c d _ _ _ _ (λ e. Succeeds-status c d _ 401 (omega arith))
          (λ e.
            Runs-on_option c d _ _ _ _
              (λ hash has_hash.
                Runs-if c d _ _ _ _
                  (λ right.
                    Runs-weaken c d _ _ _
                      (enters a (record {
                        stored = stored;
                        same_email = same_email;
                        hash = hash;
                        has_hash = has_hash;
                        right = confirmed-some _ right;
                      }))
                      (by_mode-Succeeds a.auth_mode a refl))
                  (λ wrong. Succeeds-status c d _ 401 (omega arith)))
              (λ e2. Succeeds-status c d _ 401 (omega arith)))

    login-Succeeds : Runs c d (login crypto state req) (Succeeds Enters)
    unfolding login get_account_by_email IsUser
    login-Succeeds = Runs-or_500 c d _ _ _ (
        Runs-query c d _ _
          (Runs-on_option c d _ _ _ _
            (λ a found_a. login_to-Succeeds a (
              find-Among _ d.accounts a found_a,
              (eq_iff a.email req.email).0 (find_satisfies _ d.accounts a found_a),
            ))
            (λ missing. Succeeds-status c d _ 401 (omega arith)))
          (λ x q. λ s. absurd (omega arith)))

-- Whatever fails on the way, a login that is answered by 200 was for an account with the email
-- address and the password of the request. For the mode `password` it has made a session of this
-- account, which is the one found by the id in the cookie. For the mode `password_passkey` it has
-- made a token for the second factor, and neither a session nor a cookie. There is no third case.
pub login-LoggedIn :
    (crypto : Crypto) (state : AuthState) (req : LoginRequest) (w : World) (resp : Response)
    → result (login crypto state req) w ≡ ok resp
    → resp.status ≡ 200
    → (a : AccountRow) × Proves crypto req a w.db
      × LoggedIn state a resp w.now w.db (after (login crypto state req) w).db
unfolding Enters
login-LoggedIn crypto state req w resp e s =
    subst
      (λ r.
        Succeeds (Enters (record { now = w.now; ids = w.ids; quiet = false }) state w.db crypto req)
          r (after (login crypto state req) w).db)
      e (runs_in (login crypto state req) _ w (login-Succeeds _ state w.db crypto req)) s
