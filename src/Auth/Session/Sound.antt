-- ===== src/Auth/Session/Sound.antt =====
-- auth/src/session.rs: an account that is admitted has shown a credential of its own.
use spwn.Base.{
  String, ◌==◌, ◌≡◌, refl, ap, ◌∙◌, ◌⊎◌, inl, inr, Option, none, some, find, Among, find-Among,
  find_satisfies, eq_iff, arith, Bool-cases,
}
use spwn.Base.Int.{ℤ, ltb_ℤ, ◌≤ℤ◌}
use spwn.Base.Text.{strip_prefix}
use spwn.Db.Rows.{Db, SessionRow, ApiTokenRow}
use spwn.Db.Tokens.{get_session, get_account_id_by_token_hash, touch_api_token, account_of}
use spwn.World.{World, Result, ok, result, on_result}
use spwn.World.Runs.{
  Setting, Runs, Runs-bind, Runs-pure, Runs-now, Runs-attempt, Runs-ignore, Runs-query, Runs-update,
  Runs-weaken, Runs-on_option, runs_in,
}
use spwn.Auth.Http.{Headers, Crypto}
use spwn.Auth.Session.{Identity, account, identity_of, by_session, by_token, account_id}

-- An account's session that has not run out.
pub record ValidSession (session_id a : String) (now : ℤ) (d : Db) : Type 0 where
  pub session : SessionRow
  pub stored : Among session d.sessions
  pub same_id : session.id ≡ session_id
  pub owned : session.account_id ≡ a
  pub fresh : now ≤ℤ session.expires_at

-- An API token of the account, by its hash.
pub record ValidToken (token_hash a : String) (d : Db) : Type 0 where
  pub token : ApiTokenRow
  pub stored : Among token d.api_tokens
  pub same_hash : token.token_hash ≡ token_hash
  pub owned : token.account_id ≡ a

-- The cookie counts first. Without one, the bearer's text is an API token or a session's id.
pub data Shows (crypto : Crypto) (h : Headers) (a : String) (now : ℤ) (d : Db) : Type 0 where
  by_cookie :
      (session_id : String)
      → h.session_cookie ≡ some session_id
      → ValidSession session_id a now d
      → Shows crypto h a now d
  by_bearer :
      (auth raw : String)
      → h.session_cookie ≡ none
      → h.authorization ≡ some auth
      → strip_prefix "Bearer " auth ≡ some raw
      → ValidToken (crypto.sha256_hex raw) a d ⊎ ValidSession raw a now d
      → Shows crypto h a now d

-- What an admitted account satisfies.
abbrev Admits : (String → Type 0) → Result Identity → Db → Type 0
Admits P r d = (a : String) → r ≡ ok (account a) → P a

identity_of-valid :
    (session_id : String) (now : ℤ) (d : Db) (o : Option SessionRow)
    → find (λ s. SessionRow.id s == session_id) d.sessions ≡ o
    → (a : String) → Path (Result Identity) (ok (identity_of now o)) (ok (account a))
    → ValidSession session_id a now d
identity_of-valid session_id now d none h a e = cc
identity_of-valid session_id now d (some s) h a e = elim (Bool-cases (ltb_ℤ s.expires_at now)) [
  | inl old ↦ cc (rw old at e)
  | inr fresh ↦ record {
    session = s;
    stored = find-Among _ d.sessions s h;
    same_id = (eq_iff s.id session_id).0 (find_satisfies _ d.sessions s h);
    owned = cc (rw fresh at e);
    fresh = ground arith;
  }
]

admitted_is : (b a : String) → Path (Result Identity) (ok (account b)) (ok (account a)) → b ≡ a
admitted_is b a e = cc

module _ (c : Setting) (d : Db) where
  by_session-Admits :
      (session_id : String)
      → Runs c d (by_session session_id) (Admits (λ a. ValidSession session_id a c.now d))
  unfolding by_session get_session on_result
  by_session-Admits session_id = Runs-bind c d _ _ _ (
      Runs-now c d _ (
        Runs-bind c d _ _ _ (
          Runs-attempt c d _ _ (
            Runs-query c d _ _
              (Runs-pure c d _ _ (λ a e. identity_of-valid session_id c.now d _ refl a e))
              (λ x q. Runs-pure c d _ _ (λ a e. cc))))))

  token-valid :
      (token_hash a : String) (o : Option ApiTokenRow)
      → find (λ t. ApiTokenRow.token_hash t == token_hash) d.api_tokens ≡ o
      → account_of o ≡ some a
      → ValidToken token_hash a d
  token-valid token_hash a none h e = cc
  token-valid token_hash a (some t) h e = record {
    token = t;
    stored = find-Among _ d.api_tokens t h;
    same_hash = (eq_iff t.token_hash token_hash).0 (find_satisfies _ d.api_tokens t h);
    owned = cc;
  }

  by_token-Admits :
      (crypto : Crypto) (raw : String)
      → Runs c d
          (by_token crypto raw)
          (Admits (λ a. ValidToken (crypto.sha256_hex raw) a d ⊎ ValidSession raw a c.now d))
  unfolding by_token get_account_id_by_token_hash touch_api_token
  by_token-Admits crypto raw =
      let next =
        Runs-weaken c d _
          (Admits (λ a. ValidToken (crypto.sha256_hex raw) a d ⊎ ValidSession raw a c.now d))
          (by_session raw) (λ r d' s a e. inr (s a e)) (by_session-Admits raw) in
      Runs-bind c d _ _ _ (
        Runs-now c d _ (
          Runs-bind c d _ _ _ (
            Runs-attempt c d _ _ (
              Runs-query c d _ _
                (Runs-on_option c d _ _ _ _
                  (λ b h. Runs-bind c d _ _ _ (
                    Runs-ignore c d _ _ (
                      Runs-update c d _ _
                        (Runs-pure c _ _ _
                          (λ a e. inl (token-valid _ a _ refl (h ∙ ap some (admitted_is b a e)))))
                        (λ x q. Runs-pure c d _ _ (λ a e.
                          inl (token-valid _ a _ refl (h ∙ ap some (admitted_is b a e))))))))
                  (λ h. next))
                (λ x q. Runs-on_option c d _ _ _ _ (λ b h. cc) (λ h. next))))))

  -- The header counts when there is no cookie.
  account_id-Admits :
      (crypto : Crypto) (h : Headers)
      → Runs c d (account_id crypto h) (Admits (λ a. Shows crypto h a c.now d))
  unfolding account_id
  account_id-Admits crypto h =
      Runs-on_option c d _ _ _ _
        (λ sid e.
          Runs-weaken c d _ _ _ (λ r d' s a e'. by_cookie sid e (s a e')) (by_session-Admits sid))
        (λ e.
          Runs-on_option c d _ _ _ _
            (λ auth e2.
              Runs-on_option c d _ _ _ _
                (λ raw e3.
                  Runs-weaken c d _ _ _ (λ r d' s a e'. by_bearer auth raw e e2 e3 (s a e'))
                    (by_token-Admits crypto raw))
                (λ e3. Runs-pure c d _ _ (λ a e'. cc)))
            (λ e2. Runs-pure c d _ _ (λ a e'. cc)))

-- Whatever fails on the way, a request is admitted as an account only when it shows a session of
-- this account that has not run out, in its cookie or as its bearer's text, or one of the account's
-- API tokens. The bearer's text is looked at only without a cookie.
pub account_id-Shows :
    (crypto : Crypto) (h : Headers) (w : World) (a : String)
    → result (account_id crypto h) w ≡ ok (account a)
    → Shows crypto h a w.now w.db
account_id-Shows crypto h w a e =
    runs_in (account_id crypto h) _ w (account_id-Admits _ w.db crypto h) a e
