-- ===== src/Auth/Login/Entering.antt =====
-- auth/src/routes.rs and session.rs: the cookie of a login admits the account afterwards.
use spwn.Base.{String, ◌==◌, ◌≡◌, refl, sym, ap, ◌∙◌, false, some, [], ◌∷◌, find, arith, subst}
use spwn.Base.Int.{ℤ, ltb_ℤ, ◌+ℤ◌, ◌≤ℤ◌}
use spwn.Db.Rows.{Db, SessionRow, AccountRow}
use spwn.Db.Tokens.{get_session}
use spwn.World.{
  World, ok, result, after, pure, attempt, gets, query, transact, on_result, on_option, ◌>>=◌,
}
use spwn.Auth.Http.{Crypto, AuthState, Headers, Response, session_cookie, new_session}
use spwn.Auth.Session.{account, by_session, account_id}
use spwn.Auth.Login.{LoginRequest, login}
use spwn.Auth.Login.Sound.{Proves, LoggedIn, by_password, half_way, login-LoggedIn}

not_over : (now expires : ℤ) → now ≤ℤ expires → ltb_ℤ expires now ≡ false
not_over now expires h = ground arith

by_session-quiet :
    (session_id : String) (s : SessionRow) (w : World)
    → w.faults ≡ []
    → find (λ s. SessionRow.id s == session_id) w.db.sessions ≡ some s
    → w.now ≤ℤ s.expires_at
    → result (by_session session_id) w ≡ ok (account s.account_id)
unfolding by_session get_session query transact attempt gets pure on_result ◌>>=◌
by_session-quiet session_id s w f stored fresh =
    rw f (rw stored (rw (not_over w.now s.expires_at fresh) refl))

account_id-quiet :
    (crypto : Crypto) (h : Headers) (session_id : String) (w : World)
    → h.session_cookie ≡ some session_id
    → result (account_id crypto h) w ≡ result (by_session session_id) w
unfolding account_id on_option
account_id-quiet crypto h session_id w e = rw e refl

-- The session that belongs to the one cookie of the response.
session_of :
    {state : AuthState} {a : AccountRow} {resp : Response} {now : ℤ} {d d' : Db} (id : String)
    → resp.cookies ≡ session_cookie state id ∷ []
    → LoggedIn state a resp now d d'
    → find (λ s. SessionRow.id s == id) d'.sessions
      ≡ some (new_session id a.id now state.session_ttl_secs)
session_of {state} {a} {now} {d'} id e (by_password id2 mode e2 stored) =
    let same : id2 ≡ id = cc (sym e2 ∙ e) in
    subst
      (λ i.
        find (λ s. SessionRow.id s == i) d'.sessions
        ≡ some (new_session i a.id now state.session_ttl_secs))
      same stored
session_of id e (half_way t mode none' stored owner same) = cc (sym e ∙ none')

-- The cookie that a login has set admits the account of the login, and no other, as long as the
-- session lasts and the database answers.
pub login-account_id :
    (crypto : Crypto) (state : AuthState) (req : LoginRequest) (w : World) (resp : Response)
    (id : String) (h : Headers) (w' : World)
    → result (login crypto state req) w ≡ ok resp
    → resp.status ≡ 200
    → resp.cookies ≡ session_cookie state id ∷ []
    → h.session_cookie ≡ some id
    → w'.db ≡ (after (login crypto state req) w).db
    → w'.faults ≡ []
    → w'.now ≤ℤ w.now +ℤ state.session_ttl_secs
    → (a : AccountRow) × Proves crypto req a w.db
      × (result (account_id crypto h) w' ≡ ok (account a.id))
login-account_id crypto state req w resp id h w' done ok_status cookie header same f fresh =
    let (a, proves, entered) = login-LoggedIn crypto state req w resp done ok_status in
    let stored = session_of id cookie entered in
    (
      a,
      proves,
      account_id-quiet crypto h id w' header
          ∙ by_session-quiet id (new_session id a.id w.now state.session_ttl_secs) w' f
              (ap (λ d. find (λ s. SessionRow.id s == id) (Db.sessions d)) same ∙ stored) fresh,
    )
