-- ===== src/Auth/Gateway/Opening.antt =====
-- auth/src/gateway.rs: the reasons to let a request to a VM through.
use spwn.Base.{
  String, ◌==◌, ◌≡◌, refl, ap, subst, ◌⊎◌, inl, inr, Bool, true, false, ◌||◌, Option, none, some,
  find, Among, find-Among, find_satisfies, eq_iff, arith, if◌then◌else◌,
}
use spwn.Base.Int.{ℤ, ◌<ℤ◌}
use spwn.Db.Rows.{Db, VmRow, SessionRow, VmAuthToken}
use spwn.Db.Vms.{equals}
use spwn.Db.Tokens.{get_session, create_session, consume_vm_auth_token, valid_token, taken}
use spwn.World.{Result, ok, err, Exec, pure, on_result}
use spwn.World.Runs.{
  Setting, Runs, Runs-bind, Runs-pure, Runs-now, Runs-new_v4, Runs-attempt, Runs-query,
  Runs-transact, Runs-constrained, Runs-on_option, Runs-if, Runs-weaken,
}
use spwn.Auth.Http.{AuthState, Headers, Response, status}
use spwn.Auth.Session.Sound.{ValidSession}
use spwn.Auth.Gateway.Entry.{
  AccessQuery, session_id_of, login_redirect, opens, by_cookie, admit_with_session, by_auth_token,
  private_access, shares, vm_access,
}

-- A one-time token for the VM that has not run out.
pub record ValidVmToken (token_id vm_id : String) (now : ℤ) (d : Db) : Type 0 where
  pub token : VmAuthToken
  pub stored : Among token d.vm_auth_tokens
  pub same_id : token.id ≡ token_id
  pub for_vm : token.vm_id ≡ vm_id
  pub fresh : now <ℤ token.expires_at

-- The reasons to let a request to a VM through.
pub data Opened (h : Headers) (q : AccessQuery) (vm : VmRow) (now : ℤ) (d : Db) : Type 0 where
  to_public : vm.is_public ≡ true → Opened h q vm now d
  by_share_token : (t : String) → q.token ≡ some t → vm.share_token ≡ some t → Opened h q vm now d
  by_vm_token :
      (t : String) → q.auth_token ≡ some t → ValidVmToken t vm.id now d → Opened h q vm now d
  by_owner :
      (session_id : String)
      → session_id_of h ≡ some session_id
      → ValidSession session_id vm.account_id now d
      → Opened h q vm now d

-- What a response that lets the request through satisfies.
abbrev pub Lets : Type 0 → Result Response → Db → Type 0
Lets P (ok resp) d = resp.status ≡ 200 → P
Lets P (err e) d = Unit

or_cases : (a b : Bool) → (a || b) ≡ true → (a ≡ true) ⊎ (b ≡ true)
or_cases true b e = inl refl
or_cases false b e = inr e

equals-some : (o : Option String) (t : String) → equals o t ≡ true → o ≡ some t
equals-some none t e = cc
equals-some (some u) t e = ap some ((eq_iff u t).0 e)

module _ (c : Setting) (state : AuthState) (host : String) (h : Headers) (vm : VmRow) where
  turned_away : {P : Type 0} (d : Db) → Runs c d (pure (login_redirect state host)) (Lets P)
  unfolding login_redirect
  turned_away d = Runs-pure c d _ _ (λ s. absurd (omega arith))

  lets_if :
      {P : Type 0} (b : Bool)
      → (b ≡ true → P)
      → Response.status (if b then status 200 else login_redirect state host) ≡ 200
      → P
  unfolding login_redirect
  lets_if true p s = p refl
  lets_if false p s = absurd (omega arith)

  ByOwner : Db → Type 0
  ByOwner d =
      (session_id : String) × (session_id_of h ≡ some session_id)
      × ValidSession session_id vm.account_id c.now d

  opens-valid :
      (d : Db) (session_id : String) (s : SessionRow)
      → find (λ s. SessionRow.id s == session_id) d.sessions ≡ some s
      → opens c.now vm s ≡ true
      → ValidSession session_id vm.account_id c.now d
  opens-valid d session_id s found_s e = record {
    session = s;
    stored = find-Among _ d.sessions s found_s;
    same_id = (eq_iff s.id session_id).0 (find_satisfies _ d.sessions s found_s);
    owned = ground (arith, eq_iff s.account_id vm.account_id);
    fresh = ground arith;
  }

  by_cookie-Lets : (d : Db) → Runs c d (by_cookie state host h vm) (Lets (ByOwner d))
  unfolding by_cookie get_session ByOwner
  by_cookie-Lets d =
      Runs-on_option c d _ _ _ _
        (λ sid e. Runs-bind c d _ _ _ (
          Runs-attempt c d _ _ (
            Runs-query c d _ _
              (Runs-bind c d _ _ _ (
                Runs-now c d _ (
                  Runs-on_option c d _ _ _ _
                    (λ s found_s. Runs-pure c d _ _ (
                      lets_if (opens c.now vm s)
                        (λ yes'. (sid, e, opens-valid d sid s found_s yes'))))
                    (λ e2. turned_away d))))
              (λ x q.
                Runs-bind c d _ _ _ (
                  Runs-now c d _
                    (Runs-on_option c d _ _ _ _ (λ s e2. cc) (λ e2. turned_away d)))))))
        (λ e. turned_away d)

  -- The session that is made for a token's account changes nothing that the cookie is judged by.
  admit_with_session-Lets :
      {P : Type 0} (d : Db) (account_id : String) (rest : Exec Response)
      → P
      → Runs c d rest (Lets P)
      → Runs c d (admit_with_session state account_id rest) (Lets P)
  unfolding admit_with_session create_session on_result
  admit_with_session-Lets d account_id rest p k = Runs-bind c d _ _ _ (
      Runs-now c d _ (
        Runs-bind c d _ _ _ (
          Runs-new_v4 c d _ (λ i. Runs-bind c d _ _ _ (
            Runs-attempt c d _ _ (
              Runs-bind c d _ _ _ (
                Runs-constrained c d _ _ _ (λ v. Runs-pure c _ _ _ (Runs-pure c _ _ _ (λ s. p)))
                  (λ x v. k) (λ x q. k))))))))

  vm_token-valid :
      (d : Db) (t : String) (token : VmAuthToken)
      → find (valid_token t c.now) d.vm_auth_tokens ≡ some token
      → (token.vm_id == vm.id) ≡ true
      → ValidVmToken t vm.id c.now d
  vm_token-valid d t token found_t e =
      let valid = find_satisfies (valid_token t c.now) d.vm_auth_tokens token found_t in
      record {
        token = token;
        stored = find-Among _ d.vm_auth_tokens token found_t;
        same_id = ground (arith, eq_iff token.id t);
        for_vm = (eq_iff token.vm_id vm.id).0 e;
        fresh = ground arith;
      }

  module _ (q : AccessQuery) where
    owner_opens :
        (d d' : Db)
        → d'.sessions ≡ d.sessions
        → (r : Result Response) (d2 : Db) → Lets (ByOwner d') r d2
        → Lets (Opened h q vm c.now d) r d2
    unfolding ByOwner
    owner_opens d d' same (err x) d2 k = tt
    owner_opens d d' same (ok resp) d2 k = λ s.
        let (sid, e, v) = k s in
        by_owner sid e (record {
          session = v.session;
          stored = subst (λ l. Among v.session l) same v.stored;
          same_id = v.same_id;
          owned = v.owned;
          fresh = v.fresh;
        })

    private_access-Lets :
        (d : Db) → Runs c d (private_access state host h q vm) (Lets (Opened h q vm c.now d))
    unfolding private_access by_auth_token consume_vm_auth_token taken ByOwner
    private_access-Lets d =
        let by_cookie_of = λ (d' : Db) (same : d'.sessions ≡ d.sessions).
          Runs-weaken c d' _ (Lets (Opened h q vm c.now d)) (by_cookie state host h vm)
            (owner_opens d d' same) (by_cookie-Lets d') in
        Runs-on_option c d _ _ _ _
          (λ t e. Runs-bind c d _ _ _ (
            Runs-attempt c d _ _ (
              Runs-bind c d _ _ _ (
                Runs-now c d _ (
                  Runs-transact c d _ _
                    (Runs-on_option c _ _ _ _ _
                      (λ token found_t.
                        Runs-if c _ _ _ _ _
                          (λ same_vm.
                            admit_with_session-Lets _ _ _
                              (by_vm_token t e (vm_token-valid d t token found_t same_vm))
                              (by_cookie_of _ refl))
                          (λ other_vm. by_cookie_of _ refl))
                      (λ missing. by_cookie_of _ refl))
                    (λ x loud.
                      Runs-on_option c d _ _ _ _ (λ token e2. cc) (λ e2. by_cookie_of d refl)))))))
          (λ e. by_cookie_of d refl)

    share_opens :
        (d : Db) (o : Option String) → q.token ≡ o → shares vm o ≡ true → Opened h q vm c.now d
    share_opens d none e s = cc
    share_opens d (some t) e s = by_share_token t e (equals-some vm.share_token t s)

    unguarded :
        (d : Db) → (vm.is_public ≡ true) ⊎ (shares vm q.token ≡ true) → Opened h q vm c.now d
    unguarded d (inl p) = to_public p
    unguarded d (inr s) = share_opens d q.token refl s

    pub vm_access-Lets :
        (d : Db) → Runs c d (vm_access state host h q vm) (Lets (Opened h q vm c.now d))
    unfolding vm_access
    vm_access-Lets d =
        Runs-if c d _ _ _ _
          (λ open'. Runs-pure c d _ _ (λ s. unguarded d (or_cases vm.is_public _ open')))
          (λ closed. private_access-Lets d)
