-- ===== src/Auth/Cli/Turns.antt =====
-- auth/src/routes.rs: the life of a code, as a state machine that the handlers implement.
use spwn.Base.{
  String, ◌==◌, ◌≡◌, refl, sym, subst, ◌⊎◌, inl, true, not, ◌||◌, Option, some, find, eq_iff,
}
use spwn.Base.Int.{ltb_ℤ}
use spwn.Db.Rows.{Db, CliAuthCode, CodeStatus, pending, authorized, denied}
use spwn.Db.Tokens.{
  is_code, create_cli_auth_code, get_cli_auth_code, update_codes, authorize_cli_auth_code,
  deny_cli_auth_code, create_api_token,
}
use spwn.World.{World, Exec, pure, after}
use spwn.World.Runs.{
  Setting, Runs, Runs-bind, Runs-pure, Runs-now, Runs-new_v4, Runs-query, Runs-update,
  Runs-constrained, Runs-on_option, Runs-if, runs_in,
}
use spwn.Auth.Http.{Crypto, AuthState, Response}
use spwn.Auth.Http.Rules.{Runs-or_500, no_clash}
use spwn.Auth.Cli.{cli_init, mint, by_status, cli_poll, is_pending_code, cli_authorize, cli_deny}
use spwn.Auth.Cli.Views.{
  view_of, view, Turn, find-update_codes, find-snoc_if, Moves, asked, denied_turn, granted_turn,
  pending_waits, unused_pending, after_turn, waiting, turned_down, granted, stay,
}

module _ (c : Setting) (d : Db) (k : String) where
  still : {A : Type 0} (a : A) → Runs c d (pure a) (Moves k d)
  still a = Runs-pure c d _ _ (stay _)

  cli_init-Moves :
      (state : AuthState) (drawn : String) (base_url : Option String)
      → Runs c d (cli_init state drawn base_url) (Moves k d)
  unfolding cli_init create_cli_auth_code
  cli_init-Moves state drawn base_url = Runs-bind c d _ _ _ (
      Runs-now c d _ (
        Runs-or_500 c d _ _ _ (
          Runs-constrained c d _ _ _
            (λ v. Runs-pure c _ _ _ (
              subst (λ o. Turn (view k d) (view_of o))
                (sym (find-snoc_if k _ d.cli_auth_codes (no_clash _ _ _ v)))
                (asked _ k d _ refl refl (no_clash _ _ _ v))))
            (λ x v. stay _) (λ x q. stay _))))

  mint-Moves :
      (crypto : Crypto) (simple : String → String) (code account_id : String)
      → Runs c d (mint crypto simple code account_id) (Moves k d)
  unfolding mint create_api_token
  mint-Moves crypto simple code account_id = Runs-bind c d _ _ _ (
      Runs-new_v4 c d _ (λ i. Runs-bind c d _ _ _ (
        Runs-new_v4 c d _ (λ j. Runs-or_500 c d _ _ _ (
          Runs-bind c d _ _ _ (
            Runs-now c d _ (
              Runs-bind c d _ _ _ (
                Runs-constrained c d _ _ _ (λ v. Runs-pure c _ _ _ (Runs-pure c _ _ _ (stay _)))
                  (λ x v. stay _) (λ x q. stay _)))))))))

  by_status-Moves :
      (s : CodeStatus) (crypto : Crypto) (simple : String → String) (code : String)
      (account_id : Option String)
      → Runs c d (by_status s crypto simple code account_id) (Moves k d)
  unfolding by_status
  by_status-Moves pending crypto simple code account_id = still _
  by_status-Moves denied crypto simple code account_id = still _
  by_status-Moves authorized crypto simple code account_id =
      Runs-on_option c d _ _ _ _ (λ a e. mint-Moves crypto simple code a) (λ e. still _)

  cli_poll-Moves :
      (crypto : Crypto) (simple : String → String) (code : String)
      → Runs c d (cli_poll crypto simple code) (Moves k d)
  unfolding cli_poll get_cli_auth_code
  cli_poll-Moves crypto simple code = Runs-bind c d _ _ _ (
      Runs-now c d _ (
        Runs-or_500 c d _ _ _ (
          Runs-query c d _ _
            (Runs-on_option c d _ _ _ _
              (λ e found_e.
                Runs-if c d _ (ltb_ℤ (CliAuthCode.expires_at e) c.now) _ _ (λ old. still _)
                  (λ fresh. by_status-Moves e.status crypto simple code e.account_id))
              (λ missing. still _))
            (λ x q. stay _))))

  -- The code that waits is the one that is granted.
  waits :
      (code : String) (e : CliAuthCode)
      → find (is_code code) d.cli_auth_codes ≡ some e
      → is_pending_code e.status ≡ true
      → (code == k) ≡ true
      → view k d ≡ waiting
  waits code e found_e p same =
      let same_code : code ≡ k = (eq_iff code k).0 same in
      subst (λ t. view_of (find (is_code t) d.cli_auth_codes) ≡ waiting) same_code
        (rw found_e (pending_waits e.status e.account_id p))

  cli_authorize-Moves :
      (account_id code : String) → Runs c d (cli_authorize account_id code) (Moves k d)
  unfolding cli_authorize get_cli_auth_code authorize_cli_auth_code update_codes
  cli_authorize-Moves account_id code = Runs-bind c d _ _ _ (
      Runs-now c d _ (
        Runs-or_500 c d _ _ _ (
          Runs-query c d _ _
            (Runs-on_option c d _ _ _ _
              (λ e found_e.
                Runs-if c d _
                  (ltb_ℤ (CliAuthCode.expires_at e) c.now || not (is_pending_code e.status)) _ _
                  (λ used. still _)
                  (λ unused. Runs-or_500 c d _ _ _ (
                    Runs-constrained c d _ _ _
                      (λ v. Runs-pure c _ _ _ (
                        subst (λ o. Turn (view k d) (view_of o))
                          (sym (find-update_codes k code _ (λ c2. refl) d.cli_auth_codes))
                          (granted_turn account_id (code == k) _
                            (waits code e found_e (unused_pending _ e.status unused)))))
                      (λ x v. stay _) (λ x q. stay _))))
              (λ missing. still _))
            (λ x q. stay _))))

  cli_deny-Moves : (account_id code : String) → Runs c d (cli_deny account_id code) (Moves k d)
  unfolding cli_deny deny_cli_auth_code update_codes
  cli_deny-Moves account_id code = Runs-or_500 c d _ _ _ (
      Runs-update c d _ _
        (Runs-pure c _ _ _ (
          subst (λ o. Turn (view k d) (view_of o))
            (sym (find-update_codes k code _ (λ c2. refl) d.cli_auth_codes))
            (denied_turn (code == k) _)))
        (λ x q. stay _))

-- The requests about codes.
pub data Call : Type 0 where
  init : String → Option String → Call
  poll : String → Call
  authorize : String → String → Call
  refuse : String → String → Call

module _ (crypto : Crypto) (state : AuthState) (simple : String → String) where
  unfoldable pub handle : Call → Exec Response
  handle (init drawn base_url) = cli_init state drawn base_url
  handle (poll code) = cli_poll crypto simple code
  handle (authorize account_id code) = cli_authorize account_id code
  handle (refuse account_id code) = cli_deny account_id code

  handle-Moves :
      (c : Setting) (d : Db) (k : String) (call : Call) → Runs c d (handle call) (Moves k d)
  unfolding handle
  handle-Moves c d k (init drawn base_url) = cli_init-Moves c d k state drawn base_url
  handle-Moves c d k (poll code) = cli_poll-Moves c d k crypto simple code
  handle-Moves c d k (authorize account_id code) = cli_authorize-Moves c d k account_id code
  handle-Moves c d k (refuse account_id code) = cli_deny-Moves c d k account_id code

  -- Whatever fails on the way, a request about codes moves every code by one turn of the state
  -- machine, or leaves it as it is.
  pub handle-Turn :
      (call : Call) (k : String) (w : World)
      → Turn (view k w.db) (view k (after (handle call) w).db)
  handle-Turn call k w = runs_in (handle call) (Moves k w.db) w (handle-Moves _ w.db k call)

  -- One request behind the other; before each, the clock and the coming faults may be any.
  pub data Served : Db → Db → Type 0 where
    done : (d : Db) → Served d d
    then_call :
        {d : Db} (w : World) (call : Call) → Served d w.db → Served d (after (handle call) w).db

  -- Whose a code is does not change: once it is granted, it stays granted to this account or is
  -- denied, whatever requests follow and whatever fails in them.
  pub granted_settles :
      (k account_id : String) (d d' : Db)
      → Served d d'
      → view k d ≡ granted account_id
      → (view k d' ≡ granted account_id) ⊎ (view k d' ≡ turned_down)
  granted_settles k account_id d d' (done _) e = inl e
  granted_settles k account_id d d' (then_call w call s) e =
      after_turn account_id _ _ (handle-Turn call k w) (granted_settles k account_id d w.db s e)
