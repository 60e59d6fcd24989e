-- ===== src/Api/Tokens.antt =====
-- crates/api/src/lib.rs with auth/src/gateway.rs: from a one-time token for a VM to the VM.
use spwn.Base.{
  ℕ, String, ◌==◌, ◌≡◌, refl, sym, ap, ◌∙◌, subst, Bool, true, false, ◌&&◌, ◌||◌, Option, none,
  some, List, [], ◌∷◌, find, find-snoc, any, eq_refl, arith, if◌then◌else◌,
}
use Prim.Native.Char.{Char}
use spwn.Base.Int.{ℤ, pos, ◌+ℤ◌, ◌<ℤ◌, ltb_ℤ}
use spwn.Base.Text.{◌&◌, strip_suffix}
use spwn.Db.Rows.{Db, VmRow, VmAuthToken, SessionRow}
use spwn.Db.Vms.{has_id, is_none, get_vm_by_subdomain}
use spwn.Db.Quota.{is_account}
use spwn.Db.Tokens.{
  unknown_account, create_vm_auth_token, valid_token, taken, consume_vm_auth_token, create_session,
}
use spwn.World.{World, DbError, Result, ok, Exec, result, after, on_result, on_option, pure}
use spwn.World.Runs.{
  Setting, Runs, Runs-bind, Runs-pure, Runs-now, Runs-new_v4, Runs-attempt, Runs-query,
  Runs-transact, Runs-constrained, Runs-on_option, Runs-if, runs_quiet,
}
use spwn.Auth.Http.{AuthState, Headers, Response, status}
use spwn.Auth.Http.Rules.{allowed_no_error}
use spwn.Auth.Gateway.Entry.{
  AccessQuery, requested_host, caddy_auth, vm_access, private_access, by_auth_token,
  admit_with_session, by_cookie,
}
use spwn.ControlPlane.Ops.{ControlPlaneOps, generate_vm_auth_token}
use spwn.ControlPlane.Implementation.{vm_ops}
use spwn.Api.Handlers.{new_auth_token, token_told}

-- A response with the status 200.
pub record AnswersOk (r : Result Response) : Type 0 where
  pub resp : Response
  pub answered : r ≡ ok resp
  pub success : resp.status ≡ 200

abbrev pub with_token : String → AccessQuery
with_token token = record { token = none; auth_token = some token }

-- The token is told, and can be taken while it lasts.
record Given (a vm_id : String) (now : ℤ) (d : Db) (r : Result Response) (d' : Db) : Type 0 where
  token : String
  told : r ≡ ok (token_told token)
  takes :
      (n : ℤ)
      → n <ℤ now +ℤ pos 300
      → find (valid_token token n) d'.vm_auth_tokens
        ≡ some (record { id = token; account_id = a; vm_id = vm_id; expires_at = now +ℤ pos 300 })
  same_vms : d'.vms ≡ d.vms
  same_accounts : d'.accounts ≡ d.accounts

any_valid :
    (id : String) (n : ℤ) (ts : List VmAuthToken)
    → any (λ t. VmAuthToken.id t == id) ts ≡ false
    → any (valid_token id n) ts ≡ false
unfolding any
any_valid id n [] h = refl
any_valid id n (t ∷ ts) h = ground (arith, any_valid id n ts)

valid_new : (id : String) (n e : ℤ) → n <ℤ e → ((id == id) && ltb_ℤ n e) ≡ true
valid_new id n e h = ground (arith, eq_refl id)

no_error :
    (x y : DbError) {z : DbError} (clash unknown missing : Bool)
    → clash ≡ false
    → unknown ≡ false
    → missing ≡ false
    → (if clash then some x else if unknown || missing then some y else none) ≡ some z
    → ⊥
no_error x y clash unknown missing a b e f = cc

same_text : {o : Option String} {x y : String} → o ≡ some x → o ≡ some y → x ≡ y
same_text e f = cc

module _ (c : Setting) (d : Db) (quiet : c.quiet ≡ true) where
  never_loud : c.quiet ≡ false → ⊥
  never_loud q = cc

  new_auth_token-Given :
      (ops : ControlPlaneOps) (draw : ℕ → Char) (a vm_id : String)
      → unknown_account a d ≡ false
      → is_none (find (has_id vm_id) d.vms) ≡ false
      → ((i : ℕ) → any (λ t. VmAuthToken.id t == c.ids i) d.vm_auth_tokens ≡ false)
      → Runs c d (new_auth_token (vm_ops ops draw) a vm_id) (Given a vm_id c.now d)
  unfolding new_auth_token vm_ops generate_vm_auth_token create_vm_auth_token on_result pure
  new_auth_token-Given ops draw a vm_id known vm new = Runs-bind c d _ _ _ (
      Runs-attempt c d _ _ (
        Runs-bind c d _ _ _ (
          Runs-bind c d _ _ _ (
            Runs-now c d _ (
              Runs-bind c d _ _ _ (
                Runs-new_v4 c d _ (λ i. Runs-bind c d _ _ _ (
                  Runs-constrained c d _ _ _
                    (λ v. Runs-pure c _ _ _ (
                      Runs-pure c _ _ _ (
                        Runs-pure c _ _ _ (record {
                          token = c.ids i;
                          told = refl;
                          takes = λ n h.
                              find-snoc (valid_token (c.ids i) n) d.vm_auth_tokens _
                                (any_valid (c.ids i) n d.vm_auth_tokens (new i))
                                (valid_new (c.ids i) n (c.now +ℤ pos 300) h);
                          same_vms = refl;
                          same_accounts = refl;
                        }))))
                    (λ x v. absurd (no_error _ _ _ _ _ (new i) known vm v))
                    (λ x q. absurd (never_loud q))))))))))

  module _ (state : AuthState) (h : Headers) (token : String) (vm : VmRow) (t : VmAuthToken)
      (for_vm : (t.vm_id == vm.id) ≡ true) (known : unknown_account t.account_id d ≡ false)
      (new : (i : ℕ) → any (λ s. SessionRow.id s == c.ids i) d.sessions ≡ false)
      (found_t : find (valid_token token c.now) d.vm_auth_tokens ≡ some t) where
    admit_with_session-AnswersOk :
        (rest : Exec Response)
        → Runs c
            (taken token c.now d).1
            (admit_with_session state t.account_id rest)
            (λ r d'. AnswersOk r)
    unfolding taken admit_with_session create_session on_result
    admit_with_session-AnswersOk rest =
        let d2 = (taken token c.now d).1 in
        Runs-bind c d2 _ _ _ (
          Runs-now c d2 _ (
            Runs-bind c d2 _ _ _ (
              Runs-new_v4 c d2 _ (λ i. Runs-bind c d2 _ _ _ (
                Runs-attempt c d2 _ _ (
                  Runs-bind c d2 _ _ _ (
                    Runs-constrained c d2 _ _ _
                      (λ v.
                        Runs-pure c _ _ _ (
                          Runs-pure c _ _ _ (record { resp = _; answered = refl; success = refl })))
                      (λ x v. absurd (allowed_no_error _ _ _ _ (new i) known v))
                      (λ x q. absurd (never_loud q)))))))))

    by_auth_token-AnswersOk :
        (host : String)
        → Runs c
            (taken token c.now d).1
            (by_auth_token state vm (by_cookie state host h vm) t)
            (λ r d'. AnswersOk r)
    unfolding by_auth_token
    by_auth_token-AnswersOk host =
        Runs-if c _ _ (t.vm_id == vm.id)
          (admit_with_session state t.account_id (by_cookie state host h vm))
          (by_cookie state host h vm) (λ e. admit_with_session-AnswersOk _) (λ e. cc)

    private_access-AnswersOk :
        (host : String)
        → Runs c d (private_access state host h (with_token token) vm) (λ r d'. AnswersOk r)
    unfolding private_access consume_vm_auth_token taken by_auth_token admit_with_session
        create_session on_result on_option
    private_access-AnswersOk host = Runs-bind c d _ _ _ (
        Runs-attempt c d _ _ (
          Runs-bind c d _ _ _ (
            Runs-now c d _ (
              Runs-transact c d _ _
                (subst
                  (λ o.
                    Runs c (taken token c.now d).1
                      (on_option o (by_auth_token state vm (by_cookie state host h vm))
                        (by_cookie state host h vm))
                      (λ r d'. AnswersOk r))
                  (sym found_t) (by_auth_token-AnswersOk host))
                (λ x q. absurd (never_loud q))))))

    vm_access-AnswersOk :
        (host : String)
        → Runs c d (vm_access state host h (with_token token) vm) (λ r d'. AnswersOk r)
    unfolding vm_access
    vm_access-AnswersOk host =
        Runs-if c d _ _ _ _
          (λ open'.
            Runs-pure c d _ _ (record { resp = status 200; answered = refl; success = refl }))
          (λ closed. private_access-AnswersOk host)

    -- A token for the VM that the request asks for, and a session that nothing refuses.
    caddy_auth-AnswersOk :
        (sub : String)
        → strip_suffix ("." & state.base_domain) (requested_host h) ≡ some sub
        → find (λ v. VmRow.subdomain v == sub) d.vms ≡ some vm
        → Runs c d (caddy_auth state h (with_token token)) (λ r d'. AnswersOk r)
    unfolding caddy_auth get_vm_by_subdomain on_option
    caddy_auth-AnswersOk sub host found_vm =
        Runs-on_option c d _ _ _ _
          (λ s e.
            let same : sub ≡ s = same_text host e in
            Runs-bind c d _ _ _ (
              Runs-attempt c d _ _ (
                Runs-query c d _ _
                  (subst
                    (λ o.
                      Runs c d
                        (on_option o (vm_access state (requested_host h) h (with_token token))
                          (pure (status 404)))
                        (λ r d'. AnswersOk r))
                    (sym found_vm ∙ ap (λ x. find (λ v. VmRow.subdomain v == x) d.vms) same)
                    (vm_access-AnswersOk (requested_host h)))
                  (λ x q. absurd (never_loud q)))))
          (λ missing. cc (sym missing ∙ host))

-- When the database answers, any account that exists gets a one-time token for any VM that exists,
-- and a request for this VM's subdomain with the token is let through for five minutes, a private VM
-- of another account included. New uuid values must be new to the tables.
pub new_auth_token-AnswersOk :
    (ops : ControlPlaneOps) (draw : ℕ → Char) (state : AuthState) (a : String) (vm : VmRow)
    (sub : String) (h : Headers) (w w' : World)
    → w.faults ≡ []
    → w.outcomes ≡ []
    → unknown_account a w.db ≡ false
    → find (has_id vm.id) w.db.vms ≡ some vm
    → find (λ v. VmRow.subdomain v == sub) w.db.vms ≡ some vm
    → ((i : ℕ) → any (λ t. VmAuthToken.id t == w.ids i) w.db.vm_auth_tokens ≡ false)
    → w'.faults ≡ []
    → w'.outcomes ≡ []
    → w'.db ≡ (after (new_auth_token (vm_ops ops draw) a vm.id) w).db
    → w'.now <ℤ w.now +ℤ pos 300
    → ((i : ℕ) → any (λ s. SessionRow.id s == w'.ids i) w'.db.sessions ≡ false)
    → strip_suffix ("." & state.base_domain) (requested_host h) ≡ some sub
    → (token : String) × (result (new_auth_token (vm_ops ops draw) a vm.id) w
        ≡ ok (token_told token))
      × AnswersOk (result (caddy_auth state h (with_token token)) w')
new_auth_token-AnswersOk ops draw state a vm sub h w w' f o known by_id by_sub new f' o' same lasts
      new' host =
    let given =
      runs_quiet (new_auth_token (vm_ops ops draw) a vm.id) _ w f o
        (new_auth_token-Given _ w.db refl ops draw a vm.id known (ap is_none by_id) new) in
    (
      given.token,
      given.told,
      runs_quiet (caddy_auth state h (with_token given.token)) _ w' f' o' (
          caddy_auth-AnswersOk _ w'.db refl state h given.token vm _ (eq_refl vm.id)
            (subst (λ x. unknown_account a x ≡ false) (sym same)
              (ap (λ as'. is_none (find (is_account a) as')) given.same_accounts ∙ known))
            new'
            (ap (λ x. find (valid_token given.token w'.now) (Db.vm_auth_tokens x)) same
              ∙ given.takes w'.now lasts)
            sub host
            (ap (λ x. find (λ v. VmRow.subdomain v == sub) (Db.vms x)) same
              ∙ ap (find (λ v. VmRow.subdomain v == sub)) given.same_vms
              ∙ by_sub)),
    )
