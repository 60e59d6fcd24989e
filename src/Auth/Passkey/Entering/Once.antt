-- ===== src/Auth/Passkey/Entering/Once.antt =====
-- auth/src/passkey.rs: a login challenge is answered once.
use spwn.Base.{
  ℕ, String, ◌==◌, ◌≡◌, ◌≢◌, refl, ap, ◌∙◌, ◌⊎◌, inl, inr, subst, true, false, not, none, List, [],
  ◌∷◌, find, select, Among, arith, Bool-cases,
}
use spwn.Base.Int.{ltb_ℤ}
use spwn.Db.Rows.{Db, PasskeyChallenge, login}
use spwn.Db.Passkeys.{get_passkey_challenge, is_challenge, delete_passkey_challenge}
use spwn.World.{World, Result, ok, err, result, after, pure}
use spwn.World.Runs.{
  Setting, Runs, Runs-bind, Runs-pure, Runs-now, Runs-ignore, Runs-query, Runs-update,
  Runs-on_option, Runs-if, runs_quiet,
}
use spwn.Auth.Http.{AuthState, Response, status}
use spwn.Auth.Http.Rules.{Runs-or_500}
use spwn.Auth.Login.Sound.{Runs-open_session}
use spwn.Auth.Webauthn.{Webauthn}
use spwn.Auth.Passkey.Entering.{enter_if_right, passkey_login_finish}
use spwn.Auth.Passkey.Entering.Sound.{Runs-update_counter, passkey_login_finish-Entered}

abbrev IsGone : String → Db → Type 0
IsGone challenge_id d = find (is_challenge challenge_id login) d.passkey_challenges ≡ none

-- An answer was looked at: it was right, or wrong.
abbrev pub WasJudged : Response → Type 0
WasJudged resp = (resp.status ≡ 200) ⊎ (resp.status ≡ 401)

abbrev UsesUp : String → Result Response → Db → Type 0
UsesUp challenge_id (ok resp) d = WasJudged resp → IsGone challenge_id d
UsesUp challenge_id (err e) d = Unit

find_deleted :
    (id : String) (cs : List PasskeyChallenge)
    → find (is_challenge id login) (select (λ c. not (PasskeyChallenge.id c == id)) cs) ≡ none
unfolding find select
find_deleted id [] = refl
find_deleted id (c ∷ cs) = elim (Bool-cases (c.id == id)) [
  | inl e ↦ rw e (find_deleted id cs)
  | inr e ↦ rw (e, e) (find_deleted id cs)
]

module _ (c : Setting) (quiet : c.quiet ≡ true) (challenge_id : String) where
  not_judged :
      (n : ℕ) (d : Db) → n ≢ 200 → n ≢ 401 → Runs c d (pure (status n)) (UsesUp challenge_id)
  not_judged n d a b =
      Runs-pure c d _ _ (λ s. elim s [ inl x ↦ absurd (a x) | inr x ↦ absurd (b x) ])

  enter_if_right-UsesUp :
      (wa : Webauthn) (state : AuthState) (a : String) (credential : wa.Credential)
      (s : wa.Authentication) (d : Db)
      → IsGone challenge_id d
      → Runs c d (enter_if_right wa state a credential s) (UsesUp challenge_id)
  unfolding enter_if_right
  enter_if_right-UsesUp wa state a credential s d gone =
      Runs-on_option c d _ _ _ _
        (λ outcome right. Runs-bind c d _ _ _ (
          Runs-update_counter c wa d _ outcome (λ d1 same.
            let gone1 : IsGone challenge_id d1 =
              ap (find (is_challenge challenge_id login)) same ∙ gone in
            Runs-open_session c state d1 _ a (λ id stored. λ s2. gone1) (λ s2. gone1))))
        (λ wrong. Runs-pure c d _ _ (λ s2. gone))

  never_loud : c.quiet ≡ false → ⊥
  never_loud q = cc

  passkey_login_finish-UsesUp :
      (wa : Webauthn) (state : AuthState) (credential : wa.Credential) (d : Db)
      → Runs c d (passkey_login_finish wa state challenge_id credential) (UsesUp challenge_id)
  unfolding passkey_login_finish get_passkey_challenge delete_passkey_challenge
  passkey_login_finish-UsesUp wa state credential d = Runs-or_500 c d _ _ _ (
      Runs-query c d _ _
        (Runs-on_option c d _ _ _ _
          (λ challenge found_c. Runs-bind c d _ _ _ (
            Runs-now c d _ (
              Runs-if c d _ (ltb_ℤ challenge.expires_at c.now) _ _
                (λ old. Runs-bind c d _ _ _ (
                  Runs-ignore c d _ _ (
                    Runs-update c d _ _ (not_judged 400 _ (omega arith) (omega arith))
                      (λ x q. not_judged 400 d (omega arith) (omega arith)))))
                (λ fresh.
                  Runs-on_option c d _ _ _ _
                    (λ a owner.
                      Runs-on_option c d _ _ _ _
                        (λ s read. Runs-bind c d _ _ _ (
                          Runs-ignore c d _ _ (
                            Runs-update c d _ _
                              (enter_if_right-UsesUp wa state a credential s _
                                (find_deleted challenge_id d.passkey_challenges))
                              (λ x q. absurd (never_loud q)))))
                        (λ e. not_judged 500 d (omega arith) (omega arith)))
                    (λ e. not_judged 500 d (omega arith) (omega arith))))))
          (λ e. not_judged 400 d (omega arith) (omega arith)))
        (λ x q. absurd (never_loud q)))

no_stored_challenge :
    (id : String) (cs : List PasskeyChallenge) (c : PasskeyChallenge)
    → find (is_challenge id login) cs ≡ none
    → Among c cs
    → is_challenge id login c ≡ true
    → ⊥
unfolding find
no_stored_challenge id [] c e m a = m
no_stored_challenge id (x ∷ xs) c e m a = elim (Bool-cases (is_challenge id login x)) [
  | inl t ↦ cc (rw t at e)
  | inr f ↦ elim m [ inl same ↦ cc | inr later ↦ no_stored_challenge id xs c (rw f at e) later a ]
]

-- When the database answers, a login challenge whose answer was found right or wrong is used up: no
-- answer to it logs in from the tables that are left, whatever fails then.
pub passkey_login_finish_once :
    (wa : Webauthn) (state : AuthState) (challenge_id : String) (credential again : wa.Credential)
    (w w' : World) (resp resp' : Response)
    → w.faults ≡ []
    → w.outcomes ≡ []
    → result (passkey_login_finish wa state challenge_id credential) w ≡ ok resp
    → WasJudged resp
    → w'.db ≡ (after (passkey_login_finish wa state challenge_id credential) w).db
    → result (passkey_login_finish wa state challenge_id again) w' ≡ ok resp'
    → resp'.status ≢ 200
passkey_login_finish_once wa state challenge_id credential again w w' resp resp' f o e judged same
      e' s =
    let gone : IsGone challenge_id
        (after (passkey_login_finish wa state challenge_id credential) w).db =
      subst
        (λ r.
          UsesUp challenge_id r
            (after (passkey_login_finish wa state challenge_id credential) w).db)
        e
        (runs_quiet (passkey_login_finish wa state challenge_id credential) _ w f o
          (passkey_login_finish-UsesUp _ refl challenge_id wa state credential w.db))
        judged in
    let (a, right, entered) =
      passkey_login_finish-Entered wa state challenge_id again w' resp' e' s in
    no_stored_challenge challenge_id w'.db.passkey_challenges right.challenge
      (ap (λ d. find (is_challenge challenge_id login) (Db.passkey_challenges d)) same ∙ gone)
      right.stored right.asked
