-- ===== src/Auth/Cli/Token.antt =====
-- auth/src/routes.rs and session.rs: the token of an authorized code admits the code's account.
use spwn.Base.{
  ℕ, String, ◌==◌, ◌≡◌, ◌≢◌, refl, sym, ap, ◌∙◌, subst, Bool, true, false, ◌||◌, Option, none, some,
  List, [], ◌∷◌, find, any, find-snoc, eq_refl, arith,
}
use spwn.Base.Int.{ℤ, ltb_ℤ, ◌≤ℤ◌}
use spwn.Base.Text.{◌&◌, strip_prefix-append}
use spwn.Db.Rows.{Db, CliAuthCode, CodeStatus, pending, authorized, denied, ApiTokenRow}
use spwn.Db.Tokens.{
  is_code, get_cli_auth_code, create_api_token, created_api_token, unknown_account, account_of,
  get_account_id_by_token_hash, touch_api_token,
}
use spwn.World.{
  World, Result, ok, result, after, pure, attempt, ignore, gets, query, update, transact, on_result,
  on_option, ◌>>=◌,
}
use spwn.World.Runs.{
  Setting, Runs, Runs-bind, Runs-pure, Runs-now, Runs-new_v4, Runs-query, Runs-constrained,
  Runs-on_option, Runs-if, runs_quiet,
}
use spwn.Auth.Http.{Crypto, Headers, Response}
use spwn.Auth.Http.Rules.{Runs-or_500, allowed_no_error}
use spwn.Auth.Session.{account, by_token, account_id}
use spwn.Auth.Cli.{cli_poll, by_status, mint, poll_token}

abbrev has_hash : String → ApiTokenRow → Bool
has_hash h t = t.token_hash == h

-- The code of an account, authorized and not run out.
pub record IsAuthorized (code a : String) (now : ℤ) (d : Db) : Type 0 where
  pub entry : CliAuthCode
  pub stored : find (is_code code) d.cli_auth_codes ≡ some entry
  pub status : entry.status ≡ authorized
  pub owner : entry.account_id ≡ some a
  pub known : unknown_account a d ≡ false
  pub fresh : now ≤ℤ entry.expires_at

-- No token in the table has an id, or the hash of a token, that new uuid values give.
abbrev pub NewTokens : Crypto → (String → String) → (ℕ → String) → Db → Type 0
NewTokens crypto simple ids d =
    (i j : ℕ)
    → any
        (λ t.
          (ApiTokenRow.id t == ids j)
          || (t.token_hash == crypto.sha256_hex ("spwn_tok_" & simple (ids i))))
        d.api_tokens
      ≡ false

-- The token is in the response, and its hash in the table with the account.
abbrev Minted : Crypto → String → Result Response → Db → Type 0
Minted crypto a r d =
    (raw : String) × (r ≡ ok (poll_token raw))
    × (account_of (find (has_hash (crypto.sha256_hex raw)) d.api_tokens) ≡ some a)

second_false :
    {A : Type 0} (p q : A → Bool) (xs : List A)
    → any (λ x. p x || q x) xs ≡ false
    → any q xs ≡ false
unfolding any
second_false p q [] h = refl
second_false p q (x ∷ xs) h = ground (arith, second_false p q xs)

true_not_false : true ≢ false
true_not_false e = cc

not_expired : (now expires : ℤ) → now ≤ℤ expires → ltb_ℤ expires now ≡ true → ⊥
not_expired now expires h e = ground arith

same_row : {A : Type 0} {o : Option A} {x y : A} → o ≡ some x → o ≡ some y → x ≡ y
same_row e f = cc

loud_quiet : {A : Type 0} (c : Setting) → c.quiet ≡ true → c.quiet ≡ false → A
loud_quiet c q l = absurd (true_not_false (sym q ∙ l))

module _ (c : Setting) (d : Db) (quiet : c.quiet ≡ true) (crypto : Crypto)
    (simple : String → String) where
  mint-Minted :
      (code a : String)
      → unknown_account a d ≡ false
      → NewTokens crypto simple c.ids d
      → Runs c d (mint crypto simple code a) (Minted crypto a)
  unfolding mint create_api_token created_api_token
  mint-Minted code a known new = Runs-bind c d _ _ _ (
      Runs-new_v4 c d _ (λ i. Runs-bind c d _ _ _ (
        Runs-new_v4 c d _ (λ j. Runs-or_500 c d _ _ _ (
          Runs-bind c d _ _ _ (
            Runs-now c d _ (
              Runs-bind c d _ _ _ (
                Runs-constrained c d _ _ _
                  (λ v. Runs-pure c _ _ _ (
                    Runs-pure c _ _ _ (
                      "spwn_tok_" & simple (c.ids i),
                      refl,
                      ap account_of (
                          find-snoc (has_hash (crypto.sha256_hex ("spwn_tok_" & simple (c.ids i))))
                            d.api_tokens _ (second_false _ _ d.api_tokens (new i j))
                            (eq_refl (crypto.sha256_hex ("spwn_tok_" & simple (c.ids i))))),
                    )))
                  (λ x v. absurd (allowed_no_error _ _ _ _ (new i j) known v))
                  (λ x q. loud_quiet c quiet q)))))))))

  by_status-Minted :
      (s : CodeStatus) (o : Option String) (code a : String)
      → s ≡ authorized
      → o ≡ some a
      → unknown_account a d ≡ false
      → NewTokens crypto simple c.ids d
      → Runs c d (by_status s crypto simple code o) (Minted crypto a)
  unfolding by_status on_option
  by_status-Minted authorized (some b) code a e f known new =
      let same : b ≡ a = cc in
      subst (λ x. Runs c d (mint crypto simple code x) (Minted crypto a)) (sym same)
        (mint-Minted code a known new)
  by_status-Minted authorized none code a e f known new = cc
  by_status-Minted pending o code a e f known new = cc
  by_status-Minted denied o code a e f known new = cc

  cli_poll-Minted :
      (code a : String)
      → IsAuthorized code a c.now d
      → NewTokens crypto simple c.ids d
      → Runs c d (cli_poll crypto simple code) (Minted crypto a)
  unfolding cli_poll get_cli_auth_code
  cli_poll-Minted code a g new = Runs-bind c d _ _ _ (
      Runs-now c d _ (
        Runs-or_500 c d _ _ _ (
          Runs-query c d _ _
            (Runs-on_option c d _ _ _ _
              (λ e found_e.
                Runs-if c d _ (ltb_ℤ (CliAuthCode.expires_at e) c.now) _ _
                  (λ old. absurd (
                    not_expired c.now e.expires_at
                      (subst (λ x. c.now ≤ℤ CliAuthCode.expires_at x) (same_row g.stored found_e)
                        g.fresh)
                      old))
                  (λ fresh.
                    by_status-Minted e.status e.account_id code a
                      (ap CliAuthCode.status (same_row found_e g.stored) ∙ g.status)
                      (ap CliAuthCode.account_id (same_row found_e g.stored) ∙ g.owner) g.known
                      new))
              (λ missing. cc (sym missing ∙ g.stored)))
            (λ x q. loud_quiet c quiet q))))

by_token-quiet :
    (crypto : Crypto) (raw a : String) (w : World)
    → w.faults ≡ []
    → account_of (find (has_hash (crypto.sha256_hex raw)) w.db.api_tokens) ≡ some a
    → result (by_token crypto raw) w ≡ ok (account a)
unfolding by_token get_account_id_by_token_hash touch_api_token query update transact attempt gets
    pure on_result on_option ignore ◌>>=◌
by_token-quiet crypto raw a w f stored = rw f (rw stored refl)

account_id-by_token :
    (crypto : Crypto) (h : Headers) (raw : String) (w : World)
    → h.session_cookie ≡ none
    → h.authorization ≡ some ("Bearer " & raw)
    → result (account_id crypto h) w ≡ result (by_token crypto raw) w
unfolding account_id on_option
account_id-by_token crypto h raw w e f = rw e (rw f (rw (strip_prefix-append "Bearer " raw) refl))

-- A request that bears a token and shows no cookie.
abbrev pub bearing : String → Headers → Headers
bearing raw h = record h { session_cookie = none; authorization = some ("Bearer " & raw) }

-- When the database answers, polling an authorized code that has not run out gives a token, and a
-- request that bears this token without a cookie is admitted as the account that has authorized the
-- code, as long as the table keeps the token. New uuid values must give new tokens.
pub cli_poll-account_id :
    (crypto : Crypto) (simple : String → String) (code a : String) (h : Headers) (w w' : World)
    → w.faults ≡ []
    → w.outcomes ≡ []
    → IsAuthorized code a w.now w.db
    → NewTokens crypto simple w.ids w.db
    → w'.faults ≡ []
    → w'.db ≡ (after (cli_poll crypto simple code) w).db
    → (raw : String) × (result (cli_poll crypto simple code) w ≡ ok (poll_token raw))
      × (result (account_id crypto (bearing raw h)) w' ≡ ok (account a))
cli_poll-account_id crypto simple code a h w w' f o g new f' same =
    let (raw, polled, stored) =
      runs_quiet (cli_poll crypto simple code) _ w f o
        (cli_poll-Minted _ w.db refl crypto simple code a g new) in
    (
      raw,
      polled,
      account_id-by_token crypto (bearing raw h) raw w' refl refl
          ∙ by_token-quiet crypto raw a w' f' (
              ap (λ d. account_of (find (has_hash (crypto.sha256_hex raw)) (Db.api_tokens d))) same
              ∙ stored),
    )
