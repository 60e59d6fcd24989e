-- ===== src/Db/Passkeys.antt =====
-- crates/db/src/lib.rs: the statements on `passkeys`, `passkey_challenges` and
-- `pending_auth_tokens`.
use spwn.Base.{
  ℕ, String, ◌==◌, Bool, true, false, not, ◌&&◌, ◌||◌, Option, none, some, List, [], ◌∷◌, ◌++◌,
  select, find, any, eqb, update_where, if◌then◌else◌,
}
use spwn.Base.Sort.{sort_by_key}
use spwn.Db.Rows.{
  PasskeyRow, PasskeyChallenge, ChallengeKind, registration, login, PendingAuthToken,
}
use spwn.Db.Tokens.{unknown_account}
use spwn.World.{
  unique_violation, foreign_key_violation, ok, Exec, Done, pure, ◌>>=◌, ◌>>◌, gets, query, update,
  transact, constrained,
}

-- Equal byte sequences
unfoldable pub bytes_eq : List ℕ → List ℕ → Bool
bytes_eq [] [] = true
bytes_eq (a ∷ as') (b ∷ bs) = eqb a b && bytes_eq as' bs
bytes_eq _ _ = false

abbrev has_credential : List ℕ → PasskeyRow → Bool
has_credential credential_id p = bytes_eq p.credential_id credential_id

abbrev is_own_passkey : String → String → PasskeyRow → Bool
is_own_passkey id account_id p = (p.id == id) && (p.account_id == account_id)

unfoldable pub create_passkey : String → String → List ℕ → String → String → Exec PasskeyRow
create_passkey id account_id credential_id passkey_json name = do
  now ← gets (λ w. w.now)
  let passkey : PasskeyRow = record {
    id = id;
    account_id = account_id;
    credential_id = credential_id;
    passkey_json = passkey_json;
    name = name;
    created_at = now;
  }
  constrained
      (λ d.
        if any (λ p. (PasskeyRow.id p == id) || has_credential credential_id p) d.passkeys
        then some unique_violation
        else if unknown_account account_id d
        then some foreign_key_violation
        else none)
      (λ d. record d { passkeys = d.passkeys ++ passkey ∷ [] })
  pure passkey

unfoldable pub list_passkeys : String → Exec (List PasskeyRow)
list_passkeys account_id = query (λ d.
    sort_by_key (λ p. PasskeyRow.created_at p)
      (select (λ p. PasskeyRow.account_id p == account_id) d.passkeys))

unfoldable pub get_passkey_by_credential_id : List ℕ → Exec (Option PasskeyRow)
get_passkey_by_credential_id credential_id =
    query (λ d. find (has_credential credential_id) d.passkeys)

unfoldable pub update_passkey_json : String → String → Exec Done
update_passkey_json id passkey_json = update (λ d. record d {
  passkeys =
      update_where (λ p. PasskeyRow.id p == id) (λ p. record p { passkey_json = passkey_json })
        d.passkeys;
})

-- Whether a row was changed.
unfoldable pub rename_passkey : String → String → String → Exec Bool
rename_passkey id account_id name = transact (λ d. (
  ok (any (is_own_passkey id account_id) d.passkeys),
  record d {
    passkeys =
        update_where (is_own_passkey id account_id) (λ p. record p { name = name }) d.passkeys;
  },
))

-- Whether a row was deleted.
unfoldable pub delete_passkey : String → String → Exec Bool
delete_passkey id account_id = transact (λ d. (
  ok (any (is_own_passkey id account_id) d.passkeys),
  record d { passkeys = select (λ p. not (is_own_passkey id account_id p)) d.passkeys },
))

infix 50 ◌is_for◌
abbrev pub ◌is_for◌ : ChallengeKind → ChallengeKind → Bool
registration is_for registration = true
login is_for login = true
_ is_for _ = false

-- The first argument is the row, without a foreign key.
unfoldable pub create_passkey_challenge : PasskeyChallenge → Exec Done
create_passkey_challenge challenge =
    constrained
      (λ d.
        if any (λ c. PasskeyChallenge.id c == challenge.id) d.passkey_challenges
        then some unique_violation
        else none)
      (λ d. record d { passkey_challenges = d.passkey_challenges ++ challenge ∷ [] })

abbrev pub is_challenge : String → ChallengeKind → PasskeyChallenge → Bool
is_challenge id kind c = (c.id == id) && (c.kind is_for kind)

unfoldable pub get_passkey_challenge : String → ChallengeKind → Exec (Option PasskeyChallenge)
get_passkey_challenge id kind = query (λ d. find (is_challenge id kind) d.passkey_challenges)

unfoldable pub delete_passkey_challenge : String → Exec Done
delete_passkey_challenge id = update (λ d. record d {
  passkey_challenges = select (λ c. not (PasskeyChallenge.id c == id)) d.passkey_challenges;
})

unfoldable pub create_pending_auth_token : PendingAuthToken → Exec Done
create_pending_auth_token token =
    constrained
      (λ d.
        if any (λ t. PendingAuthToken.id t == token.id) d.pending_auth_tokens
        then some unique_violation
        else if unknown_account token.account_id d
        then some foreign_key_violation
        else none)
      (λ d. record d { pending_auth_tokens = d.pending_auth_tokens ++ token ∷ [] })

abbrev pub is_pending : String → PendingAuthToken → Bool
is_pending id t = t.id == id

unfoldable pub get_pending_auth_token : String → Exec (Option PendingAuthToken)
get_pending_auth_token id = query (λ d. find (is_pending id) d.pending_auth_tokens)

unfoldable pub delete_pending_auth_token : String → Exec Done
delete_pending_auth_token id = update (λ d. record d {
  pending_auth_tokens = select (λ t. not (is_pending id t)) d.pending_auth_tokens;
})
