-- ===== src/Db/Tokens/SingleUse.antt =====
-- A token of vm_auth_tokens is used at most once, and not after it has expired.
use spwn.Base.{
  String, ◌≡◌, ◌≢◌, refl, sym, ap, ◌∙◌, Option, none, some, List, [], ◌∷◌, find, find_satisfies,
  find-select-not, eq_iff, arith,
}
use spwn.Base.Int.{ℤ, ◌<ℤ◌}
use spwn.Db.Rows.{Db, VmAuthToken}
use spwn.World.{World, DbError, Result, ok, result, after, transact, with_fault, gets, ◌>>=◌}
use spwn.World.Outcomes.{transact-ok, ok-injective}
use spwn.Db.Tokens.{valid_token, taken, consume_vm_auth_token}

with_fault-now :
    {A : Type 0} (fs : List (Option DbError)) (f : Db → Result A × Db) (w : World)
    → (with_fault fs f w).1.now ≡ w.now
with_fault-now [] f w = refl
with_fault-now (none ∷ rest) f w = refl
with_fault-now (some e ∷ rest) f w = refl

consume-now : (id : String) (w : World) → (after (consume_vm_auth_token id) w).now ≡ w.now
unfolding consume_vm_auth_token gets ◌>>=◌ transact
consume-now id w = with_fault-now w.faults (taken id w.now) w

consume-taken :
    (id : String) (w : World) (r : Option VmAuthToken)
    → result (consume_vm_auth_token id) w ≡ ok r
    → ((taken id w.now w.db).0 ≡ ok r)
      × ((after (consume_vm_auth_token id) w).db ≡ (taken id w.now w.db).1)
unfolding consume_vm_auth_token gets ◌>>=◌
consume-taken id w r h = transact-ok (taken id w.now) w r h

taken-found :
    (id : String) (now : ℤ) (d : Db) (r : Option VmAuthToken)
    → (taken id now d).0 ≡ ok r
    → find (valid_token id now) d.vm_auth_tokens ≡ r
unfolding taken
taken-found id now d r h = ok-injective (find (valid_token id now) d.vm_auth_tokens) r h

taken-twice :
    (id : String) (now : ℤ) (d : Db)
    → find (valid_token id now) (taken id now d).1.vm_auth_tokens ≡ none
unfolding taken
taken-twice id now d = find-select-not (valid_token id now) d.vm_auth_tokens

consume-again :
    (id : String) (w : World) (r again : Option VmAuthToken)
    → result (consume_vm_auth_token id) w ≡ ok r
    → result (consume_vm_auth_token id) (after (consume_vm_auth_token id) w) ≡ ok again
    → again ≡ none
consume-again id w r again h h2 =
    let w1 : World = after (consume_vm_auth_token id) w in
    let (_, same_db) = consume-taken id w r h in
    let (again_taken, _) = consume-taken id w1 again h2 in
    let found = taken-found id w1.now w1.db again again_taken in
    sym found
    ∙ ap (λ now. find (valid_token id now) w1.db.vm_auth_tokens) (consume-now id w)
    ∙ ap (λ d. find (valid_token id w.now) (Db.vm_auth_tokens d)) same_db
    ∙ taken-twice id w.now w.db

-- A token that is returned has the id asked for, has not expired, and is returned no second time.
pub consume_vm_auth_token_once :
    (id : String) (w : World) (t again : VmAuthToken)
    → result (consume_vm_auth_token id) w ≡ ok (some t)
    → (t.id ≡ id)
      × (w.now <ℤ t.expires_at)
      × (result (consume_vm_auth_token id) (after (consume_vm_auth_token id) w) ≢ ok (some again))
consume_vm_auth_token_once id w t again h =
    let (is_taken, _) = consume-taken id w (some t) h in
    let valid =
      find_satisfies (valid_token id w.now) w.db.vm_auth_tokens t
        (taken-found id w.now w.db (some t) is_taken) in
    (
      (eq_iff t.id id).0 (ground arith),
      ground arith,
      (λ h2. cc (consume-again id w (some t) (some again) h h2)),
    )
