-- ===== src/Auth/Http/Rules.antt =====
-- What the handlers' common steps come to: `or_500`, and the statements that make a session.
use spwn.Base.{
  ℕ, ◌==◌, ◌≡◌, ◌≢◌, refl, Bool, true, false, Option, none, some, [], ◌∷◌, ◌++◌, find, find-snoc,
  eq_refl, if◌then◌else◌,
}
use spwn.Db.Rows.{Db, SessionRow}
use spwn.Db.Tokens.{create_session}
use spwn.World.{DbError, Failure, sqlx, Result, ok, err, Exec, pure, on_result}
use spwn.World.Runs.{
  Setting, Runs, Runs-bind, Runs-pure, Runs-attempt, Runs-constrained, Runs-weaken,
}
use spwn.Auth.Http.{Response, status, or_500}

-- Of a response with this status.
abbrev pub Succeeds : (Response → Db → Type 0) → Result Response → Db → Type 0
Succeeds P (ok resp) d = resp.status ≡ 200 → P resp d
Succeeds P (err e) d = Unit

-- Behind `or_500`: the rest comes to `Q`, or the status 500 does.
abbrev pub Handled :
    {A : Type 0}
    → Setting
    → (A → Exec Response)
    → (Result Response → Db → Type 0)
    → Result A
    → Db
    → Type 0
Handled c f Q (ok a) d = Runs c d (f a) Q
Handled c f Q (err e) d = Q (ok (status 500)) d

module _ (c : Setting) (d : Db) where
  -- A response of another status promises nothing.
  pub Succeeds-status :
      (P : Response → Db → Type 0) (n : ℕ) → n ≢ 200 → Runs c d (pure (status n)) (Succeeds P)
  Succeeds-status P n other = Runs-pure c d _ _ (λ s. absurd (other s))

  module _ (Q : Result Response → Db → Type 0) {A : Type 0} where
    handled :
        (f : A → Exec Response) (r : Result A) (d' : Db)
        → Handled c f Q r d'
        → Runs c d' (on_result r f (λ e. pure (status 500))) Q
    unfolding on_result
    handled f (ok a) d' k = k
    handled f (err e) d' k = Runs-pure c d' _ _ k

    pub Runs-or_500 :
        (m : Exec A) (f : A → Exec Response) → Runs c d m (Handled c f Q) → Runs c d (or_500 m f) Q
    Runs-or_500 m f k =
        Runs-bind c d _ _ _ (Runs-attempt c d _ _ (Runs-weaken c d _ _ m (handled f) k))

-- The constraint that let a row in has found no row with its id.
pub no_clash :
    (b : Bool) (x : DbError) (e : Option DbError) → (if b then some x else e) ≡ none → b ≡ false
no_clash true x e h = cc
no_clash false x e h = refl

-- A statement that neither constraint refuses.
pub allowed_no_error :
    (x y : DbError) {z : DbError} (clash unknown : Bool)
    → clash ≡ false
    → unknown ≡ false
    → (if clash then some x else if unknown then some y else none) ≡ some z
    → ⊥
allowed_no_error x y clash unknown a b e = cc

abbrev pub plus_session : SessionRow → Db → Db
plus_session s d = record d { sessions = d.sessions ++ s ∷ [] }

-- The session that is made is the one found by its id.
pub Runs-create_session :
    (c : Setting) (d : Db) (Q : Result SessionRow → Db → Type 0) (session : SessionRow)
    → (find (λ s. SessionRow.id s == session.id) (d.sessions ++ session ∷ []) ≡ some session
        → Q (ok session) (plus_session session d))
    → ((e : Failure) → Q (err e) d)
    → Runs c d (create_session session) Q
unfolding create_session
Runs-create_session c d Q session made failed = Runs-bind c d _ _ _ (
    Runs-constrained c d _ _ _
      (λ v.
        Runs-pure c _ _ _
          (made (find-snoc _ d.sessions session (no_clash _ _ _ v) (eq_refl session.id))))
      (λ x v. failed (sqlx x)) (λ x q. failed (sqlx x)))
