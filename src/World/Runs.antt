-- ===== src/World/Runs.antt =====
-- What an action comes to from given tables: one rule for each way to build an action. A rule with
-- two premises has one for the statement that has its effect and one for the statement that fails.
use spwn.Base.{
  ℕ, String, ◌≡◌, refl, sym, subst, Bool, true, false, Option, none, some, List, [], ◌∷◌, inl, inr,
  Bool-cases, if◌then◌else◌,
}
use spwn.Base.Int.{ℤ}
use spwn.Db.Rows.{Db}
use spwn.World.{
  DbError, Failure, sqlx, Result, ok, err, World, Exec, Done, pure, fail, ◌>>=◌, and_then,
  on_option, attempt, ignore, gets, new_v4, transact, with_fault, query, update, checked,
  constrained, external, with_outcome,
}

-- What stays the same throughout: the clock, the uuid values to come, and whether the database and
-- the outside answer without a fault.
pub record Setting : Type 0 where
  pub now : ℤ
  pub ids : ℕ → String
  pub quiet : Bool

abbrev pub Fits : Setting → World → Type 0
Fits c w =
    (w.now ≡ c.now)
    × (w.ids ≡ c.ids)
    × (c.quiet ≡ true → w.faults ≡ [])
    × (c.quiet ≡ true → w.outcomes ≡ [])

-- From the tables `d` the action comes to a result and tables that satisfy `Q`.
pub record Runs {A : Type 0} (c : Setting) (d : Db) (m : Exec A) (Q : Result A → Db → Type 0)
    : Type 0 where
  pub at : (w : World) → Fits c w → w.db ≡ d → Q (m w).0 (m w).1.db × Fits c (m w).1

-- Past the first part: the rest has to come to `Q`, or the first part's failure does.
abbrev pub Next :
    {A B : Type 0} → Setting → (A → Exec B) → (Result B → Db → Type 0) → Result A → Db → Type 0
Next c f Q (ok a) d = Runs c d (f a) Q
Next c f Q (err e) d = Q (err e) d

nil_no_cons : {bs os : List Bool} {b : Bool} → os ≡ [] → os ≡ b ∷ bs → ⊥
nil_no_cons h e = cc

module _ (c : Setting) (d : Db) where
  module _ {A : Type 0} where
    -- A pure computation on the world.
    Runs-still :
        (Q : Result A → Db → Type 0) (m : Exec A) (r : Result A)
        → ((w : World) → m w ≡ (r, w))
        → Q r d
        → Runs c d m Q
    Runs-still Q m r h q = record {
      at = λ w fits same.
          subst (λ p. Q p.0 p.1.db × Fits c p.1) (sym (h w))
            (subst (λ d'. Q r d') (sym same) q, fits);
    }

    pub Runs-pure : (Q : Result A → Db → Type 0) (a : A) → Q (ok a) d → Runs c d (pure a) Q
    unfolding pure
    Runs-pure Q a q = Runs-still Q (pure a) (ok a) (λ w. refl) q

    pub Runs-fail : (Q : Result A → Db → Type 0) (e : Failure) → Q (err e) d → Runs c d (fail e) Q
    unfolding fail
    Runs-fail Q e q = Runs-still Q (fail e) (err e) (λ w. refl) q

    pub Runs-weaken :
        (Q R : Result A → Db → Type 0) (m : Exec A)
        → ((r : Result A) (d' : Db) → Q r d' → R r d')
        → Runs c d m Q
        → Runs c d m R
    Runs-weaken Q R m h k = record {
      at = λ w fits same. let (q, fits') = k.at w fits same in (h (m w).0 (m w).1.db q, fits');
    }

    pub Runs-attempt :
        (Q : Result (Result A) → Db → Type 0) (m : Exec A)
        → Runs c d m (λ r d'. Q (ok r) d')
        → Runs c d (attempt m) Q
    unfolding attempt
    Runs-attempt Q m k = record { at = λ w fits same. k.at w fits same }

    pub Runs-ignore :
        (Q : Result Done → Db → Type 0) (m : Exec A)
        → Runs c d m (λ r d'. Q (ok tt) d')
        → Runs c d (ignore m) Q
    unfolding ignore
    Runs-ignore Q m k = record { at = λ w fits same. k.at w fits same }

  module _ {A B : Type 0} where
    and_then_runs :
        (Q : Result B → Db → Type 0) (f : A → Exec B) (r : Result A) (w : World)
        → Fits c w
        → Next c f Q r w.db
        → Q (and_then r f w).0 (and_then r f w).1.db × Fits c (and_then r f w).1
    and_then_runs Q f (ok a) w fits k = k.at w fits refl
    and_then_runs Q f (err e) w fits k = (k, fits)

    pub Runs-bind :
        (Q : Result B → Db → Type 0) (m : Exec A) (f : A → Exec B)
        → Runs c d m (Next c f Q)
        → Runs c d (m >>= f) Q
    unfolding ◌>>=◌
    Runs-bind Q m f k = record {
      at = λ w fits same.
          let (q, fits') = k.at w fits same in and_then_runs Q f (m w).0 (m w).1 fits' q;
    }

  module _ where
    -- The clock.
    pub Runs-now : (Q : Result ℤ → Db → Type 0) → Q (ok c.now) d → Runs c d (gets (λ w. w.now)) Q
    unfolding gets
    Runs-now Q q = record {
      at = λ w fits same. (
        subst (λ n. Q (ok n) w.db) (sym fits.0) (subst (λ d'. Q (ok c.now) d') (sym same) q),
        fits,
      );
    }

    -- A new uuid value is one of those to come.
    pub Runs-new_v4 :
        (Q : Result String → Db → Type 0) → ((i : ℕ) → Q (ok (c.ids i)) d) → Runs c d new_v4 Q
    unfolding new_v4
    Runs-new_v4 Q q = record {
      at = λ w fits same. (
        subst (λ ids. Q (ok (ids w.next_id)) w.db) (sym fits.1)
            (subst (λ d'. Q (ok (c.ids w.next_id)) d') (sym same) (q w.next_id)),
        fits,
      );
    }

  module _ {A : Type 0} where
    with_fault_runs :
        (Q : Result A → Db → Type 0) (f : Db → Result A × Db)
        → Q (f d).0 (f d).1
        → ((e : DbError) → c.quiet ≡ false → Q (err (sqlx e)) d)
        → (fs : List (Option DbError)) (w : World) → Fits c w
        → w.db ≡ d
        → w.faults ≡ fs
        → Q (with_fault fs f w).0 (with_fault fs f w).1.db × Fits c (with_fault fs f w).1
    with_fault_runs Q f done failed [] w fits same e =
        (subst (λ d'. Q (f d').0 (f d').1) (sym same) done, fits)
    with_fault_runs Q f done failed (none ∷ rest) w fits same e = (
      subst (λ d'. Q (f d').0 (f d').1) (sym same) done,
      (fits.0, fits.1, (λ q. cc (fits.2 q)), fits.3),
    )
    with_fault_runs Q f done failed (some x ∷ rest) w fits same e =
        let loud : c.quiet ≡ false = elim (Bool-cases c.quiet) [
          | inl q ↦ cc (fits.2 q)
          | inr q ↦ q
        ] in
        (
          subst (λ d'. Q (err (sqlx x)) d') (sym same) (failed x loud),
          (fits.0, fits.1, (λ q. cc (fits.2 q)), fits.3),
        )

    pub Runs-transact :
        (Q : Result A → Db → Type 0) (f : Db → Result A × Db)
        → Q (f d).0 (f d).1
        → ((e : DbError) → c.quiet ≡ false → Q (err (sqlx e)) d)
        → Runs c d (transact f) Q
    unfolding transact
    Runs-transact Q f done failed = record {
      at = λ w fits same. with_fault_runs Q f done failed w.faults w fits same refl;
    }

    pub Runs-query :
        (Q : Result A → Db → Type 0) (f : Db → A)
        → Q (ok (f d)) d
        → ((e : DbError) → c.quiet ≡ false → Q (err (sqlx e)) d)
        → Runs c d (query f) Q
    unfolding query
    Runs-query Q f done failed = Runs-transact Q (λ d'. (ok (f d'), d')) done failed

  pub Runs-update :
      (Q : Result Done → Db → Type 0) (f : Db → Db)
      → Q (ok tt) (f d)
      → ((e : DbError) → c.quiet ≡ false → Q (err (sqlx e)) d)
      → Runs c d (update f) Q
  unfolding update
  Runs-update Q f done failed = Runs-transact Q (λ d'. (ok tt, f d')) done failed

  checked_case :
      (Q : Result Done → Db → Type 0) (v : Option DbError) (f : Db → Db)
      → (v ≡ none → Q (ok tt) (f d))
      → ((e : DbError) → v ≡ some e → Q (err (sqlx e)) d)
      → Q (checked v d (f d)).0 (checked v d (f d)).1
  checked_case Q none f done refused = done refl
  checked_case Q (some e) f done refused = refused e refl

  -- The third premise is for a constraint that refuses the statement.
  pub Runs-constrained :
      (Q : Result Done → Db → Type 0) (v : Db → Option DbError) (f : Db → Db)
      → (v d ≡ none → Q (ok tt) (f d))
      → ((e : DbError) → v d ≡ some e → Q (err (sqlx e)) d)
      → ((e : DbError) → c.quiet ≡ false → Q (err (sqlx e)) d)
      → Runs c d (constrained v f) Q
  unfolding constrained
  Runs-constrained Q v f done refused failed =
      Runs-transact Q (λ d'. checked (v d') d' (f d')) (checked_case Q (v d) f done refused) failed

  with_outcome_runs :
      (Q : Result Done → Db → Type 0) (x : Failure)
      → Q (ok tt) d
      → (c.quiet ≡ false → Q (err x) d)
      → (os : List Bool) (w : World) → Fits c w
      → w.db ≡ d
      → w.outcomes ≡ os
      → Q (with_outcome os x w).0 (with_outcome os x w).1.db × Fits c (with_outcome os x w).1
  with_outcome_runs Q x done failed [] w fits same e =
      (subst (λ d'. Q (ok tt) d') (sym same) done, fits)
  with_outcome_runs Q x done failed (true ∷ rest) w fits same e = (
    subst (λ d'. Q (ok tt) d') (sym same) done,
    (fits.0, fits.1, fits.2, (λ q. absurd (nil_no_cons (fits.3 q) e))),
  )
  with_outcome_runs Q x done failed (false ∷ rest) w fits same e =
      let loud : c.quiet ≡ false = elim (Bool-cases c.quiet) [
        | inl q ↦ cc (fits.3 q)
        | inr q ↦ q
      ] in
      (
        subst (λ d'. Q (err x) d') (sym same) (failed loud),
        (fits.0, fits.1, fits.2, (λ q. absurd (nil_no_cons (fits.3 q) e))),
      )

  pub Runs-external :
      (Q : Result Done → Db → Type 0) (x : Failure)
      → Q (ok tt) d
      → (c.quiet ≡ false → Q (err x) d)
      → Runs c d (external x) Q
  unfolding external
  Runs-external Q x done failed = record {
    at = λ w fits same. with_outcome_runs Q x done failed w.outcomes w fits same refl;
  }

  module _ {A B : Type 0} (Q : Result B → Db → Type 0) where
    -- The cases of a value, each with its equation.
    pub Runs-on_option :
        (o : Option A) (f : A → Exec B) (n : Exec B)
        → ((a : A) → o ≡ some a → Runs c d (f a) Q)
        → (o ≡ none → Runs c d n Q)
        → Runs c d (on_option o f n) Q
    unfolding on_option
    Runs-on_option (some a) f n found missing = found a refl
    Runs-on_option none f n found missing = missing refl

  module _ {B : Type 0} (Q : Result B → Db → Type 0) where
    pub Runs-if :
        (b : Bool) (m n : Exec B)
        → (b ≡ true → Runs c d m Q)
        → (b ≡ false → Runs c d n Q)
        → Runs c d (if b then m else n) Q
    Runs-if true m n yes' no' = yes' refl
    Runs-if false m n yes' no' = no' refl

-- In any world at all.
pub runs_in :
    {A : Type 0} (m : Exec A) (Q : Result A → Db → Type 0) (w : World)
    → Runs (record { now = w.now; ids = w.ids; quiet = false }) w.db m Q
    → Q (m w).0 (m w).1.db
runs_in m Q w k = (k.at w (refl, refl, (λ q. cc), (λ q. cc)) refl).0

-- In a world without faults.
pub runs_quiet :
    {A : Type 0} (m : Exec A) (Q : Result A → Db → Type 0) (w : World)
    → w.faults ≡ []
    → w.outcomes ≡ []
    → Runs (record { now = w.now; ids = w.ids; quiet = true }) w.db m Q
    → Q (m w).0 (m w).1.db
runs_quiet m Q w f o k = (k.at w (refl, refl, (λ q. f), (λ q. o)) refl).0
