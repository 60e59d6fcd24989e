-- ===== src/World/Preserves.antt =====
-- Invariants of the database: `Preserves Q m` says that the action `m` keeps `Q` whatever fails,
-- with one rule for each way to build an action.
use spwn.Base.{◌≡◌, refl, Bool, true, false, Option, none, some, List, [], ◌∷◌, if◌then◌else◌}
use spwn.Db.Rows.{Db}
use spwn.World.{
  DbError, Failure, Result, ok, err, World, Exec, pure, fail, ok_or, ◌>>=◌, attempt, ignore, gets,
  modify, new_v4, transact, query, update, constrained, external, with_fault, checked, with_outcome,
  and_then, on_result, on_option,
}

pub record Preserves {A : Type 0} (Q : Db → Type 0) (m : Exec A) : Type 0 where
  pub at : (w : World) → Q w.db → Q (m w).1.db

module _ (Q : Db → Type 0) where
  checked_keeps :
      (o : Option DbError) (before after' : Db)
      → Q before
      → Q after'
      → Q (checked o before after').1
  checked_keeps none before after' q r = r
  checked_keeps (some e) before after' q r = q

  with_outcome_keeps :
      (os : List Bool) (e : Failure) (w : World) → Q w.db → Q (with_outcome os e w).1.db
  with_outcome_keeps [] e w q = q
  with_outcome_keeps (true ∷ rest) e w q = q
  with_outcome_keeps (false ∷ rest) e w q = q

module _ {Q : Db → Type 0} where
  module _ {A : Type 0} where
    pub Preserves-pure : (a : A) → Preserves Q (pure a)
    unfolding pure
    Preserves-pure a = record { at = λ w q. q }

    pub Preserves-fail : (e : Failure) → Preserves Q (fail {A = A} e)
    unfolding fail
    Preserves-fail e = record { at = λ w q. q }

    pub Preserves-ok_or : (o : Option A) (e : Failure) → Preserves Q (ok_or o e)
    unfolding ok_or
    Preserves-ok_or none e = record { at = λ w q. q }
    Preserves-ok_or (some a) e = record { at = λ w q. q }

    pub Preserves-gets : (f : World → A) → Preserves Q (gets f)
    unfolding gets
    Preserves-gets f = record { at = λ w q. q }

    pub Preserves-attempt : (m : Exec A) → Preserves Q m → Preserves Q (attempt m)
    unfolding attempt
    Preserves-attempt m k = record { at = λ w q. k.at w q }

    pub Preserves-ignore : (m : Exec A) → Preserves Q m → Preserves Q (ignore m)
    unfolding ignore
    Preserves-ignore m k = record { at = λ w q. k.at w q }

    pub Preserves-if :
        (b : Bool) (m n : Exec A)
        → (b ≡ true → Preserves Q m)
        → (b ≡ false → Preserves Q n)
        → Preserves Q (if b then m else n)
    Preserves-if true m n km kn = km refl
    Preserves-if false m n km kn = kn refl

    with_fault_keeps :
        (fs : List (Option DbError)) (f : Db → Result A × Db)
        → ((d : Db) → Q d → Q (f d).1)
        → (w : World) → Q w.db
        → Q (with_fault fs f w).1.db
    with_fault_keeps [] f k w q = k w.db q
    with_fault_keeps (none ∷ rest) f k w q = k w.db q
    with_fault_keeps (some e ∷ rest) f k w q = q

    pub Preserves-transact :
        (f : Db → Result A × Db) → ((d : Db) → Q d → Q (f d).1) → Preserves Q (transact f)
    unfolding transact
    Preserves-transact f k = record { at = λ w q. with_fault_keeps w.faults f k w q }

    pub Preserves-query : (f : Db → A) → Preserves Q (query f)
    unfolding query
    Preserves-query f = Preserves-transact (λ d. (ok (f d), d)) (λ d q. q)

  pub Preserves-new_v4 : Preserves Q new_v4
  unfolding new_v4
  Preserves-new_v4 = record { at = λ w q. q }

  pub Preserves-modify :
      (f : World → World) → ((w : World) → Q w.db → Q (f w).db) → Preserves Q (modify f)
  unfolding modify
  Preserves-modify f k = record { at = k }

  pub Preserves-update : (f : Db → Db) → ((d : Db) → Q d → Q (f d)) → Preserves Q (update f)
  unfolding update
  Preserves-update f k = Preserves-transact (λ d. (ok tt, f d)) k

  pub Preserves-constrained :
      (violation : Db → Option DbError) (f : Db → Db)
      → ((d : Db) → Q d → Q (f d))
      → Preserves Q (constrained violation f)
  unfolding constrained
  Preserves-constrained violation f k =
      Preserves-transact (λ d. checked (violation d) d (f d))
        (λ d q. checked_keeps Q (violation d) d (f d) q (k d q))

  pub Preserves-external : (e : Failure) → Preserves Q (external e)
  unfolding external
  Preserves-external e = record { at = λ w q. with_outcome_keeps Q w.outcomes e w q }

module _ {A B : Type 0} {Q : Db → Type 0} where
  pub and_then_keeps :
      (r : Result A) (f : A → Exec B)
      → ((a : A) → Preserves Q (f a))
      → (w : World) → Q w.db
      → Q (and_then r f w).1.db
  and_then_keeps (ok a) f k w q = (k a).at w q
  and_then_keeps (err e) f k w q = q

  pub Preserves-bind :
      (m : Exec A) (f : A → Exec B)
      → Preserves Q m
      → ((a : A) → Preserves Q (f a))
      → Preserves Q (m >>= f)
  unfolding ◌>>=◌
  Preserves-bind m f km kf = record {
    at = λ w q. let (r, w') = m w in and_then_keeps r f kf w' (km.at w q);
  }

module _ {A B : Type 0} {Q : Db → Type 0} where
  pub Preserves-on_result :
      (r : Result A) (f : A → Exec B) (g : Failure → Exec B)
      → ((a : A) → Preserves Q (f a))
      → ((e : Failure) → Preserves Q (g e))
      → Preserves Q (on_result r f g)
  unfolding on_result
  Preserves-on_result (ok a) f g kf kg = kf a
  Preserves-on_result (err e) f g kf kg = kg e

  pub Preserves-on_option :
      (o : Option A) (f : A → Exec B) (n : Exec B)
      → ((a : A) → Preserves Q (f a))
      → Preserves Q n
      → Preserves Q (on_option o f n)
  unfolding on_option
  Preserves-on_option (some a) f n kf kn = kf a
  Preserves-on_option none f n kf kn = kn

pub ruleset preserve_rules = (
  Preserves-pure, Preserves-fail, Preserves-ok_or, Preserves-gets, Preserves-attempt,
  Preserves-ignore, Preserves-if, Preserves-new_v4, Preserves-query, Preserves-external,
  Preserves-bind, Preserves-on_result, Preserves-on_option,
)
