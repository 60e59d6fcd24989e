-- ===== src/World/Ensures.antt =====
-- What holds of the database when an action has succeeded.
use spwn.Base.{◌≡◌, refl, sym, ap, ◌∙◌, subst, Option, none, some, List, [], ◌∷◌}
use spwn.Db.Rows.{Db}
use spwn.World.{
  DbError, Failure, Result, ok, err, World, Exec, pure, fail, ok_or, ◌>>=◌, query, transact, update,
  with_fault, and_then, on_option,
}
use spwn.World.Preserves.{Preserves}
use spwn.World.Outcomes.{transact-ok, ok-injective}

-- From a database with `P`, an action that succeeds reaches one with `R`.
pub record Ensures {A : Type 0} (P R : Db → Type 0) (m : Exec A) : Type 0 where
  pub at : (w : World) → P w.db → (a : A) → (m w).0 ≡ ok a → R (m w).1.db

module _ {A B : Type 0} where
  and_then_after :
      (R : Db → Type 0) (r : Result A) (f : A → Exec B)
      → ((a : A) → Preserves R (f a))
      → (w : World) → ((a : A) → r ≡ ok a → R w.db)
      → (b : B) → (and_then r f w).0 ≡ ok b
      → R (and_then r f w).1.db
  and_then_after R (ok a) f k w h b e = (k a).at w (h a refl)
  and_then_after R (err x) f k w h b e = cc

  and_then_from :
      (S : A → Db → Type 0) (R : Db → Type 0) (r : Result A) (f : A → Exec B)
      → ((a : A) → Ensures (S a) R (f a))
      → (w : World) → ((a : A) → r ≡ ok a → S a w.db)
      → (b : B) → (and_then r f w).0 ≡ ok b
      → R (and_then r f w).1.db
  and_then_from S R (ok a) f k w h b e = (k a).at w (h a refl) b e
  and_then_from S R (err x) f k w h b e = cc

  -- What is known of the first part's value is handed to the rest.
  pub Ensures-from :
      (P : Db → Type 0) (S : A → Db → Type 0) (R : Db → Type 0) (m : Exec A) (f : A → Exec B)
      → ((w : World) → P w.db → (a : A) → (m w).0 ≡ ok a → S a (m w).1.db)
      → ((a : A) → Ensures (S a) R (f a))
      → Ensures P R (m >>= f)
  unfolding ◌>>=◌
  Ensures-from P S R m f km kf = record {
    at = λ w p b e. let (r, w') = m w in and_then_from S R r f kf w' (km w p) b e;
  }

with_fault_ensures :
    {A : Type 0} (P R : Db → Type 0) (fs : List (Option DbError)) (f : Db → Result A × Db)
    → ((d : Db) → P d → (a : A) → (f d).0 ≡ ok a → R (f d).1)
    → (w : World) → P w.db
    → (a : A) → (with_fault fs f w).0 ≡ ok a
    → R (with_fault fs f w).1.db
with_fault_ensures P R [] f k w p a e = k w.db p a e
with_fault_ensures P R (none ∷ rest) f k w p a e = k w.db p a e
with_fault_ensures P R (some x ∷ rest) f k w p a e = cc

module _ {P R : Db → Type 0} where
  module _ {A B : Type 0} where
    -- The first part keeps what the rest needs.
    pub Ensures-bind :
        (m : Exec A) (f : A → Exec B)
        → Preserves P m
        → ((a : A) → Ensures P R (f a))
        → Ensures P R (m >>= f)
    Ensures-bind m f km kf = Ensures-from P (λ a. P) R m f (λ w p a e. km.at w p) kf

    -- The first part reaches it and the rest keeps it.
    pub Ensures-then :
        (m : Exec A) (f : A → Exec B)
        → Ensures P R m
        → ((a : A) → Preserves R (f a))
        → Ensures P R (m >>= f)
    unfolding ◌>>=◌
    Ensures-then m f km kf = record {
      at = λ w p b e. let (r, w') = m w in and_then_after R r f kf w' (λ a h. km.at w p a h) b e;
    }

  module _ {A : Type 0} where
    pub Ensures-transact :
        (f : Db → Result A × Db)
        → ((d : Db) → P d → (a : A) → (f d).0 ≡ ok a → R (f d).1)
        → Ensures P R (transact f)
    unfolding transact
    Ensures-transact f k = record { at = λ w p a e. with_fault_ensures P R w.faults f k w p a e }

    pub Ensures-fail : (e : Failure) → Ensures P R (fail {A = A} e)
    unfolding fail
    Ensures-fail e = record { at = λ w p a h. cc }

    pub Ensures-pure : (a : A) → ((d : Db) → P d → R d) → Ensures P R (pure a)
    unfolding pure
    Ensures-pure a k = record { at = λ w p b e. k w.db p }

  pub Ensures-update : (f : Db → Db) → ((d : Db) → P d → R (f d)) → Ensures P R (update f)
  unfolding update
  Ensures-update f k = Ensures-transact (λ d. (ok tt, f d)) (λ d p a e. k d p)

-- On known tables a query's value is known.
module _ {A B : Type 0} {R : Db → Type 0} (d : Db) where
  pub Ensures-query :
      (f : Db → A) (k : A → Exec B)
      → Ensures (λ d'. d' ≡ d) R (k (f d))
      → Ensures (λ d'. d' ≡ d) R (query f >>= k)
  unfolding query
  Ensures-query f k rest =
      Ensures-from (λ d'. d' ≡ d) (λ a d'. (f d ≡ a) × (d' ≡ d)) R (query f) k
        (λ w at_d a h.
          let (told, same) = transact-ok (λ d'. (ok (f d'), d')) w a h in
          (ap f (sym at_d) ∙ ok-injective (f w.db) a told, same ∙ at_d))
        (λ a. record {
          at = λ w (is_a, at_d) b h.
              (subst (λ x. Ensures (λ d'. d' ≡ d) R (k x)) is_a rest).at w at_d b h;
        })

module _ {A B : Type 0} {P R : Db → Type 0} where
  pub Ensures-ok_or :
      (o : Option A) (e : Failure) (k : A → Exec B)
      → ((a : A) → o ≡ some a → Ensures P R (k a))
      → Ensures P R (ok_or o e >>= k)
  unfolding ok_or ◌>>=◌
  Ensures-ok_or none e k rest = record { at = λ w p b h. cc }
  Ensures-ok_or (some a) e k rest = record { at = λ w p b h. (rest a refl).at w p b h }

  pub Ensures-on_option :
      (o : Option A) (f : A → Exec B) (n : Exec B)
      → ((a : A) → o ≡ some a → Ensures P R (f a))
      → (o ≡ none → Ensures P R n)
      → Ensures P R (on_option o f n)
  unfolding on_option
  Ensures-on_option none f n kf kn = kn refl
  Ensures-on_option (some a) f n kf kn = kf a refl
