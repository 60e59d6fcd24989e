-- ===== src/World/Outcomes.antt =====
-- What follows from the result of a statement or a transaction.
use spwn.Base.{◌≡◌, refl, Option, none, some, List, [], ◌∷◌}
use spwn.Db.Rows.{Db}
use spwn.World.{
  DbError, Result, ok, World, Exec, ◌>>=◌, and_then, query, transact, with_fault, result, after,
}

module _ {A : Type 0} (f : Db → Result A × Db) where
  with_fault-ok :
      (fs : List (Option DbError)) (w : World) (a : A)
      → (with_fault fs f w).0 ≡ ok a
      → ((f w.db).0 ≡ ok a) × ((with_fault fs f w).1.db ≡ (f w.db).1)
  with_fault-ok [] w a e = (e, refl)
  with_fault-ok (none ∷ rest) w a e = (e, refl)
  with_fault-ok (some x ∷ rest) w a e = cc

  -- A transaction that succeeds has had its effect.
  pub transact-ok :
      (w : World) (a : A)
      → result (transact f) w ≡ ok a
      → ((f w.db).0 ≡ ok a) × ((after (transact f) w).db ≡ (f w.db).1)
  unfolding transact
  transact-ok w a e = with_fault-ok w.faults w a e

pub ok-injective : {A : Type 0} (a b : A) → Path (Result A) (ok a) (ok b) → a ≡ b
ok-injective a b h = cc

module _ {A B : Type 0} (f : Db → A) (k : A → Exec B) where
  query_then-ok :
      (fs : List (Option DbError)) (w : World) (b : B)
      → (let (r, w') = with_fault fs (λ d. (ok (f d), d)) w in and_then r k w').0 ≡ ok b
      → (w' : World) × (w'.db ≡ w.db) × (result (k (f w.db)) w' ≡ ok b)
  query_then-ok [] w b e = (w, refl, e)
  query_then-ok (none ∷ rest) w b e = (record w { faults = rest }, refl, e)
  query_then-ok (some x ∷ rest) w b e = cc

  -- What follows a query that has succeeded runs on the same tables.
  pub query_bind-ok :
      (w : World) (b : B)
      → result (query f >>= k) w ≡ ok b
      → (w' : World) × (w'.db ≡ w.db) × (result (k (f w.db)) w' ≡ ok b)
  unfolding query transact ◌>>=◌
  query_bind-ok w b e = query_then-ok w.faults w b e

  -- Without faults a query only passes on what it finds.
  pub query_bind-quiet : (w : World) → w.faults ≡ [] → (query f >>= k) w ≡ k (f w.db) w
  unfolding query transact ◌>>=◌
  query_bind-quiet w h = rw h refl
