-- ===== src/World/Leads.antt =====
-- Actions that lead from one invariant of the database to a weaker one.
use spwn.Base.{◌≡◌, refl, Option, none, some, List, [], ◌∷◌}
use spwn.Db.Rows.{Db}
use spwn.World.{
  DbError, Result, ok, err, World, Exec, ◌>>=◌, transact, query, constrained, with_fault, checked,
  and_then,
}
use spwn.World.Preserves.{Preserves, and_then_keeps}

-- From one invariant to a weaker one, for an action that uses up what the stronger one holds.
pub record Leads {A : Type 0} (P Q : Db → Type 0) (m : Exec A) : Type 0 where
  pub at : (w : World) → P w.db → Q (m w).1.db

module _ {A B : Type 0} {P Q : Db → Type 0} where
  and_then_weakens :
      ((d : Db) → P d → Q d)
      → (r : Result A) (f : A → Exec B) → ((a : A) → Leads P Q (f a))
      → (w : World) → P w.db
      → Q (and_then r f w).1.db
  and_then_weakens weaker (ok a) f k w p = (k a).at w p
  and_then_weakens weaker (err e) f k w p = weaker w.db p

  -- The first part keeps the stronger one.
  pub Leads-bind :
      ((d : Db) → P d → Q d)
      → (m : Exec A) (f : A → Exec B) → Preserves P m
      → ((a : A) → Leads P Q (f a))
      → Leads P Q (m >>= f)
  unfolding ◌>>=◌
  Leads-bind weaker m f km kf = record {
    at = λ w p. let (r, w') = m w in and_then_weakens weaker r f kf w' (km.at w p);
  }

  -- The rest keeps the weaker one.
  pub Leads-then :
      (m : Exec A) (f : A → Exec B)
      → Leads P Q m
      → ((a : A) → Preserves Q (f a))
      → Leads P Q (m >>= f)
  unfolding ◌>>=◌
  Leads-then m f km kf = record {
    at = λ w p. let (r, w') = m w in and_then_keeps r f kf w' (km.at w p);
  }

module _ {A B : Type 0} (Q : Db → Type 0) where
  with_fault_decides :
      (fs : List (Option DbError)) (f : Db → A) (k : A → Exec B)
      → ((w : World) → Q w.db → Q (k (f w.db) w).1.db)
      → (w : World) → Q w.db
      → Q (let (r, w') = with_fault fs (λ d. (ok (f d), d)) w in and_then r k w').1.db
  with_fault_decides [] f k h w q = h w q
  with_fault_decides (none ∷ rest) f k h w q = h (record w { faults = rest }) q
  with_fault_decides (some e ∷ rest) f k h w q = q

  -- What follows a query knows its answer.
  pub Preserves-query_bind :
      (f : Db → A) (k : A → Exec B)
      → ((w : World) → Q w.db → Q (k (f w.db) w).1.db)
      → Preserves Q (query f >>= k)
  unfolding ◌>>=◌ query transact
  Preserves-query_bind f k h = record { at = λ w q. with_fault_decides w.faults f k h w q }

module _ {P Q : Db → Type 0} where
  checked_leads :
      ((d : Db) → P d → Q d)
      → (o : Option DbError) (before after' : Db) → P before
      → Q after'
      → Q (checked o before after').1
  checked_leads weaker none before after' p q = q
  checked_leads weaker (some e) before after' p q = weaker before p

  with_fault_leads :
      ((d : Db) → P d → Q d)
      → {A : Type 0} (fs : List (Option DbError)) (f : Db → Result A × Db)
      → ((d : Db) → P d → Q (f d).1)
      → (w : World) → P w.db
      → Q (with_fault fs f w).1.db
  with_fault_leads weaker [] f k w p = k w.db p
  with_fault_leads weaker (none ∷ rest) f k w p = k w.db p
  with_fault_leads weaker (some e ∷ rest) f k w p = weaker w.db p

  pub Leads-constrained :
      ((d : Db) → P d → Q d)
      → (violation : Db → Option DbError) (f : Db → Db) → ((d : Db) → P d → Q (f d))
      → Leads P Q (constrained violation f)
  unfolding constrained transact
  Leads-constrained weaker violation f k = record {
    at = λ w p.
        with_fault_leads weaker w.faults (λ d. checked (violation d) d (f d))
          (λ d p. checked_leads weaker (violation d) d (f d) p (k d p)) w p;
  }

module _ {A B : Type 0} {P Q : Db → Type 0} (S : A → Type 0) where
  and_then_from :
      ((d : Db) → P d → Q d)
      → (r : Result A) (f : A → Exec B) (w : World) → P w.db
      → ((a : A) → r ≡ ok a → S a)
      → ((a : A) → S a → Leads P Q (f a))
      → Q (and_then r f w).1.db
  and_then_from weaker (ok a) f w p s k = (k a (s a refl)).at w p
  and_then_from weaker (err e) f w p s k = weaker w.db p

  -- The same, where the rest knows something of the first part's value.
  pub Leads-from :
      ((d : Db) → P d → Q d)
      → (m : Exec A) (f : A → Exec B) → Preserves P m
      → ((w : World) → P w.db → (a : A) → (m w).0 ≡ ok a → S a)
      → ((a : A) → S a → Leads P Q (f a))
      → Leads P Q (m >>= f)
  unfolding ◌>>=◌
  Leads-from weaker m f km ks kf = record {
    at = λ w p. let (r, w') = m w in and_then_from weaker r f w' (km.at w p) (λ a e. ks w p a e) kf;
  }

pub Leads-Preserves :
    {A : Type 0} {P Q : Db → Type 0} (m : Exec A)
    → ((d : Db) → P d → Q d)
    → Preserves Q m
    → Leads P Q m
Leads-Preserves m weaker k = record { at = λ w p. k.at w (weaker w.db p) }
