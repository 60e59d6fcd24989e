-- ===== src/ControlPlane/Subdomain/Free.antt =====
-- control-plane/src/subdomain.rs: when `generate` gives a subdomain, and which.
use Prim.Native.Char.{Char}
use Prim.Native.String.{◌++◌}
use spwn.Base.{
  ℕ, zero, suc, ◌+◌, ◌<◌, ◌≤◌, ◌≡◌, refl, ap, ◌∙◌, sym, subst, String, Bool, true, false, [], inl,
  inr, ◌⊎◌, if◌then◌else◌, arith,
}
use spwn.Db.Rows.{Db}
use spwn.World.{Exec, World, Failure, err, ok, result, pure, fail}
use spwn.World.Outcomes.{query_bind-ok, query_bind-quiet, ok-injective}
use spwn.ControlPlane.Subdomain.{
  generate, try_suffixes, is_free, is_available, slugify, random_suffix,
}

le-cases : (n m : ℕ) → n ≤ m → (n ≡ m) ⊎ (suc n ≤ m)
le-cases n m h = omega arith

-- The candidate of a round.
abbrev pub candidate : (ℕ → Char) → String → ℕ → String
candidate draw base n = base ++ "-" ++ random_suffix draw n

-- A branch that gives the candidate when it is free.
chosen :
    (b : Bool) (c s : String) (rest : Exec String) (d : Db) (w : World)
    → is_free c d ≡ b
    → (result rest w ≡ ok s → is_free s d ≡ true)
    → result (if b then pure c else rest) w ≡ ok s
    → is_free s d ≡ true
unfolding pure
chosen true c s rest d w t k e = subst (λ u. is_free u d ≡ true) (ok-injective c s e) t
chosen false c s rest d w t k e = k e

try_suffixes-is_free :
    (draw : ℕ → Char) (vm_name base : String) (n rounds : ℕ) (w : World) (s : String)
    → result (try_suffixes draw vm_name base n rounds) w ≡ ok s
    → is_free s w.db ≡ true
unfolding try_suffixes is_available fail
try_suffixes-is_free draw vm_name base n zero w s h = cc
try_suffixes-is_free draw vm_name base n (suc rounds) w s h =
    let c : String = candidate draw base n in
    let (w1, same, e) = query_bind-ok (is_free c) _ w s h in
    chosen (is_free c w.db) c s (try_suffixes draw vm_name base (suc n) rounds) w.db w1 refl
      (λ e2.
        subst (λ d. is_free s d ≡ true) same
          (try_suffixes-is_free draw vm_name base (suc n) rounds w1 s e2))
      e

-- A subdomain that is generated is one that no VM has, whatever fails on the way.
pub generate-is_free :
    (draw : ℕ → Char) (vm_name : String) (w : World) (s : String)
    → result (generate draw vm_name) w ≡ ok s
    → is_free s w.db ≡ true
unfolding generate is_available
generate-is_free draw vm_name w s h =
    let base : String = slugify vm_name in
    let (w1, same, e) = query_bind-ok (is_free base) _ w s h in
    chosen (is_free base w.db) base s (try_suffixes draw vm_name base 0 20) w.db w1 refl
      (λ e2.
        subst (λ d. is_free s d ≡ true) same (try_suffixes-is_free draw vm_name base 0 20 w1 s e2))
      e

-- A branch that fails has gone to the rest.
not_chosen :
    (b : Bool) (c : String) (rest : Exec String) (w : World) (e : Failure)
    → result (if b then pure c else rest) w ≡ err e
    → (b ≡ false) × (result rest w ≡ err e)
unfolding pure
not_chosen true c rest w e h = cc
not_chosen false c rest w e h = (refl, h)

try_suffixes-err :
    (draw : ℕ → Char) (vm_name base : String) (n rounds : ℕ) (w : World) (e : Failure)
    → w.faults ≡ []
    → result (try_suffixes draw vm_name base n rounds) w ≡ err e
    → (m : ℕ) → n ≤ m
    → m < n + rounds
    → is_free (candidate draw base m) w.db ≡ false
unfolding try_suffixes is_available
try_suffixes-err draw vm_name base n zero w e q h m low high = ground arith
try_suffixes-err draw vm_name base n (suc rounds) w e q h m low high =
    let c : String = candidate draw base n in
    let rest : Exec String = try_suffixes draw vm_name base (suc n) rounds in
    let h2 =
      sym (ap (λ r. r.0) (query_bind-quiet (is_free c) (λ b. if b then pure c else rest) w q))
      ∙ h in
    let (taken, later) = not_chosen (is_free c w.db) c rest w e h2 in
    elim (le-cases n m low) [
      | inl same ↦ subst (λ i. is_free (candidate draw base i) w.db ≡ false) same taken
      | inr above ↦
          try_suffixes-err draw vm_name base (suc n) rounds w e q later m above (omega arith)
    ]

-- When the database answers, `generate` fails only if the slug and all of its twenty candidates
-- are taken.
pub generate-err :
    (draw : ℕ → Char) (vm_name : String) (w : World) (e : Failure)
    → w.faults ≡ []
    → result (generate draw vm_name) w ≡ err e
    → (is_free (slugify vm_name) w.db ≡ false)
      × ((m : ℕ) → m < 20 → is_free (candidate draw (slugify vm_name) m) w.db ≡ false)
unfolding generate is_available
generate-err draw vm_name w e q h =
    let base : String = slugify vm_name in
    let rest : Exec String = try_suffixes draw vm_name base 0 20 in
    let h2 =
      sym (ap (λ r. r.0) (query_bind-quiet (is_free base) (λ b. if b then pure base else rest) w q))
      ∙ h in
    let (taken, later) = not_chosen (is_free base w.db) base rest w e h2 in
    (
      taken,
      (λ m high. try_suffixes-err draw vm_name base 0 20 w e q later m (omega arith) (omega arith)),
    )
