-- ===== src/Db/Quota/Totals.antt =====
-- crates/db/src/lib.rs: what the sums of check_quota_and_reserve count once a VM is let in.
use spwn.Base.{
  String, ◌==◌, ◌≡◌, refl, sym, ◌∙◌, inl, inr, subst, Bool, true, false, some, List, [], ◌∷◌, All,
  select, find, update_where, arith, Bool-cases, eq_iff,
}
use mathlib.Core.Option.{some-injective}
use spwn.Base.Int.{ℤ, ◌+ℤ◌, eq_of_parts, +ℤ_parts}
use spwn.Db.Rows.{VmRow}
use spwn.Db.Vms.{has_id}
use spwn.Db.Quota.{counts, total, reserved}

-- The primary key of `vms`: no two rows have the same id.
abbrev pub DistinctIds : List VmRow → Type 0
DistinctIds [] = Unit {0}
DistinctIds (v ∷ vs) = All (λ u. has_id (VmRow.id v) u ≡ false) vs × DistinctIds vs

update_where-none :
    (p : VmRow → Bool) (f : VmRow → VmRow) (vs : List VmRow)
    → All (λ v. p v ≡ false) vs
    → update_where p f vs ≡ vs
unfolding update_where
update_where-none p f [] all = refl
update_where-none p f (v ∷ vs) all = rw (all.0, update_where-none p f vs all.1) refl

All-same_id :
    (x : VmRow) (id : String) (vs : List VmRow)
    → has_id id x ≡ true
    → All (λ u. has_id (VmRow.id x) u ≡ false) vs
    → All (λ u. has_id id u ≡ false) vs
All-same_id x id vs e all =
    subst (λ s. All (λ u. has_id s u ≡ false) vs) ((eq_iff (VmRow.id x) id).0 e) all

+ℤ_comm : (a b : ℤ) → a +ℤ b ≡ b +ℤ a
+ℤ_comm a b = eq_of_parts (a +ℤ b) (b +ℤ a) (omega (arith, +ℤ_parts a b, +ℤ_parts b a))

+ℤ_assoc : (a b c : ℤ) → a +ℤ (b +ℤ c) ≡ (a +ℤ b) +ℤ c
+ℤ_assoc a b c =
    eq_of_parts (a +ℤ (b +ℤ c)) ((a +ℤ b) +ℤ c)
      (omega (arith, +ℤ_parts a (b +ℤ c), +ℤ_parts b c, +ℤ_parts (a +ℤ b) c, +ℤ_parts a b))

module _ (f : VmRow → ℤ) (account_id : String) where
  total-counted :
      (x : VmRow) (xs : List VmRow)
      → counts account_id x ≡ true
      → total f (select (counts account_id) (x ∷ xs))
        ≡ f x +ℤ total f (select (counts account_id) xs)
  unfolding total select
  total-counted x xs e = rw e refl

  total-skipped :
      (x : VmRow) (xs : List VmRow)
      → counts account_id x ≡ false
      → total f (select (counts account_id) (x ∷ xs)) ≡ total f (select (counts account_id) xs)
  unfolding total select
  total-skipped x xs e = rw e refl

  counts-reserved :
      (v : VmRow) → (v.account_id == account_id) ≡ true → counts account_id (reserved v) ≡ true
  counts-reserved v mine = rw mine refl

  total-reserved_head :
      (v : VmRow) (xs : List VmRow)
      → f (reserved v) ≡ f v
      → (v.account_id == account_id) ≡ true
      → counts account_id v ≡ false
      → total f (select (counts account_id) (reserved v ∷ xs))
        ≡ total f (select (counts account_id) (v ∷ xs)) +ℤ f v
  total-reserved_head v xs same mine off =
      total-counted (reserved v) xs (counts-reserved v mine)
      ∙ rw (same, total-skipped v xs off) (+ℤ_comm (f v) (total f (select (counts account_id) xs)))

  -- Reserving a VM adds its part to the account's usage.
  pub total-reserved :
      (id : String) (v : VmRow) (vs : List VmRow)
      → f (reserved v) ≡ f v
      → DistinctIds vs
      → find (has_id id) vs ≡ some v
      → (v.account_id == account_id) ≡ true
      → counts account_id v ≡ false
      → total f (select (counts account_id) (update_where (has_id id) reserved vs))
        ≡ total f (select (counts account_id) vs) +ℤ f v
  unfolding find update_where
  total-reserved id v [] same distinct found mine off = cc
  total-reserved id v (x ∷ xs) same distinct found mine off = elim (Bool-cases (has_id id x)) [
    | inl e ↦
        let others = All-same_id x id xs e distinct.0 in
        rw (e, update_where-none (has_id id) reserved xs others)
          (subst
            (λ y.
              total f (select (counts account_id) (reserved y ∷ xs))
              ≡ total f (select (counts account_id) (y ∷ xs)) +ℤ f v)
            (sym (some-injective x v (rw e at found))) (total-reserved_head v xs same mine off))
    | inr e ↦
        let ih = total-reserved id v xs same distinct.1 (rw e at found) mine off in
        elim (Bool-cases (counts account_id x)) [
          | inl c ↦
              rw
                (
                  e,
                  total-counted x (update_where (has_id id) reserved xs) c,
                  total-counted x xs c,
                  ih,
                )
                (+ℤ_assoc (f x) (total f (select (counts account_id) xs)) (f v))
          | inr c ↦
              rw (e, total-skipped x (update_where (has_id id) reserved xs) c, total-skipped x xs c)
                ih
        ]
  ]
