-- ===== src/Base/Lists.antt =====
-- Lists measured by native numbers and searched by Boolean tests, as rows of a table are.
use Prim.Native.Nat.{ℕ, zero, suc, ◌+◌, ◌≤◌}
use mathlib.Core.Path.{◌≡◌, refl, ap}
use mathlib.Core.Bool.{Bool, true, false, not, ◌||◌}
use mathlib.Core.Logic.{inl, inr, ◌⊎◌}
use mathlib.Core.List.{List, [], ◌∷◌, ◌++◌}
use mathlib.Core.Option.{Option, none, some}
use native.Mathlib.Omega.{arith}
use spwn.Base.Tests.{if◌then◌else◌, Bool-cases}

module _ {ℓ} {A : Type ℓ} where
  abbrev pub length : List A → ℕ
  length [] = 0
  length (x ∷ xs) = suc (length xs)

  -- The rows that satisfy a test, in order.
  unfoldable pub select : (A → Bool) → List A → List A
  select p [] = []
  select p (x ∷ xs) = let rest = select p xs in if p x then x ∷ rest else rest

  -- The first row that satisfies a test.
  unfoldable pub find : (A → Bool) → List A → Option A
  find p [] = none
  find p (x ∷ xs) = if p x then some x else find p xs

  unfoldable pub any : (A → Bool) → List A → Bool
  any p [] = false
  any p (x ∷ xs) = p x || any p xs

  -- Rewrites the rows that satisfy a test.
  unfoldable pub update_where : (A → Bool) → (A → A) → List A → List A
  update_where p f [] = []
  update_where p f (x ∷ xs) = (if p x then f x else x) ∷ update_where p f xs

  abbrev pub take : ℕ → List A → List A
  take zero xs = []
  take (suc n) [] = []
  take (suc n) (x ∷ xs) = x ∷ take n xs

  -- A predicate on every element, which computes to tuples.
  abbrev pub All {κ} : (A → Type κ) → List A → Type κ
  All P [] = Unit
  All P (x ∷ xs) = P x × All P xs

module _ {ℓ} {A : Type ℓ} where
  pub length-append : (xs ys : List A) → length (xs ++ ys) ≡ length xs + length ys
  length-append [] ys = omega arith
  length-append (x ∷ xs) ys = omega (arith, length-append xs ys)

  pub length-select-le : (p : A → Bool) (xs : List A) → length (select p xs) ≤ length xs
  unfolding select
  length-select-le p [] = omega arith
  length-select-le p (x ∷ xs) = ground (arith, length-select-le p xs)

  pub length-update_where :
      (p : A → Bool) (f : A → A) (xs : List A) → length (update_where p f xs) ≡ length xs
  unfolding update_where
  length-update_where p f [] = refl
  length-update_where p f (x ∷ xs) = ap suc (length-update_where p f xs)

  pub find_satisfies : (p : A → Bool) (xs : List A) (a : A) → find p xs ≡ some a → p a ≡ true
  unfolding find
  find_satisfies p [] a h = ground arith
  find_satisfies p (x ∷ xs) a h = ground (arith, find_satisfies p xs a)

module _ {A : Type 0} where
  abbrev pub is_empty : List A → Bool
  is_empty [] = true
  is_empty (x ∷ xs) = false

  -- Membership that computes.
  abbrev pub Among : A → List A → Type 0
  Among a [] = ⊥
  Among a (x ∷ xs) = (a ≡ x) ⊎ Among a xs

  pub find-Among : (p : A → Bool) (xs : List A) (a : A) → find p xs ≡ some a → Among a xs
  unfolding find
  find-Among p [] a h = cc
  find-Among p (x ∷ xs) a h = elim (Bool-cases (p x)) [
    | inl e ↦ inl (cc (rw e at h))
    | inr e ↦ inr (find-Among p xs a (rw e at h))
  ]

  pub any-find-none : (p : A → Bool) (xs : List A) → any p xs ≡ false → find p xs ≡ none
  unfolding find any
  any-find-none p [] h = refl
  any-find-none p (x ∷ xs) h = ground (arith, any-find-none p xs)

  -- A row added behind rows that fail the test is the one found.
  pub find-snoc :
      (p : A → Bool) (xs : List A) (a : A)
      → any p xs ≡ false
      → p a ≡ true
      → find p (xs ++ a ∷ []) ≡ some a
  unfolding find any
  find-snoc p [] a h q = rw q refl
  find-snoc p (x ∷ xs) a h q = elim (Bool-cases (p x)) [
    | inl e ↦ cc (rw e at h)
    | inr e ↦ rw e (find-snoc p xs a (rw e at h) q)
  ]

module _ {ℓ} {A : Type ℓ} (p : A → Bool) where
  -- What is left after the rows that satisfy a test are deleted.
  pub find-select-not : (xs : List A) → find p (select (λ x. not (p x)) xs) ≡ none
  unfolding find select
  find-select-not [] = refl
  find-select-not (x ∷ xs) = elim (Bool-cases (p x)) [
    | inl e ↦ rw e (find-select-not xs)
    | inr e ↦ rw (e, e) (find-select-not xs)
  ]

  pub select-select-not : (xs : List A) → select p (select (λ x. not (p x)) xs) ≡ []
  unfolding select
  select-select-not [] = refl
  select-select-not (x ∷ xs) = elim (Bool-cases (p x)) [
    | inl e ↦ rw e (select-select-not xs)
    | inr e ↦ rw (e, e) (select-select-not xs)
  ]
