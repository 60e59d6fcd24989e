-- ===== src/Base/Sort.antt =====
-- `sort_by_key` and ORDER BY: a stable insertion sort by an integer key, and what is first in it.
use mathlib.Core.Logic.{inl, inr}
use mathlib.Core.List.{List, [], ◌∷◌, ◌++◌, reverse, reverse-cons}
use native.Mathlib.Omega.{arith}
use spwn.Base.Tests.{if◌then◌else◌, Bool-cases}
use spwn.Base.Lists.{All}
use spwn.Base.Int.{ℤ, ◌≤ℤ◌, leb_ℤ}

module _ {A : Type 0} where
  abbrev pub IsSorted : (A → A → Type 0) → List A → Type 0
  IsSorted R [] = Unit
  IsSorted R (x ∷ xs) = All (R x) xs × IsSorted R xs

  pub All-append : (P : A → Type 0) (xs ys : List A) → All P xs → All P ys → All P (xs ++ ys)
  All-append P [] ys hx hy = hy
  All-append P (x ∷ xs) ys hx hy = (hx.0, All-append P xs ys hx.1 hy)

  pub All-map : (P Q : A → Type 0) (xs : List A) → ((a : A) → P a → Q a) → All P xs → All Q xs
  All-map P Q [] f h = tt
  All-map P Q (x ∷ xs) f h = (f x h.0, All-map P Q xs f h.1)

  pub All-reverse : (P : A → Type 0) (xs : List A) → All P xs → All P (reverse xs)
  All-reverse P [] h = tt
  All-reverse P (x ∷ xs) h =
      rw reverse-cons (All-append P (reverse xs) (x ∷ []) (All-reverse P xs h.1) (h.0, tt))

  IsSorted-append :
      (R : A → A → Type 0) (xs : List A) (y : A)
      → IsSorted R xs
      → All (λ x. R x y) xs
      → IsSorted R (xs ++ y ∷ [])
  IsSorted-append R [] y s h = (tt, tt)
  IsSorted-append R (x ∷ xs) y s h =
      (All-append (R x) xs (y ∷ []) s.0 (h.0, tt), IsSorted-append R xs y s.1 h.1)

  -- The reverse of a sorted list is sorted the other way.
  pub IsSorted-reverse :
      (R : A → A → Type 0) (xs : List A) → IsSorted R xs → IsSorted (λ a b. R b a) (reverse xs)
  IsSorted-reverse R [] s = tt
  IsSorted-reverse R (x ∷ xs) s = rw reverse-cons (
      IsSorted-append (λ a b. R b a) (reverse xs) x (IsSorted-reverse R xs s.1)
        (All-reverse (R x) xs s.0))

  module _ (key : A → ℤ) where
    unfoldable pub insert_by : A → List A → List A
    insert_by x [] = x ∷ []
    insert_by x (y ∷ ys) =
        let rest = insert_by x ys in if leb_ℤ (key x) (key y) then x ∷ y ∷ ys else y ∷ rest

    unfoldable pub sort_by_key : List A → List A
    unfolding insert_by
    sort_by_key [] = []
    sort_by_key (x ∷ xs) = insert_by x (sort_by_key xs)

    abbrev pub KeyLe : A → A → Type 0
    KeyLe a b = key a ≤ℤ key b

    pub All-insert_by :
        (P : A → Type 0) (x : A) (ys : List A) → P x → All P ys → All P (insert_by x ys)
    unfolding insert_by
    All-insert_by P x [] h hs = (h, tt)
    All-insert_by P x (y ∷ ys) h hs = elim (Bool-cases (leb_ℤ (key x) (key y))) [
      | inl e ↦ rw e (h, hs)
      | inr e ↦ rw e (hs.0, All-insert_by P x ys h hs.1)
    ]

    pub All-sort_by_key : (P : A → Type 0) (xs : List A) → All P xs → All P (sort_by_key xs)
    unfolding sort_by_key
    All-sort_by_key P [] h = tt
    All-sort_by_key P (x ∷ xs) h = All-insert_by P x (sort_by_key xs) h.0 (All-sort_by_key P xs h.1)

    All-insert_by_conv :
        (P : A → Type 0) (x : A) (ys : List A) → All P (insert_by x ys) → P x × All P ys
    unfolding insert_by
    All-insert_by_conv P x [] h = h
    All-insert_by_conv P x (y ∷ ys) h = elim (Bool-cases (leb_ℤ (key x) (key y))) [
      | inl e ↦ rw e at h
      | inr e ↦
          let h' : P y × All P (insert_by x ys) = rw e at h in
          let (hx, hs) = All-insert_by_conv P x ys h'.1 in (hx, (h'.0, hs))
    ]

    -- What holds of the whole sorted list holds of the list.
    pub All-sort_by_key_conv : (P : A → Type 0) (xs : List A) → All P (sort_by_key xs) → All P xs
    unfolding sort_by_key
    All-sort_by_key_conv P [] h = tt
    All-sort_by_key_conv P (x ∷ xs) h =
        let (hx, hs) = All-insert_by_conv P x (sort_by_key xs) h in
        (hx, All-sort_by_key_conv P xs hs)

    insert_by-IsSorted : (x : A) (ys : List A) → IsSorted KeyLe ys → IsSorted KeyLe (insert_by x ys)
    unfolding insert_by
    insert_by-IsSorted x [] s = (tt, tt)
    insert_by-IsSorted x (y ∷ ys) s = elim (Bool-cases (leb_ℤ (key x) (key y))) [
      | inl e ↦
          let le : key x ≤ℤ key y = ground arith in
          rw e ((le, All-map (KeyLe y) (KeyLe x) ys (λ a h. omega arith) s.0), s)
      | inr e ↦
          let le : key y ≤ℤ key x = ground arith in
          rw e (All-insert_by (KeyLe y) x ys le s.0, insert_by-IsSorted x ys s.1)
    ]

    pub sort_by_key-IsSorted : (xs : List A) → IsSorted KeyLe (sort_by_key xs)
    unfolding sort_by_key
    sort_by_key-IsSorted [] = tt
    sort_by_key-IsSorted (x ∷ xs) = insert_by-IsSorted x (sort_by_key xs) (sort_by_key-IsSorted xs)
