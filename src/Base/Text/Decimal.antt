-- ===== src/Base/Text/Decimal.antt =====
-- Decimal numbers: what is printed parses back, and is made of digits.
use Prim.Native.Nat.{ℕ, zero, suc, ◌+◌, ◌*◌, ◌/◌, ◌%◌, ◌≤◌, ◌<◌}
use Prim.Native.Char.{Char}
use Prim.Native.String.{String, [], ◌∷◌, ◌++◌}
use mathlib.Core.Path.{◌≡◌, refl, ap, ◌∙◌}
use mathlib.Core.Logic.{inl, inr, ◌≢◌}
use mathlib.Core.Bool.{Bool, true, false}
use mathlib.Core.Option.{Option, none, some}
use native.Mathlib.Omega.{arith}
use text.Mathlib.TextLemmas.{nil-append, cons-append, cons-ne-nil, concat-ne-nil}
use spwn.Base.Tests.{ltb, Bool-cases}
use spwn.Base.Text.{
  is_digit, digit_char, code-digit_char, show_fuel, show, push_digit, next_digits, parse_digits,
  parse_unsigned, take_until, drop_past, is_dot,
}

-- A text of characters that satisfy a test.
abbrev pub AllChars : (Char → Bool) → String → Type 0
AllChars p [] = Unit {0}
AllChars p (c ∷ s) = (p c ≡ true) × AllChars p s

pub AllChars-append :
    (p : Char → Bool) (s t : String) → AllChars p s → AllChars p t → AllChars p (s ++ t)
AllChars-append p [] t hs ht = rw nil-append ht
AllChars-append p (c ∷ s) t hs ht = rw cons-append (hs.0, AllChars-append p s t hs.1 ht)

is_digit-digit_char : (d : ℕ) → d < 10 → is_digit (digit_char d) ≡ true
is_digit-digit_char d h = ground (arith, code-digit_char d h)

show_fuel-digits : (f n : ℕ) → AllChars is_digit (show_fuel f n)
unfolding show_fuel
show_fuel-digits zero n = tt
show_fuel-digits (suc f) n = elim (Bool-cases (ltb n 10)) [
  | inl e ↦ rw e (is_digit-digit_char n (ground arith), tt)
  | inr e ↦ rw e (
      AllChars-append is_digit (show_fuel f (n / 10)) (digit_char (n % 10) ∷ [])
        (show_fuel-digits f (n / 10)) (is_digit-digit_char (n % 10) (omega arith), tt))
]

pub show-digits : (n : ℕ) → AllChars is_digit (show n)
unfolding show
show-digits n = show_fuel-digits (suc n) n

next_digits-snoc :
    (f g : ℕ → Option ℕ) (k : ℕ → Option ℕ)
    → ((n : ℕ) → f n ≡ next_digits (g n) k)
    → (o : Option ℕ) → next_digits o f ≡ next_digits (next_digits o g) k
next_digits-snoc f g k h none = refl
next_digits-snoc f g k h (some n) = h n

parse_digits-snoc :
    (bound acc : ℕ) (s : String) (c : Char)
    → parse_digits bound acc (s ++ c ∷ [])
      ≡ next_digits (parse_digits bound acc s) (λ n. push_digit bound n c)
unfolding parse_digits
parse_digits-snoc bound acc [] c = rw nil-append (ground arith)
parse_digits-snoc bound acc (d ∷ s) c = rw cons-append (
    next_digits-snoc (λ n. parse_digits bound n (s ++ c ∷ [])) (λ n. parse_digits bound n s)
      (λ n. push_digit bound n c) (λ n. parse_digits-snoc bound n s c) (push_digit bound acc d))

push_digit-digit_char :
    (bound acc d : ℕ)
    → d < 10
    → acc * 10 + d ≤ bound
    → push_digit bound acc (digit_char d) ≡ some (acc * 10 + d)
push_digit-digit_char bound acc d h le = ground (arith, code-digit_char d h)

parse_digits-show_fuel :
    (bound f n : ℕ) → n < f → n ≤ bound → parse_digits bound 0 (show_fuel f n) ≡ some n
unfolding show_fuel parse_digits
parse_digits-show_fuel bound zero n h le = elim h [ ]
parse_digits-show_fuel bound (suc f) n h le = elim (Bool-cases (ltb n 10)) [
  | inl e ↦ rw e (ground (arith, push_digit-digit_char bound 0 n (ground arith)))
  | inr e ↦
      let ih : parse_digits bound 0 (show_fuel f (n / 10)) ≡ some (n / 10) =
        parse_digits-show_fuel bound f (n / 10) (ground arith) (omega arith) in
      rw e (
        rw (parse_digits-snoc, ih)
          (push_digit-digit_char bound (n / 10) (n % 10) (omega arith) (omega arith)
            ∙ ap some (omega arith)))
]

parse_unsigned-digits :
    (bound : ℕ) (s : String)
    → AllChars is_digit s
    → s ≢ []
    → parse_unsigned bound s ≡ parse_digits bound 0 s
unfolding parse_unsigned
parse_unsigned-digits bound [] h ne = absurd (ne refl)
parse_unsigned-digits bound (c ∷ []) h ne = ground arith
parse_unsigned-digits bound (c ∷ d ∷ s) h ne = ground arith

show_fuel-ne-nil : (f n : ℕ) → show_fuel (suc f) n ≢ []
unfolding show_fuel
show_fuel-ne-nil f n = elim (Bool-cases (ltb n 10)) [
  | inl e ↦ rw e (cons-ne-nil (digit_char n) [])
  | inr e ↦ rw e (concat-ne-nil (digit_char (n % 10)) (show_fuel f (n / 10)))
]

-- A printed number parses to itself, for every type that holds it.
pub parse_unsigned-show : (bound n : ℕ) → n ≤ bound → parse_unsigned bound (show n) ≡ some n
unfolding show
parse_unsigned-show bound n le =
    parse_unsigned-digits bound (show_fuel (suc n) n) (show_fuel-digits (suc n) n)
      (show_fuel-ne-nil n n)
    ∙ parse_digits-show_fuel bound (suc n) n (omega arith) le

-- No character satisfies the test.
abbrev pub NoChars : (Char → Bool) → String → Type 0
NoChars p [] = Unit {0}
NoChars p (c ∷ s) = (p c ≡ false) × NoChars p s

pub digits-no_dot : (s : String) → AllChars is_digit s → NoChars is_dot s
digits-no_dot [] h = tt
digits-no_dot (c ∷ s) h = (ground arith, digits-no_dot s h.1)

module _ (p : Char → Bool) (c : Char) (hit : p c ≡ true) where
  pub take_until-append : (s t : String) → NoChars p s → take_until p (s ++ c ∷ t) ≡ s
  unfolding take_until
  take_until-append [] t h = rw (nil-append, hit)
  take_until-append (d ∷ s) t h = rw (cons-append, h.0) (ap (◌∷◌ d) (take_until-append s t h.1))

  pub drop_past-append : (s t : String) → NoChars p s → drop_past p (s ++ c ∷ t) ≡ some t
  unfolding drop_past
  drop_past-append [] t h = rw (nil-append, hit)
  drop_past-append (d ∷ s) t h = rw (cons-append, h.0) (drop_past-append s t h.1)
