-- ===== src/Base/Text.antt =====
-- What the code does with texts: decimal numbers, and parts between separators.
pub mod Decimal
pub mod Letters
use Prim.Native.Nat.{ℕ, zero, suc, ◌+◌, ◌-◌, ◌*◌, ◌/◌, ◌%◌, ◌≤◌, ◌<◌}
use Prim.Native.Char.{Char, code}
use Prim.Native.String.{String, [], ◌∷◌, ◌++◌}
use mathlib.Core.Path.{◌≡◌, refl, sym, ap, ◌∙◌}
use mathlib.Core.Logic.{inl, inr}
use mathlib.Core.Bool.{Bool, true, false, ◌&&◌, ◌||◌}
use mathlib.Core.Option.{Option, none, some}
use native.Mathlib.Omega.{arith}
use text.Mathlib.Text.{◌==◌}
use text.Mathlib.TextEquality.{eq_iff}
use text.Mathlib.TextLemmas.{nil-append, cons-append, append_assoc}
use spwn.Base.Tests.{ltb, leb, eqb, if◌then◌else◌, Bool-cases}
use spwn.Base.Int.{ℤ, pos, negsuc}

-- `format!` and `push_str`: texts one behind the other.
infixr 60 ◌&◌
abbrev pub ◌&◌ : String → String → String
a & b = a ++ b

abbrev pub is_digit : Char → Bool
is_digit c = leb b'0' (code c) && leb (code c) b'9'

-- The decimal digit of a number below ten.
unfoldable pub digit_char : ℕ → Char
digit_char zero = "0"
digit_char (suc zero) = "1"
digit_char (suc (suc zero)) = "2"
digit_char (suc (suc (suc zero))) = "3"
digit_char (suc (suc (suc (suc zero)))) = "4"
digit_char (suc (suc (suc (suc (suc zero))))) = "5"
digit_char (suc (suc (suc (suc (suc (suc zero)))))) = "6"
digit_char (suc (suc (suc (suc (suc (suc (suc zero))))))) = "7"
digit_char (suc (suc (suc (suc (suc (suc (suc (suc zero)))))))) = "8"
digit_char _ = "9"

code-digit_char : (d : ℕ) → d < 10 → code (digit_char d) ≡ 48 + d
unfolding digit_char
code-digit_char zero h = refl
code-digit_char (suc zero) h = refl
code-digit_char (suc (suc zero)) h = refl
code-digit_char (suc (suc (suc zero))) h = refl
code-digit_char (suc (suc (suc (suc zero)))) h = refl
code-digit_char (suc (suc (suc (suc (suc zero))))) h = refl
code-digit_char (suc (suc (suc (suc (suc (suc zero)))))) h = refl
code-digit_char (suc (suc (suc (suc (suc (suc (suc zero))))))) h = refl
code-digit_char (suc (suc (suc (suc (suc (suc (suc (suc zero)))))))) h = refl
code-digit_char (suc (suc (suc (suc (suc (suc (suc (suc (suc d))))))))) h = omega arith

-- `{n}` of a format string. The fuel bounds the digits; `suc n` is enough.
show_fuel : ℕ → ℕ → String
show_fuel zero n = []
show_fuel (suc f) n =
    let rest = show_fuel f (n / 10) in
    if ltb n 10 then digit_char n ∷ [] else rest ++ digit_char (n % 10) ∷ []

unfoldable pub show : ℕ → String
unfolding show_fuel digit_char
show n = show_fuel (suc n) n

-- One digit more, or nothing if the character is no digit or the number would pass the bound.
abbrev pub push_digit : ℕ → ℕ → Char → Option ℕ
push_digit bound acc c =
    if is_digit c && leb (acc * 10 + (code c - 48)) bound
    then some (acc * 10 + (code c - 48))
    else none

abbrev next_digits : Option ℕ → (ℕ → Option ℕ) → Option ℕ
next_digits none f = none
next_digits (some n) f = f n

parse_digits : ℕ → ℕ → String → Option ℕ
parse_digits bound acc [] = some acc
parse_digits bound acc (c ∷ s) = next_digits (push_digit bound acc c) (λ n. parse_digits bound n s)

-- Digits only, at least one, a leading `+` allowed; the bound is the type's largest value.
unfoldable pub parse_unsigned : ℕ → String → Option ℕ
unfolding parse_digits
parse_unsigned bound [] = none
parse_unsigned bound (c ∷ []) = push_digit bound 0 c
parse_unsigned bound (c ∷ d ∷ s) =
    if eqb (code c) b'+' then parse_digits bound 0 (d ∷ s) else parse_digits bound 0 (c ∷ d ∷ s)

-- str::parse::<u32>
abbrev pub parse_u32 : String → Option ℕ
parse_u32 = parse_unsigned 4294967295

-- The part before the first character that satisfies the test.
unfoldable pub take_until : (Char → Bool) → String → String
take_until p [] = []
take_until p (c ∷ s) = if p c then [] else c ∷ take_until p s

-- The part behind the first character that satisfies the test, if there is one.
unfoldable pub drop_past : (Char → Bool) → String → Option String
drop_past p [] = none
drop_past p (c ∷ s) = if p c then some s else drop_past p s

abbrev pub is_dot : Char → Bool
is_dot c = eqb (code c) b'.'

unfoldable pub show_ℤ : ℤ → String
show_ℤ (pos n) = show n
show_ℤ (negsuc n) = "-" ++ show (suc n)

-- str::strip_prefix
unfoldable pub strip_prefix : String → String → Option String
strip_prefix [] s = some s
strip_prefix (c ∷ p) [] = none
strip_prefix (c ∷ p) (d ∷ s) = if eqb (code c) (code d) then strip_prefix p s else none

abbrev behind : Char → Option String → Option String
behind c none = none
behind c (some s) = some (c ∷ s)

-- str::strip_suffix: the part before the suffix, when the text ends in it.
unfoldable pub strip_suffix : String → String → Option String
strip_suffix suffix [] = if suffix == [] then some [] else none
strip_suffix suffix (c ∷ s) = if suffix == c ∷ s then some [] else behind c (strip_suffix suffix s)

behind-eq :
    (c : Char) (o : Option String) (t : String)
    → behind c o ≡ some t
    → (u : String) × (o ≡ some u) × (t ≡ c ∷ u)
behind-eq c none t e = cc
behind-eq c (some u) t e = (u, refl, cc)

-- What is left of the text, with the suffix behind it, is the text.
pub strip_suffix-eq : (s suffix t : String) → strip_suffix suffix s ≡ some t → s ≡ t & suffix
unfolding strip_suffix
strip_suffix-eq [] suffix t e = elim (Bool-cases (suffix == [])) [
  | inl same ↦
      let empty_t : [] ≡ t = cc (rw same at e) in
      rw (← empty_t) (sym ((eq_iff suffix []).0 same) ∙ sym (nil-append suffix))
  | inr other ↦ cc (rw other at e)
]
strip_suffix-eq (c ∷ s) suffix t e = elim (Bool-cases (suffix == c ∷ s)) [
  | inl same ↦
      let empty_t : [] ≡ t = cc (rw same at e) in
      rw (← empty_t) (sym ((eq_iff suffix (c ∷ s)).0 same) ∙ sym (nil-append suffix))
  | inr other ↦
      let (u, e2, e3) = behind-eq c (strip_suffix suffix s) t (rw other at e) in
      rw e3 (ap (λ r. c ∷ r) (strip_suffix-eq s suffix u e2) ∙ sym (cons-append c u suffix))
]

eqb_self : (n : ℕ) → eqb n n ≡ true
eqb_self n = ground arith

pub strip_prefix-append : (p s : String) → strip_prefix p (p & s) ≡ some s
unfolding strip_prefix
strip_prefix-append [] s = ap some (nil-append s)
strip_prefix-append (c ∷ p) s =
    rw (cons-append c p s) (rw (eqb_self (code c)) (strip_prefix-append p s))

-- str::split_once(':') and the like: the parts before and behind the first such character.
unfoldable pub split_once : (Char → Bool) → String → Option (String × String)
unfolding take_until drop_past
split_once p s = elim (drop_past p s) [ none ↦ none | some rest ↦ some (take_until p s, rest) ]

abbrev is_some : Option String → Bool
is_some none = false
is_some (some s) = true

-- str::contains
unfoldable pub contains : String → String → Bool
unfolding strip_prefix
contains part [] = part == []
contains part (c ∷ s) = is_some (strip_prefix part (c ∷ s)) || contains part s
