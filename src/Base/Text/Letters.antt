-- ===== src/Base/Text/Letters.antt =====
-- Letters and their case.
use Prim.Native.Char.{Char, code}
use Prim.Native.String.{String, [], ◌∷◌, ◌++◌}
use Prim.Native.Nat.{ℕ, zero, suc, ◌-◌}
use mathlib.Core.Bool.{Bool, ◌&&◌, ◌||◌}
use mathlib.Core.List.{List, [], ◌∷◌}
use spwn.Base.Tests.{leb, eqb, if◌then◌else◌}

-- The letter at a place of a text.
letter_at : ℕ → String → Char → Char
letter_at n [] c = c
letter_at zero (d ∷ s) c = d
letter_at (suc n) (d ∷ s) c = letter_at n s c

-- char::to_lowercase. Beyond ASCII only the Kelvin sign and the dotted capital I have an ASCII
-- letter in their lower case. Every other such character stands for its lower case, which is beyond
-- ASCII too: the callers replace or refuse both.
unfoldable pub lower : Char → String
unfolding letter_at
lower c =
    if leb b'A' (code c) && leb (code c) b'Z'
    then letter_at (code c - b'A') "abcdefghijklmnopqrstuvwxyz" c ∷ []
    else if eqb (code c) 8490
    then "k"
    else if eqb (code c) 304
    then "i̇"
    else c ∷ []

unfoldable pub is_ascii_alphanumeric : Char → Bool
is_ascii_alphanumeric c =
    (leb b'0' (code c) && leb (code c) b'9')
    || (leb b'A' (code c) && leb (code c) b'Z')
    || (leb b'a' (code c) && leb (code c) b'z')

unfoldable pub to_lowercase : String → String
to_lowercase [] = []
to_lowercase (c ∷ s) = lower c ++ to_lowercase s

-- char::is_whitespace
unfoldable pub is_whitespace : Char → Bool
is_whitespace c =
    (leb 9 (code c) && leb (code c) 13)
    || eqb (code c) 32
    || eqb (code c) 133
    || eqb (code c) 160
    || eqb (code c) 5760
    || (leb 8192 (code c) && leb (code c) 8202)
    || (leb 8232 (code c) && leb (code c) 8233)
    || eqb (code c) 8239
    || eqb (code c) 8287
    || eqb (code c) 12288

-- A word one character longer, in front of the others.
abbrev longer : Char → List String → List String
longer c [] = (c ∷ []) ∷ []
longer c (w ∷ ws) = (c ∷ w) ∷ ws

-- The parts between separators; two separators side by side have the empty text between them.
unfoldable pub split_on : (Char → Bool) → String → List String
split_on p [] = [] ∷ []
split_on p (c ∷ s) = let rest = split_on p s in if p c then [] ∷ rest else longer c rest

abbrev without_empty : List String → List String
without_empty [] = []
without_empty ([] ∷ ws) = without_empty ws
without_empty ((c ∷ w) ∷ ws) = (c ∷ w) ∷ without_empty ws

-- str::split_whitespace
unfoldable pub split_whitespace : String → List String
unfolding split_on is_whitespace
split_whitespace s = without_empty (split_on is_whitespace s)

-- str::trim_start
unfoldable pub trim_start : String → String
unfolding is_whitespace
trim_start [] = []
trim_start (c ∷ s) = if is_whitespace c then trim_start s else c ∷ s

abbrev kept_if : (Char → Bool) → Char → String → String
kept_if p c [] = if p c then [] else c ∷ []
kept_if p c (d ∷ s) = c ∷ d ∷ s

-- The text without what stands behind its last character that fails the test.
unfoldable pub trim_end_by : (Char → Bool) → String → String
trim_end_by p [] = []
trim_end_by p (c ∷ s) = kept_if p c (trim_end_by p s)

-- str::trim
unfoldable pub trim : String → String
unfolding trim_start trim_end_by
trim s = trim_end_by is_whitespace (trim_start s)
