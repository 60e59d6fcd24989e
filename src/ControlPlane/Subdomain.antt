-- ===== src/ControlPlane/Subdomain.antt =====
-- control-plane/src/subdomain.rs: the subdomain of a new VM.
pub mod Free
use Prim.Native.Char.{Char, code}
use Prim.Native.String.{[], ◌∷◌, ◌++◌}
use spwn.Base.{
  ℕ, zero, suc, ◌+◌, ◌*◌, ◌-◌, Bool, true, false, ◌&&◌, ◌||◌, ◌==◌, ◌≡◌, refl, find, String, List,
  [], ◌∷◌, if◌then◌else◌, eqb, leb, Option, some, none,
}
use spwn.Base.Text.Letters.{is_ascii_alphanumeric, to_lowercase}
use spwn.Db.Rows.{Db, VmRow}
use spwn.Db.Vms.{is_none}
use spwn.World.{Exec, pure, fail, message, query, ◌>>=◌}

unfoldable pub hyphenated : String → String
hyphenated [] = []
hyphenated (c ∷ s) = (if is_ascii_alphanumeric c then c else "-") ∷ hyphenated s

-- A part one character longer, in front of the others.
unfoldable pub onto : Char → List String → List String
onto c [] = (c ∷ []) ∷ []
onto c (part ∷ parts) = (c ∷ part) ∷ parts

-- split('-')
unfoldable pub split : String → List String
split [] = [] ∷ []
split (c ∷ s) = let rest = split s in if eqb (code c) b'-' then [] ∷ rest else onto c rest

-- A part, and the others behind a hyphen if there are any.
unfoldable pub hyphen : String → String → String
hyphen part [] = part
hyphen part (c ∷ s) = part ++ "-" ++ c ∷ s

-- The parts that are not empty, with a hyphen between two.
unfoldable pub join : List String → String
join [] = []
join ([] ∷ parts) = join parts
join ((c ∷ part) ∷ parts) = hyphen (c ∷ part) (join parts)

unfoldable pub slugify : String → String
slugify name = join (split (hyphenated (to_lowercase name)))

-- The three letters of a suffix; `draw n` is the letter that the random generator's n-th call
-- gives.
unfoldable pub random_suffix : (ℕ → Char) → ℕ → String
random_suffix draw n = draw (3 * n) ∷ draw (3 * n + 1) ∷ draw (3 * n + 2) ∷ []

-- No row has the subdomain.
unfoldable pub is_free : String → Db → Bool
is_free subdomain d = is_none (find (λ v. VmRow.subdomain v == subdomain) d.vms)

unfoldable pub is_available : String → Exec Bool
is_available subdomain = query (is_free subdomain)

-- The loop over the suffixes, of which `n` have been tried.
unfoldable pub try_suffixes : (ℕ → Char) → String → String → ℕ → ℕ → Exec String
try_suffixes draw vm_name base n zero =
    fail (message ("could not generate unique subdomain for '" ++ vm_name ++ "' after 20 attempts"))
try_suffixes draw vm_name base n (suc rounds) =
    let rest = try_suffixes draw vm_name base (suc n) rounds in
    let candidate = base ++ "-" ++ random_suffix draw n in
    do available ← is_available candidate; if available then pure candidate else rest

unfoldable pub generate : (ℕ → Char) → String → Exec String
generate draw vm_name = do
  available ← is_available (slugify vm_name)
  if available then pure (slugify vm_name) else try_suffixes draw vm_name (slugify vm_name) 0 20
