-- ===== src/Auth/Username.antt =====
-- auth/src/lib.rs: validate_username.
use Prim.Native.Char.{Char, code}
use Prim.Native.String.{[], ◌∷◌, len}
use spwn.Base.{String, Bool, true, ◌&&◌, ◌||◌, Option, none, some, eqb, ltb, if◌then◌else◌}
use spwn.Base.Text.Letters.{is_ascii_alphanumeric}

-- chars().all(…)
unfoldable pub all_chars : (Char → Bool) → String → Bool
all_chars p [] = true
all_chars p (c ∷ s) = p c && all_chars p s

abbrev pub allowed_char : Char → Bool
allowed_char c = is_ascii_alphanumeric c || eqb (code c) b'-'

-- The message of the error, or none.
unfoldable pub validate_username : String → Option String
validate_username username =
    if ltb (len username) 3
    then some "username must be at least 3 characters"
    else if ltb 32 (len username)
    then some "username must be at most 32 characters"
    else if all_chars allowed_char username
    then none
    else some "username may only contain letters, numbers, and hyphens"
