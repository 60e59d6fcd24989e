-- ===== src/Tests/SubdomainRuns.antt =====
-- Subdomains at concrete states.
use Prim.Native.Char.{Char}
use spwn.Base.{ℕ, ◌<◌, ◌≡◌, refl, String, true, false, [], ◌∷◌, find}
use spwn.Db.Rows.{VmRow, stopped}
use spwn.World.{World, query, ◌>>=◌, result, ok, err, message}
use spwn.ControlPlane.Subdomain.{
  generate, try_suffixes, is_free, is_available, slugify, random_suffix, split, onto, join, hyphen,
  hyphenated,
}
use spwn.ControlPlane.Subdomain.Free.{candidate, generate-is_free, generate-err}
use spwn.Base.Text.Letters.{is_ascii_alphanumeric, to_lowercase, lower}
use spwn.Tests.Sample.{vm_row, db_with, world_with}

abbrev always_a : ℕ → Char
always_a n = "a"

slug_of_words : slugify "My Cool VM!" ≡ "my-cool-vm"
unfolding hyphen hyphenated is_ascii_alphanumeric join lower onto slugify split to_lowercase
slug_of_words = refl

slug_between_hyphens : slugify "--hello--" ≡ "hello"
unfolding hyphen hyphenated is_ascii_alphanumeric join lower onto slugify split to_lowercase
slug_between_hyphens = refl

abbrev taken_row : String → VmRow
taken_row subdomain = record (vm_row subdomain stopped) { subdomain = subdomain }

abbrev one_taken : World
one_taken = world_with (db_with (taken_row "web" ∷ []))

abbrev all_taken : World
all_taken = world_with (db_with (taken_row "web" ∷ taken_row "web-aaa" ∷ []))

generated : result (generate always_a "Web") one_taken ≡ ok "web-aaa"
unfolding find generate hyphen hyphenated is_ascii_alphanumeric is_available is_free join lower onto
    query random_suffix slugify split to_lowercase try_suffixes ◌>>=◌
generated = refl

generate-is_free_example : is_free "web-aaa" one_taken.db ≡ true
generate-is_free_example = generate-is_free always_a "Web" one_taken "web-aaa" generated

not_generated :
    result (generate always_a "Web") all_taken
    ≡ err (message "could not generate unique subdomain for 'Web' after 20 attempts")
unfolding find generate hyphen hyphenated is_ascii_alphanumeric is_available is_free join lower onto
    query random_suffix slugify split to_lowercase try_suffixes ◌>>=◌
not_generated = refl

generate-err_example :
    (is_free (slugify "Web") all_taken.db ≡ false)
    × ((m : ℕ) → m < 20 → is_free (candidate always_a (slugify "Web") m) all_taken.db ≡ false)
generate-err_example =
    generate-err always_a "Web" all_taken
      (message "could not generate unique subdomain for 'Web' after 20 attempts") refl not_generated
