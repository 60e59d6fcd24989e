-- ===== src/ControlPlane/Scheduler/Slots.antt =====
-- A slot number and the address text that stores it.
use Prim.Native.String.{◌++◌, ◌∷◌}
use Prim.Native.Char.{Char}
use spwn.Base.{ℕ, ◌≤◌, String, ◌≡◌, refl, ◌∙◌, ap, some}
use spwn.Base.Text.{show, is_dot}
use spwn.Base.Text.Decimal.{
  show-digits, digits-no_dot, take_until-append, drop_past-append, parse_unsigned-show,
}
use text.Mathlib.TextLemmas.{nil-append, cons-append, append_assoc}
use spwn.ControlPlane.Scheduler.{slot_of, slot_address}

abbrev dot : Char
dot = "."

dot-append : (s : String) → "." ++ s ≡ dot ∷ s
dot-append s = cons-append dot "" s ∙ ap (◌∷◌ dot) (nil-append s)

slot_address_lem : (n : ℕ) → slot_address n ≡ "172" ++ dot ∷ ("16" ++ dot ∷ (show n ++ dot ∷ "2"))
unfolding slot_address
slot_address_lem n =
    append_assoc "172" ".16." (show n ++ ".2")
    ∙ ap (◌++◌ "172") (
        append_assoc "." "16." (show n ++ ".2")
        ∙ dot-append ("16." ++ (show n ++ ".2"))
        ∙ ap (◌∷◌ dot)
            (append_assoc "16" "." (show n ++ ".2") ∙ ap (◌++◌ "16") (dot-append (show n ++ ".2"))))

-- The slot is read back from the address that a VM of the slot gets.
pub slot_of-slot_address : (n : ℕ) → n ≤ 4294967295 → slot_of (slot_address n) ≡ some n
unfolding slot_of
slot_of-slot_address n h = rw (slot_address_lem n) (
    rw
      (
        drop_past-append is_dot dot refl "172" ("16" ++ dot ∷ (show n ++ dot ∷ "2"))
            (refl, (refl, (refl, tt))),
        drop_past-append is_dot dot refl "16" (show n ++ dot ∷ "2") (refl, (refl, tt)),
        take_until-append is_dot dot refl (show n) "2" (digits-no_dot (show n) (show-digits n)),
      )
      (parse_unsigned-show 4294967295 n h))
