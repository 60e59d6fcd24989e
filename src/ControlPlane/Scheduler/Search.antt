-- ===== src/ControlPlane/Scheduler/Search.antt =====
-- The slot search: it returns a slot that no VM of the host has, whenever one is left.
use spwn.Base.{
  ℕ, zero, suc, ◌+◌, ◌≤◌, ◌<◌, String, ◌≡◌, ◌≢◌, refl, sym, ◌∙◌, ap, inl, inr, true, false, some,
  List, [], ◌∷◌, length, All, any, eqb, ltb, arith, Bool-cases, Option-cases, if◌then◌else◌,
}
use mathlib.Core.Option.{some-injective}
use spwn.ControlPlane.Scheduler.{
  slot_of, used_slots, first_free, pool_size, next_free_slot, slot_address,
}
use spwn.ControlPlane.Scheduler.Slots.{slot_of-slot_address}

-- How many of the slots are at least `n`.
abbrev at_least : ℕ → List ℕ → ℕ
at_least n [] = 0
at_least n (m ∷ ms) = if ltb m n then at_least n ms else suc (at_least n ms)

at_least-le : (n : ℕ) (used : List ℕ) → at_least (suc n) used ≤ at_least n used
at_least-le n [] = omega arith
at_least-le n (m ∷ ms) = ground (arith, at_least-le n ms)

at_least-next :
    (n : ℕ) (used : List ℕ)
    → any (eqb n) used ≡ true
    → suc (at_least (suc n) used) ≤ at_least n used
unfolding any
at_least-next n [] h = ground arith
at_least-next n (m ∷ ms) h = elim (Bool-cases (eqb n m)) [
  | inl e ↦ ground (arith, at_least-le n ms)
  | inr e ↦ ground (arith, at_least-next n ms (ground arith))
]

-- The slot found is in the range searched and is not used.
first_free_sound :
    (rounds n : ℕ) (used : List ℕ) (slot : ℕ)
    → first_free rounds n used ≡ some slot
    → (n ≤ slot) × (slot < n + rounds) × (any (eqb slot) used ≡ false)
unfolding first_free
first_free_sound zero n used slot h = ground arith
first_free_sound (suc rounds) n used slot h = elim (Bool-cases (any (eqb n) used)) [
  | inl e ↦
      let (a, b, c) = first_free_sound rounds (n + 1) used slot (rw e at h) in
      (omega arith, omega arith, c)
  | inr e ↦ ground arith
]

-- With more rounds than used slots from `n` on, one is found.
first_free_total :
    (rounds n : ℕ) (used : List ℕ)
    → at_least n used < rounds
    → (slot : ℕ) × (first_free rounds n used ≡ some slot)
unfolding first_free
first_free_total zero n used h = ground arith
first_free_total (suc rounds) n used h = elim (Bool-cases (any (eqb n) used)) [
  | inl e ↦ rw e (first_free_total rounds (n + 1) used (ground (arith, at_least-next n used e)))
  | inr e ↦ rw e (n, refl)
]

at_least-length : (n : ℕ) (used : List ℕ) → at_least n used ≤ length used
at_least-length n [] = omega arith
at_least-length n (m ∷ ms) = ground (arith, at_least-length n ms)

length-used_slots : (ips : List String) → length (used_slots ips) ≤ length ips
unfolding used_slots
length-used_slots [] = omega arith
length-used_slots (ip ∷ ips) = elim (Option-cases (slot_of ip)) [
  | inl e ↦ rw e (ground (arith, length-used_slots ips))
  | inr (m, e) ↦ rw e (ground (arith, length-used_slots ips))
]

add_slot-free :
    (slot m : ℕ) (slots : List ℕ)
    → any (eqb slot) (m ∷ slots) ≡ false
    → (m ≢ slot) × (any (eqb slot) slots ≡ false)
unfolding any
add_slot-free slot m slots h = ((λ same. ground arith), ground arith)

-- An address of the list whose slot is `slot` makes that slot used.
used_is_taken :
    (slot : ℕ)
    → slot ≤ 4294967295
    → (ips : List String) → any (eqb slot) (used_slots ips) ≡ false
    → All (λ ip. ip ≢ slot_address slot) ips
unfolding used_slots
used_is_taken slot le [] h = tt
used_is_taken slot le (ip ∷ ips) h = elim (Option-cases (slot_of ip)) [
  | inl e ↦ (
    (λ same. cc (e, ap slot_of same, slot_of-slot_address slot le)),
    used_is_taken slot le ips (rw e at h),
  )
  | inr (m, e) ↦
      let (other, rest) = add_slot-free slot m (used_slots ips) (rw e at h) in
      (
        (λ same.
            other (some-injective m slot (sym e ∙ ap slot_of same ∙ slot_of-slot_address slot le))),
        used_is_taken slot le ips rest,
      )
]

-- A slot that is found is one of 1 to 65534, and no VM of the host has its address.
pub next_free_slot_fresh :
    (ips : List String) (slot : ℕ)
    → next_free_slot ips ≡ some slot
    → (1 ≤ slot) × (slot ≤ 65534) × All (λ ip. ip ≢ slot_address slot) ips
unfolding next_free_slot
next_free_slot_fresh ips slot h =
    let (low, high, free) = first_free_sound pool_size 1 (used_slots ips) slot h in
    (low, omega arith, used_is_taken slot (omega arith) ips free)

-- A host with fewer than 65534 VMs has a free slot, so that the panic is not reached.
pub next_free_slot_total :
    (ips : List String) → length ips < 65534 → (slot : ℕ) × (next_free_slot ips ≡ some slot)
unfolding next_free_slot
next_free_slot_total ips h =
    first_free_total pool_size 1 (used_slots ips)
      (omega (arith, at_least-length 1 (used_slots ips), length-used_slots ips))
