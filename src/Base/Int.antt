-- ===== src/Base/Int.antt =====
-- Signed integers (the source's i64 and i32), and the wrap-around of a 32-bit result.
use Prim.Native.Nat.{ℕ, suc, ◌+◌, ◌-◌, ◌*◌, ◌/◌, ◌%◌, ◌≤◌, ◌<◌}
use mathlib.Core.Path.{◌≡◌}
use mathlib.Core.Bool.{Bool, true, false, ◌&&◌}
use native.Mathlib.Omega.{arith}
use spwn.Base.Tests.{ltb, leb, if◌then◌else◌}

-- `negsuc n` is -(n + 1).
pub data ℤ : Type 0 where
  pos : ℕ → ℤ
  negsuc : ℕ → ℤ

abbrev pub pos_part : ℤ → ℕ
pos_part (pos n) = n
pos_part (negsuc n) = 0

abbrev pub neg_part : ℤ → ℕ
neg_part (pos n) = 0
neg_part (negsuc n) = suc n

-- a - b, as an integer.
abbrev pub sub_ℕ : ℕ → ℕ → ℤ
sub_ℕ a b = if leb b a then pos (a - b) else negsuc (b - a - 1)

infixl 65 ◌+ℤ◌ ◌-ℤ◌
infix 50 ◌≤ℤ◌ ◌<ℤ◌
unfoldable pub ◌+ℤ◌ : ℤ → ℤ → ℤ
a +ℤ b = sub_ℕ (pos_part a + pos_part b) (neg_part a + neg_part b)

unfoldable pub ◌-ℤ◌ : ℤ → ℤ → ℤ
a -ℤ b = sub_ℕ (pos_part a + neg_part b) (neg_part a + pos_part b)

abbrev pub negate_ℤ : ℤ → ℤ
negate_ℤ a = sub_ℕ (neg_part a) (pos_part a)

abbrev pub ◌≤ℤ◌ : ℤ → ℤ → Type 0
a ≤ℤ b = pos_part a + neg_part b ≤ pos_part b + neg_part a

abbrev pub ◌<ℤ◌ : ℤ → ℤ → Type 0
a <ℤ b = pos_part a + neg_part b < pos_part b + neg_part a

abbrev pub ltb_ℤ : ℤ → ℤ → Bool
ltb_ℤ a b = ltb (pos_part a + neg_part b) (pos_part b + neg_part a)

abbrev pub leb_ℤ : ℤ → ℤ → Bool
leb_ℤ a b = leb (pos_part a + neg_part b) (pos_part b + neg_part a)

pub ltb→<ℤ : (a b : ℤ) → ltb_ℤ a b ≡ true → a <ℤ b
ltb→<ℤ a b h = ground arith

pub ltb→≤ℤ : (a b : ℤ) → ltb_ℤ a b ≡ false → b ≤ℤ a
ltb→≤ℤ a b h = ground arith

pub +ℤ_parts :
    (a b : ℤ)
    → pos_part (a +ℤ b) + neg_part a + neg_part b ≡ neg_part (a +ℤ b) + pos_part a + pos_part b
unfolding ◌+ℤ◌
+ℤ_parts a b = ground arith

pub -ℤ_parts :
    (a b : ℤ)
    → pos_part (a -ℤ b) + neg_part a + pos_part b ≡ neg_part (a -ℤ b) + pos_part a + neg_part b
unfolding ◌-ℤ◌
-ℤ_parts a b = ground arith

pub eq_of_parts : (a b : ℤ) → pos_part a + neg_part b ≡ pos_part b + neg_part a → a ≡ b
eq_of_parts a b h = ground arith

pub ruleset int_laws = (arith, +ℤ_parts, -ℤ_parts, eq_of_parts)

abbrev pub i32_half : ℕ
i32_half = 2147483648

abbrev pub i32_span : ℕ
i32_span = 4294967296

-- The number that the 32 low bits of `n` stand for in two's complement.
abbrev pub signed_i32 : ℕ → ℤ
signed_i32 n = if ltb n i32_half then pos n else negsuc (i32_span - n - 1)

-- An i32 result in a release build: arithmetic wraps.
unfoldable pub wrap_i32 : ℤ → ℤ
wrap_i32 (pos n) = signed_i32 (n % i32_span)
wrap_i32 (negsuc n) = signed_i32 (i32_span - 1 - n % i32_span)

-- A value in the range of i32.
abbrev pub IsI32 : ℤ → Type 0
IsI32 a = (pos_part a < i32_half) × (neg_part a ≤ i32_half)

pub wrap_i32_in_range : (a : ℤ) → IsI32 a → wrap_i32 a ≡ a
unfolding wrap_i32
wrap_i32_in_range (pos n) h = ground arith
wrap_i32_in_range (negsuc n) h = ground arith

pub wrap_i32-IsI32 : (a : ℤ) → IsI32 (wrap_i32 a)
unfolding wrap_i32
wrap_i32-IsI32 (pos n) = ground arith
wrap_i32-IsI32 (negsuc n) = ground arith

abbrev pub fits_i32 : ℤ → Bool
fits_i32 a = ltb (pos_part a) i32_half && leb (neg_part a) i32_half

abbrev pub i64_half : ℕ
i64_half = 9223372036854775808

abbrev pub u64_span : ℕ
u64_span = 18446744073709551616

abbrev pub signed_i64 : ℕ → ℤ
signed_i64 n = if ltb n i64_half then pos n else negsuc (u64_span - n - 1)

-- An i64 result in a release build.
unfoldable pub wrap_i64 : ℤ → ℤ
wrap_i64 (pos n) = signed_i64 (n % u64_span)
wrap_i64 (negsuc n) = signed_i64 (u64_span - 1 - n % u64_span)

abbrev pub IsI64 : ℤ → Type 0
IsI64 a = (pos_part a < i64_half) × (neg_part a ≤ i64_half)

pub wrap_i64_in_range : (a : ℤ) → IsI64 a → wrap_i64 a ≡ a
unfolding wrap_i64
wrap_i64_in_range (pos n) h = ground arith
wrap_i64_in_range (negsuc n) h = ground arith

abbrev pub fits_i64 : ℤ → Bool
fits_i64 a = ltb (pos_part a) i64_half && leb (neg_part a) i64_half

-- Division by a positive number, rounded toward zero.
unfoldable pub div_ℤ : ℤ → ℕ → ℤ
div_ℤ (pos n) d = pos (n / d)
div_ℤ (negsuc n) d = negate_ℤ (pos (suc n / d))

unfoldable pub mul_ℤ : ℤ → ℕ → ℤ
mul_ℤ (pos n) d = pos (n * d)
mul_ℤ (negsuc n) d = negate_ℤ (pos (suc n * d))

abbrev pub max_ℤ : ℤ → ℤ → ℤ
max_ℤ a b = if ltb_ℤ a b then b else a

abbrev pub min_ℤ : ℤ → ℤ → ℤ
min_ℤ a b = if ltb_ℤ b a then b else a

-- Ord::clamp
abbrev pub clamp : ℤ → ℤ → ℤ → ℤ
clamp a low high = if ltb_ℤ a low then low else if ltb_ℤ high a then high else a

-- `as u32` on an i32 and `as u16`: the low bits
unfoldable pub low_bits : ℕ → ℤ → ℕ
low_bits span (pos n) = n % span
low_bits span (negsuc n) = span - 1 - n % span
