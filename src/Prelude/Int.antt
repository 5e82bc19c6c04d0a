-- ===== src/Prelude/Int.antt =====
-- Signed integers over the native numbers, under the library's names, with the two's complement
-- reading of a 64-bit pattern. Orders go through the two parts of an integer.
use Prim.Native.Nat.{ℕ, suc, ◌+◌, ◌-◌, ◌≤◌, ◌<◌, ◌%◌, ◌^◌}
use mathlib.Core.Path.{◌≡◌}
use mathlib.Core.Bool.{Bool, true}
use native.Mathlib.Omega.{arith}
use plotjuggler_core.Prelude.Tests.{ltb, leb, ◌==◌, if◌then◌else◌}

-- `negsuc n` is -(n + 1).
pub data ℤ : Type 0 where
  pos : ℕ → ℤ
  negsuc : ℕ → ℤ

abbrev pub pos_part : ℤ → ℕ
pos_part (pos n) = n
pos_part (negsuc n) = 0

abbrev pub neg_part : ℤ → ℕ
neg_part (pos n) = 0
neg_part (negsuc n) = suc n

-- a - b, as an integer.
abbrev pub sub_ℕ : ℕ → ℕ → ℤ
sub_ℕ a b = if leb b a then pos (a - b) else negsuc (b - a - 1)

infixl 65 ◌+ℤ◌ ◌-ℤ◌
infix 50 ◌≤ℤ◌ ◌<ℤ◌
unfoldable pub ◌+ℤ◌ : ℤ → ℤ → ℤ
a +ℤ b = sub_ℕ (pos_part a + pos_part b) (neg_part a + neg_part b)

unfoldable pub ◌-ℤ◌ : ℤ → ℤ → ℤ
a -ℤ b = sub_ℕ (pos_part a + neg_part b) (neg_part a + pos_part b)

abbrev pub ◌≤ℤ◌ : ℤ → ℤ → Type 0
a ≤ℤ b = pos_part a + neg_part b ≤ pos_part b + neg_part a

abbrev pub ◌<ℤ◌ : ℤ → ℤ → Type 0
a <ℤ b = pos_part a + neg_part b < pos_part b + neg_part a

abbrev pub ltb_ℤ : ℤ → ℤ → Bool
ltb_ℤ a b = ltb (pos_part a + neg_part b) (pos_part b + neg_part a)

abbrev pub eqb_ℤ : ℤ → ℤ → Bool
eqb_ℤ a b = (pos_part a + neg_part b) == (pos_part b + neg_part a)

pub eqb_ℤ→eq : (a b : ℤ) → eqb_ℤ a b ≡ true → a ≡ b
eqb_ℤ→eq a b h = ground arith

pub -ℤ_parts :
    (a b : ℤ)
    → pos_part (a -ℤ b) + neg_part a + pos_part b ≡ neg_part (a -ℤ b) + pos_part a + neg_part b
unfolding ◌-ℤ◌
-ℤ_parts a b = ground arith

pub +ℤ_parts :
    (a b : ℤ)
    → pos_part (a +ℤ b) + neg_part a + neg_part b ≡ neg_part (a +ℤ b) + pos_part a + pos_part b
unfolding ◌+ℤ◌
+ℤ_parts a b = ground arith

pub eq_of_parts : (a b : ℤ) → pos_part a + neg_part b ≡ pos_part b + neg_part a → a ≡ b
eq_of_parts a b h = ground arith

-- An `int64_t` holds the integers from -2^63 to 2^63 - 1.
abbrev pub IsI64 : ℤ → Type 0
IsI64 a = (negsuc (2 ^ 63 - 1) ≤ℤ a) × (a ≤ℤ pos (2 ^ 63 - 1))

-- The 64-bit pattern of an integer, and the signed reading of a pattern.
unfoldable pub bits_of_ℤ : ℤ → ℕ
bits_of_ℤ (pos n) = n % 2 ^ 64
bits_of_ℤ (negsuc n) = 2 ^ 64 - 1 - n % 2 ^ 64

unfoldable pub i64_of_bits : ℕ → ℤ
i64_of_bits w = if ltb w (2 ^ 63) then pos w else negsuc (2 ^ 64 - 1 - w)

-- Subtraction on `int64_t`, wrapped to 64 bits.
unfoldable pub sub_i64 : ℤ → ℤ → ℤ
unfolding ◌-ℤ◌ bits_of_ℤ i64_of_bits
sub_i64 a b = i64_of_bits (bits_of_ℤ (a -ℤ b))

pub i64_of_bits-bits_of_ℤ : (a : ℤ) → IsI64 a → i64_of_bits (bits_of_ℤ a) ≡ a
unfolding i64_of_bits bits_of_ℤ
i64_of_bits-bits_of_ℤ (pos n) h = ground arith
i64_of_bits-bits_of_ℤ (negsuc n) h = ground arith

-- Where the exact difference is an `int64_t`, the subtraction is exact.
pub sub_i64-exact : (a b : ℤ) → IsI64 (a -ℤ b) → sub_i64 a b ≡ a -ℤ b
unfolding sub_i64
sub_i64-exact a b h = i64_of_bits-bits_of_ℤ (a -ℤ b) h
