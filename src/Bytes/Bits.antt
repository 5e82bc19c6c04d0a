-- ===== src/Bytes/Bits.antt =====
-- The bits of a byte: setting, clearing and testing one, each law checked over all bytes.
use Prim.Native.Nat.{bit_and, bit_or}
use plotjuggler_core.Prelude.{
  ℕ, zero, suc, ◌+◌, ◌-◌, ◌/◌, ◌%◌, ◌^◌, ◌<◌, ◌≡◌, refl, Bool, true, false, not, ◌&&◌, arith, ◌==◌,
  ltb, if◌then◌else◌,
}

-- `byte | (1u << k)`, `byte & ~(1u << k)` and `(byte & (1u << k)) != 0`.
unfoldable pub bit_on : ℕ → ℕ → ℕ
bit_on b k = bit_or b (2 ^ k) % 256

unfoldable pub bit_off : ℕ → ℕ → ℕ
bit_off b k = bit_and b (255 - 2 ^ k)

unfoldable pub bit_test : ℕ → ℕ → Bool
bit_test b k = not (bit_and b (2 ^ k) == 0)

-- Whether a test passes at every number under a bound, by running it.
passes : (ℕ → Bool) → ℕ → Bool
passes test zero = true
passes test (suc bound) = if test bound then passes test bound else false

passes-at :
    (test : ℕ → Bool) (bound at : ℕ) → at < bound → passes test bound ≡ true → test at ≡ true
unfolding passes
passes-at test zero at under passed = absurd (omega arith)
passes-at test (suc bound) at under passed = ground (arith, passes-at test bound at)

abbrev agree : Bool → Bool → Bool
agree true b = b
agree false b = not b

agree→eq : (a b : Bool) → agree a b ≡ true → a ≡ b
agree→eq true b h = ground arith
agree→eq false b h = ground arith

abbrev all_bits : (ℕ → ℕ → ℕ → Bool) → Bool
all_bits p = passes (λ b. passes (λ k. passes (λ j. p b k j) 8) 8) 256

all_bits-at :
    (p : ℕ → ℕ → ℕ → Bool) (b k j : ℕ)
    → all_bits p ≡ true
    → b < 256
    → k < 8
    → j < 8
    → p b k j ≡ true
all_bits-at p b k j h hb hk hj = passes-at _ 8 j hj (passes-at _ 8 k hk (passes-at _ 256 b hb h))

on_table :
    all_bits (λ b k j. agree (bit_test (bit_on b k) j) (if k == j then true else bit_test b j))
    ≡ true
unfolding passes bit_on bit_test
on_table = refl

off_table :
    all_bits (λ b k j. agree (bit_test (bit_off b k) j) (if k == j then false else bit_test b j))
    ≡ true
unfolding passes bit_off bit_test
off_table = refl

byte_table : all_bits (λ b k j. ltb (bit_on b k) 256 && ltb (bit_off b k) 256) ≡ true
unfolding passes bit_off bit_on
byte_table = refl

-- Setting a bit sets that bit and no other.
pub bit_test-bit_on :
    (b k j : ℕ)
    → b < 256
    → k < 8
    → j < 8
    → bit_test (bit_on b k) j ≡ (if k == j then true else bit_test b j)
bit_test-bit_on b k j hb hk hj = agree→eq _ _ (all_bits-at _ b k j on_table hb hk hj)

-- Clearing a bit clears that bit and no other.
pub bit_test-bit_off :
    (b k j : ℕ)
    → b < 256
    → k < 8
    → j < 8
    → bit_test (bit_off b k) j ≡ (if k == j then false else bit_test b j)
bit_test-bit_off b k j hb hk hj = agree→eq _ _ (all_bits-at _ b k j off_table hb hk hj)

pub bit_test-zero : (k : ℕ) → k < 8 → bit_test 0 k ≡ false
unfolding passes bit_test
bit_test-zero k h = ground (arith, passes-at (λ j. not (bit_test 0 j)) 8 k h refl)

pub bit_on-lt : (b k : ℕ) → b < 256 → k < 8 → (bit_on b k < 256) × (bit_off b k < 256)
bit_on-lt b k hb hk = ground (arith, all_bits-at _ b k 0 byte_table hb hk)

-- How many of the `r` low bits are set.
abbrev pub ones_below : ℕ → ℕ → ℕ
ones_below zero b = 0
ones_below (suc r) b = (if bit_test b r then 1 else 0) + ones_below r b

-- `std::popcount` of a byte, by the usual halving: the sum of its binary digits.
unfoldable pub popcount_digits : ℕ → ℕ → ℕ
popcount_digits zero b = 0
popcount_digits (suc n) b = b % 2 + popcount_digits n (b / 2)

unfoldable pub popcount : ℕ → ℕ
unfolding popcount_digits
popcount b = popcount_digits 8 b

-- `byte & ((1u << r) - 1)`.
unfoldable pub low_mask : ℕ → ℕ → ℕ
low_mask b r = bit_and b (2 ^ r - 1)

popcount_table :
    all_bits
      (λ b k j. (popcount b == ones_below 8 b) && (popcount (low_mask b k) == ones_below k b))
    ≡ true
unfolding passes bit_test popcount low_mask
popcount_table = refl

pub popcount-ones_below :
    (b r : ℕ)
    → b < 256
    → r < 8
    → (popcount b ≡ ones_below 8 b) × (popcount (low_mask b r) ≡ ones_below r b)
popcount-ones_below b r hb hr = ground (arith, all_bits-at _ b r 0 popcount_table hb hr)
