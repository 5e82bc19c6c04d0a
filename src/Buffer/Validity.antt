-- ===== src/Buffer/Validity.antt =====
-- Marking one row changes the validity of that row only, and growing the bitmap changes none.
use plotjuggler_core.Prelude.{
  ℕ, zero, suc, ◌/◌, ◌%◌, ◌<◌, ◌≡◌, ◌∙◌, true, false, List, [], ◌∷◌, length, get_or, set, All, ◌==◌,
  if◌then◌else◌, arith,
}
use plotjuggler_core.Bytes.{bit_on, bit_off, bit_test-bit_on, bit_test-bit_off, bit_on-lt}
use plotjuggler_core.Buffer.{BitVector, set_valid, set_null, is_valid}

abbrev pub IsBytes : List ℕ → Type 0
IsBytes = All (λ b. b < 256)

pub get_or-lt : (bytes : List ℕ) (i : ℕ) → IsBytes bytes → get_or bytes i 0 < 256
get_or-lt [] i h = omega arith
get_or-lt (b ∷ bs) zero h = h.0
get_or-lt (b ∷ bs) (suc i) h = get_or-lt bs i h.1

set-IsBytes : (bytes : List ℕ) (i v : ℕ) → IsBytes bytes → v < 256 → IsBytes (set bytes i v)
set-IsBytes [] i v h hv = tt
set-IsBytes (b ∷ bs) zero v h hv = (hv, h.1)
set-IsBytes (b ∷ bs) (suc i) v h hv = (h.0, set-IsBytes bs i v h.1 hv)

get_or-set :
    (bytes : List ℕ) (i j v : ℕ)
    → i < length bytes
    → get_or (set bytes i v) j 0 ≡ (if i == j then v else get_or bytes j 0)
get_or-set [] i j v h = absurd (omega arith)
get_or-set (b ∷ bs) zero zero v h = ground arith
get_or-set (b ∷ bs) zero (suc j) v h = ground arith
get_or-set (b ∷ bs) (suc i) zero v h = ground arith
get_or-set (b ∷ bs) (suc i) (suc j) v h = get_or-set bs i j v (omega arith) ∙ ground arith

-- Marking a row valid, inside the bitmap, makes that row valid and leaves every other as it was.
pub is_valid-set_valid :
    (v : BitVector) (i j : ℕ)
    → IsBytes v.bytes
    → i / 8 < length v.bytes
    → is_valid j (set_valid i v) ≡ (if i == j then true else is_valid j v)
unfolding is_valid set_valid
is_valid-set_valid v i j h hi = ground (
  arith,
  get_or-set v.bytes (i / 8) (j / 8) (bit_on (get_or v.bytes (i / 8) 0) (i % 8)) hi,
  bit_test-bit_on (get_or v.bytes (i / 8) 0) (i % 8) (j % 8) (get_or-lt v.bytes (i / 8) h)
      (omega arith) (omega arith),
)

-- Marking a row null, inside the bitmap, makes that row null and leaves every other as it was.
pub is_valid-set_null :
    (v : BitVector) (i j : ℕ)
    → IsBytes v.bytes
    → i / 8 < length v.bytes
    → is_valid j (set_null i v) ≡ (if i == j then false else is_valid j v)
unfolding is_valid set_null
is_valid-set_null v i j h hi = ground (
  arith,
  get_or-set v.bytes (i / 8) (j / 8) (bit_off (get_or v.bytes (i / 8) 0) (i % 8)) hi,
  bit_test-bit_off (get_or v.bytes (i / 8) 0) (i % 8) (j % 8) (get_or-lt v.bytes (i / 8) h)
      (omega arith) (omega arith),
)

pub set_valid-IsBytes : (v : BitVector) (i : ℕ) → IsBytes v.bytes → IsBytes (set_valid i v).bytes
unfolding set_valid
set_valid-IsBytes v i h =
    set-IsBytes v.bytes (i / 8) _ h
      (bit_on-lt _ (i % 8) (get_or-lt v.bytes (i / 8) h) (omega arith)).0

pub set_null-IsBytes : (v : BitVector) (i : ℕ) → IsBytes v.bytes → IsBytes (set_null i v).bytes
unfolding set_null
set_null-IsBytes v i h =
    set-IsBytes v.bytes (i / 8) _ h
      (bit_on-lt _ (i % 8) (get_or-lt v.bytes (i / 8) h) (omega arith)).1
