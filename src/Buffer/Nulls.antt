-- ===== src/Buffer/Nulls.antt =====
-- `countNulls` counts the null rows.
use plotjuggler_core.Prelude.{
  ℕ, zero, suc, ◌+◌, ◌*◌, ◌/◌, ◌%◌, ◌<◌, ◌≤◌, ◌≡◌, refl, ap, List, get_or, if◌then◌else◌, arith,
}
use plotjuggler_core.Bytes.{bit_test, ones_below, popcount-ones_below}
use plotjuggler_core.Buffer.{BitVector, is_valid, count_full, count_partial, count_nulls}
use plotjuggler_core.Buffer.Validity.{IsBytes, get_or-lt}

-- How many of the first `n` rows are null.
abbrev pub nulls_below : ℕ → BitVector → ℕ
nulls_below zero v = 0
nulls_below (suc n) v = (if is_valid n v then 0 else 1) + nulls_below n v

abbrev valid_below : ℕ → BitVector → ℕ
valid_below zero v = 0
valid_below (suc n) v = (if is_valid n v then 1 else 0) + valid_below n v

valid-nulls : (n : ℕ) (v : BitVector) → valid_below n v + nulls_below n v ≡ n
valid-nulls zero v = omega arith
valid-nulls (suc n) v = ground (arith, valid-nulls n v)

is_valid_in_byte :
    (v : BitVector) (f r : ℕ) → r < 8 → is_valid (8 * f + r) v ≡ bit_test (get_or v.bytes f 0) r
unfolding is_valid
is_valid_in_byte v f r h =
    let q : (8 * f + r) / 8 ≡ f = omega arith in
    let m : (8 * f + r) % 8 ≡ r = omega arith in rw (q, m)

valid_below_byte :
    (v : BitVector) (f r n : ℕ)
    → r ≤ 8
    → n ≡ 8 * f + r
    → valid_below n v ≡ valid_below (8 * f) v + ones_below r (get_or v.bytes f 0)
valid_below_byte v f zero n h e = let z : n ≡ 8 * f = omega (arith, e) in rw z (omega arith)
valid_below_byte v f (suc r) n h e =
    let s : n ≡ suc (8 * f + r) = omega (arith, e) in
    rw (s, is_valid_in_byte v f r (omega arith))
      (omega (arith, valid_below_byte v f r (8 * f + r) (omega arith) refl))

count_full-valid_below :
    (v : BitVector) (n i : ℕ)
    → IsBytes v.bytes
    → valid_below (8 * (i + n)) v ≡ valid_below (8 * i) v + count_full n i v.bytes
unfolding count_full
count_full-valid_below v zero i h = let z : i + 0 ≡ i = omega arith in rw z (omega arith)
count_full-valid_below v (suc n) i h =
    let s : i + suc n ≡ i + 1 + n = omega arith in
    rw s (
      omega (
        arith,
        count_full-valid_below v n (i + 1) h,
        valid_below_byte v i 8 (8 * (i + 1)) (omega arith) (omega arith),
        (popcount-ones_below (get_or v.bytes i 0) 0 (get_or-lt v.bytes i h) (omega arith)).0,
      ))

count_partial-ones_below :
    (bytes : List ℕ) (r m f : ℕ)
    → IsBytes bytes
    → r < 8
    → (0 < r → 0 < m)
    → count_partial r m f bytes ≡ ones_below r (get_or bytes f 0)
unfolding count_partial
count_partial-ones_below bytes zero m f h hr hm = ground arith
count_partial-ones_below bytes (suc r) m f h hr hm = ground (
  arith,
  hm (omega arith),
  popcount-ones_below (get_or bytes f 0) (suc r) (get_or-lt bytes f h) hr,
)

-- On a bitmap of bytes `countNulls` counts exactly the null rows among the first ones.
pub count_nulls-nulls_below :
    (v : BitVector) (n : ℕ) → IsBytes v.bytes → count_nulls n v ≡ nulls_below n v
unfolding count_nulls
count_nulls-nulls_below v n h = omega (
  arith,
  valid-nulls n v,
  valid_below_byte v (n / 8) (n % 8) n (omega arith) (omega arith),
  count_full-valid_below v (n / 8) 0 h,
  ap (λ k. valid_below (8 * k) v) (let e : 0 + n / 8 ≡ n / 8 = omega arith in e),
  count_partial-ones_below v.bytes (n % 8) ((n + 7) / 8) (n / 8) h (omega arith)
      (λ p. omega (arith, p)),
)
