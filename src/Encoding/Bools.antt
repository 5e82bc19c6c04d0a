-- ===== src/Encoding/Bools.antt =====
-- Packed bools: every value is read back as whether it is not zero.
use plotjuggler_core.Prelude.{
  ℕ, zero, suc, ◌+◌, ◌*◌, ◌/◌, ◌%◌, ◌<◌, ◌≤◌, ◌≡◌, refl, ap, ◌∙◌, true, false, not, List, [], ◌∷◌,
  arith, length, get_or, set, ◌==◌, if◌then◌else◌, Bool-cases, inl, inr,
}
use plotjuggler_core.Bytes.{bit_test-zero}
use plotjuggler_core.Buffer.{BitVector, set_valid, is_valid, replicate}
use plotjuggler_core.Buffer.Validity.{IsBytes, is_valid-set_valid, set_valid-IsBytes}
use plotjuggler_core.Encoding.{pack_bits, pack_bools, unpack_bool}

-- The bits so far, as the bitmap that they are.
abbrev bitmap : List ℕ → BitVector
bitmap bits = record { bytes = bits; bit_count = 0 }

length-set : (bits : List ℕ) (i v : ℕ) → length (set bits i v) ≡ length bits
length-set [] i v = refl
length-set (b ∷ bits) zero v = refl
length-set (b ∷ bits) (suc i) v = ap suc (length-set bits i v)

-- One round of the loop.
abbrev marked : ℕ → ℕ → List ℕ → List ℕ
marked v i bits = if v == 0 then bits else (set_valid i (bitmap bits)).bytes

pack_bits-cons :
    (v : ℕ) (vs : List ℕ) (i : ℕ) (bits : List ℕ)
    → pack_bits (v ∷ vs) i bits ≡ pack_bits vs (i + 1) (marked v i bits)
unfolding pack_bits set_valid
pack_bits-cons v vs i bits = refl

marked-IsBytes : (v i : ℕ) (bits : List ℕ) → IsBytes bits → IsBytes (marked v i bits)
marked-IsBytes v i bits h = elim (Bool-cases (v == 0)) [
  | inl e ↦ rw e h
  | inr e ↦ rw e (set_valid-IsBytes (bitmap bits) i h)
]

length-marked : (v i : ℕ) (bits : List ℕ) → length (marked v i bits) ≡ length bits
unfolding set_valid
length-marked v i bits = elim (Bool-cases (v == 0)) [
  | inl e ↦ rw e
  | inr e ↦ rw e (length-set bits (i / 8) _)
]

is_valid-marked :
    (v i j : ℕ) (bits : List ℕ)
    → IsBytes bits
    → i / 8 < length bits
    → is_valid j (bitmap (marked v i bits)) ≡ (
        if i == j
        then (if v == 0 then is_valid j (bitmap bits) else true)
        else is_valid j (bitmap bits))
unfolding set_valid is_valid
is_valid-marked v i j bits h l = elim (Bool-cases (v == 0)) [
  | inl e ↦ rw e (ground arith)
  | inr e ↦ rw e (is_valid-set_valid (bitmap bits) i j h l)
]

-- The bits before the rows to come stay; those of the rows to come, still clear, are set.
is_valid-pack_bits_before :
    (vs : List ℕ) (i j : ℕ) (bits : List ℕ)
    → IsBytes bits
    → i + length vs ≤ length bits * 8
    → j < i
    → is_valid j (bitmap (pack_bits vs i bits)) ≡ is_valid j (bitmap bits)
unfolding pack_bits
is_valid-pack_bits_before [] i j bits h l lt = refl
is_valid-pack_bits_before (v ∷ vs) i j bits h l lt =
    ap (λ bs. is_valid j (bitmap bs)) (pack_bits-cons v vs i bits)
    ∙ is_valid-pack_bits_before vs (i + 1) j (marked v i bits) (marked-IsBytes v i bits h)
        (omega (arith, length-marked v i bits)) (omega arith)
    ∙ is_valid-marked v i j bits h (omega arith)
    ∙ ground arith

is_valid-pack_bits :
    (vs : List ℕ) (i k : ℕ) (bits : List ℕ)
    → IsBytes bits
    → i + length vs ≤ length bits * 8
    → k < length vs
    → ((j : ℕ) → i ≤ j → is_valid j (bitmap bits) ≡ false)
    → is_valid (i + k) (bitmap (pack_bits vs i bits)) ≡ not (get_or vs k 0 == 0)
is_valid-pack_bits [] i k bits h l lt clear = absurd (omega arith)
is_valid-pack_bits (v ∷ vs) i zero bits h l lt clear =
    let e : i + 0 ≡ i = omega arith in
    ap (λ n. is_valid n (bitmap (pack_bits (v ∷ vs) i bits))) e
    ∙ ap (λ bs. is_valid i (bitmap bs)) (pack_bits-cons v vs i bits)
    ∙ is_valid-pack_bits_before vs (i + 1) i (marked v i bits) (marked-IsBytes v i bits h)
        (omega (arith, length-marked v i bits)) (omega arith)
    ∙ is_valid-marked v i i bits h (omega arith)
    ∙ ground (arith, clear i (omega arith))
is_valid-pack_bits (v ∷ vs) i (suc k) bits h l lt clear =
    let e : i + suc k ≡ i + 1 + k = omega arith in
    ap (λ n. is_valid n (bitmap (pack_bits (v ∷ vs) i bits))) e
    ∙ ap (λ bs. is_valid (i + 1 + k) (bitmap bs)) (pack_bits-cons v vs i bits)
    ∙ is_valid-pack_bits vs (i + 1) k (marked v i bits) (marked-IsBytes v i bits h)
        (omega (arith, length-marked v i bits)) (omega arith)
        (λ j le. is_valid-marked v i j bits h (omega arith) ∙ ground (arith, clear j (omega arith)))

replicate-IsBytes : (n : ℕ) → IsBytes (replicate n 0)
replicate-IsBytes zero = tt
replicate-IsBytes (suc n) = (omega arith, replicate-IsBytes n)

length-replicate : (n : ℕ) → length (replicate n 0) ≡ n
length-replicate zero = refl
length-replicate (suc n) = ap suc (length-replicate n)

get_or-replicate : (n i : ℕ) → get_or (replicate n 0) i 0 ≡ 0
get_or-replicate zero i = refl
get_or-replicate (suc n) zero = refl
get_or-replicate (suc n) (suc i) = get_or-replicate n i

replicate-clear : (n j : ℕ) → is_valid j (bitmap (replicate n 0)) ≡ false
unfolding is_valid
replicate-clear n j = rw (get_or-replicate n (j / 8)) (bit_test-zero (j % 8) (omega arith))

-- `unpackBool` after `packBools` tells of every row whether its value is not zero.
pub unpack_bool-pack_bools :
    (values : List ℕ) (row : ℕ)
    → row < length values
    → unpack_bool (pack_bools values) row ≡ not (get_or values row 0 == 0)
unfolding unpack_bool pack_bools is_valid
unpack_bool-pack_bools values row h =
    let n = (length values + 7) / 8 in
    let z : row ≡ 0 + row = omega arith in
    ap (λ (r : ℕ). is_valid r (bitmap (pack_bits values 0 (replicate n 0)))) z
    ∙ is_valid-pack_bits values 0 row (replicate n 0) (replicate-IsBytes n)
        (omega (arith, length-replicate n)) h (λ j l. replicate-clear n j)
