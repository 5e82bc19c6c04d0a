-- ===== src/Chunk/Scan.antt =====
-- The scan of an integer column by `seal`: its exact bounds, and whether it is constant.
use native.Mathlib.Nat.{one-le-pow}
use plotjuggler_core.Prelude.{
  ℕ, zero, suc, ◌+◌, ◌*◌, ◌^◌, ◌<◌, ◌≤◌, ◌≡◌, refl, subst, Bool, true, false, Bool-cases, ◌&&◌, ◌⊎◌,
  inl, inr, List, [], ◌∷◌, take, drop, arith, ◌==◌, ℤ, ◌≤ℤ◌, ltb_ℤ, eqb_ℤ→eq, i64_of_bits, IsI64,
}
use plotjuggler_core.Bytes.{le_value}
use plotjuggler_core.Buffer.Validity.{IsBytes}
use plotjuggler_core.Encoding.{StorageKind, k_int32, k_int64, integer_at, i32_of_bits}
use plotjuggler_core.Chunk.{ExactRange, min_ℤ, max_ℤ, scan_rows}

-- The two kinds of the case.
abbrev pub IsInteger : StorageKind → Type 0
IsInteger kind = (kind ≡ k_int32) ⊎ (kind ≡ k_int64)

take-IsBytes : (n : ℕ) (bytes : List ℕ) → IsBytes bytes → IsBytes (take n bytes)
take-IsBytes zero bytes h = tt
take-IsBytes (suc n) [] h = tt
take-IsBytes (suc n) (b ∷ bytes) h = (h.0, take-IsBytes n bytes h.1)

drop-IsBytes : (n : ℕ) (bytes : List ℕ) → IsBytes bytes → IsBytes (drop n bytes)
drop-IsBytes zero bytes h = h
drop-IsBytes (suc n) [] h = tt
drop-IsBytes (suc n) (b ∷ bytes) h = drop-IsBytes n bytes h.1

le_value-take-lt : (n : ℕ) (bytes : List ℕ) → IsBytes bytes → le_value (take n bytes) < 256 ^ n
le_value-take-lt zero bytes h = omega arith
le_value-take-lt (suc n) [] h = omega (arith, one-le-pow (suc n) 256 (omega arith))
le_value-take-lt (suc n) (b ∷ bytes) h = omega (arith, h.0, le_value-take-lt n bytes h.1)

i64_of_bits-IsI64 : (w : ℕ) → w < 2 ^ 64 → IsI64 (i64_of_bits w)
unfolding i64_of_bits
i64_of_bits-IsI64 w h = ground arith

i32_of_bits-IsI64 : (w : ℕ) → w < 2 ^ 32 → IsI64 (i32_of_bits w)
i32_of_bits-IsI64 w h = ground arith

pub integer_at-IsI64 :
    (bytes : List ℕ) (kind : StorageKind) (i : ℕ)
    → IsInteger kind
    → IsBytes bytes
    → IsI64 (integer_at bytes kind i)
unfolding integer_at
integer_at-IsI64 bytes kind i (inl e) h =
    rw e
      (i32_of_bits-IsI64 _ (le_value-take-lt 4 (drop (i * 4) bytes) (drop-IsBytes (i * 4) bytes h)))
integer_at-IsI64 bytes kind i (inr e) h =
    rw e
      (i64_of_bits-IsI64 _ (le_value-take-lt 8 (drop (i * 8) bytes) (drop-IsBytes (i * 8) bytes h)))

-- What a scan shows of its result.
pub record Scanned (bytes : List ℕ) (kind : StorageKind) (n row : ℕ) (before after : ExactRange)
    : Type 0 where
  pub min-le : after.exact_min ≤ℤ before.exact_min
  pub le-max : before.exact_max ≤ℤ after.exact_max
  pub min-IsI64 : IsI64 after.exact_min
  pub max-IsI64 : IsI64 after.exact_max
  pub was_constant : after.exact_is_constant ≡ true → before.exact_is_constant ≡ true
  pub bounds :
      (j : ℕ)
      → row ≤ j
      → j < row + n
      → (after.exact_min ≤ℤ integer_at bytes kind j) × (integer_at bytes kind j ≤ℤ after.exact_max)
  pub equal :
      (j : ℕ)
      → row ≤ j
      → j < row + n
      → after.exact_is_constant ≡ true
      → integer_at bytes kind j ≡ integer_at bytes kind 0

pub scan_rows-Scanned :
    (bytes : List ℕ) (kind : StorageKind) (n row : ℕ) (r : ExactRange)
    → ((j : ℕ) → IsI64 (integer_at bytes kind j))
    → IsI64 r.exact_min
    → IsI64 r.exact_max
    → Scanned bytes kind n row r (scan_rows bytes kind n row r)
unfolding scan_rows
scan_rows-Scanned bytes kind zero row r w hmin hmax = record {
  min-le = omega arith;
  le-max = omega arith;
  min-IsI64 = hmin;
  max-IsI64 = hmax;
  was_constant = λ h. h;
  bounds = λ j l h. absurd (omega arith);
  equal = λ j l h c. absurd (omega arith);
}
scan_rows-Scanned bytes kind (suc n) row r w hmin hmax =
    let v = integer_at bytes kind row in
    let s =
      scan_rows-Scanned bytes kind n (row + 1) _ w (min_ℤ-IsI64 r.exact_min v hmin (w row))
        (max_ℤ-IsI64 r.exact_max v hmax (w row)) in
    record {
      min-le = omega (arith, s.min-le, (min_ℤ-le r.exact_min v).0);
      le-max = omega (arith, s.le-max, (max_ℤ-ge r.exact_max v).0);
      min-IsI64 = s.min-IsI64;
      max-IsI64 = s.max-IsI64;
      was_constant = λ h. (and-parts _ _ (s.was_constant h)).0;
      bounds = λ j l h. elim (Bool-cases (j == row)) [
        | inl e ↦
            let same : row ≡ j = ground arith in
            subst
              (λ k.
                ((scan_rows bytes kind (suc n) row r).exact_min ≤ℤ integer_at bytes kind k)
                × (integer_at bytes kind k ≤ℤ (scan_rows bytes kind (suc n) row r).exact_max))
              same
              (
                omega (arith, s.min-le, (min_ℤ-le r.exact_min v).1),
                omega (arith, s.le-max, (max_ℤ-ge r.exact_max v).1),
              )
        | inr e ↦ s.bounds j (ground arith) (omega arith)
      ];
      equal = λ j l h c. elim (Bool-cases (j == row)) [
        | inl e ↦
            let same : row ≡ j = ground arith in
            subst (λ k. integer_at bytes kind k ≡ integer_at bytes kind 0) same
              (eqb_ℤ→eq _ _ (and-parts _ _ (s.was_constant c)).1)
        | inr e ↦ s.equal j (ground arith) (omega arith) c
      ];
    }
  where
    and-parts : (a b : Bool) → (a && b) ≡ true → (a ≡ true) × (b ≡ true)
    and-parts true b h = (refl, h)
    and-parts false b h = absurd (ground arith)

    min_ℤ-le : (a b : ℤ) → (min_ℤ a b ≤ℤ a) × (min_ℤ a b ≤ℤ b)
    min_ℤ-le a b = ground arith

    max_ℤ-ge : (a b : ℤ) → (a ≤ℤ max_ℤ a b) × (b ≤ℤ max_ℤ a b)
    max_ℤ-ge a b = ground arith

    min_ℤ-IsI64 : (a b : ℤ) → IsI64 a → IsI64 b → IsI64 (min_ℤ a b)
    min_ℤ-IsI64 a b ha hb = elim (Bool-cases (ltb_ℤ b a)) [ inl e ↦ rw e hb | inr e ↦ rw e ha ]

    max_ℤ-IsI64 : (a b : ℤ) → IsI64 a → IsI64 b → IsI64 (max_ℤ a b)
    max_ℤ-IsI64 a b ha hb = elim (Bool-cases (ltb_ℤ a b)) [ inl e ↦ rw e hb | inr e ↦ rw e ha ]
