-- ===== src/Prelude/Order.antt =====
-- Sorted sequences of integers, and the standard library's search in them.
use Prim.Native.Nat.{ℕ, zero, suc, ◌≤◌, ◌<◌}
use mathlib.Core.Path.{◌≡◌, refl, subst}
use mathlib.Core.Option.{some, some-injective}
use mathlib.Core.List.{List, [], ◌∷◌, ◌++◌}
use native.Mathlib.Omega.{arith}
use plotjuggler_core.Prelude.Tests.{if◌then◌else◌}
use plotjuggler_core.Prelude.Lists.{
  length, All, get_elem?, last?, All-append, All-append_right, All-map,
}
use plotjuggler_core.Prelude.Int.{ℤ, ◌≤ℤ◌, ◌<ℤ◌, ltb_ℤ}

-- Non-decreasing from front to back.
abbrev pub IsSorted : List ℤ → Type 0
IsSorted [] = Unit {0}
IsSorted (x ∷ xs) = All (λ y. x ≤ℤ y) xs × IsSorted xs

-- `std::upper_bound` on a sorted range: how many leading elements are not greater than the value.
unfoldable pub upper_bound : List ℤ → ℤ → ℕ
upper_bound [] v = 0
upper_bound (x ∷ xs) v = if ltb_ℤ v x then 0 else suc (upper_bound xs v)

-- `std::lower_bound` on a sorted range: how many leading elements are less than the value.
unfoldable pub lower_bound : List ℤ → ℤ → ℕ
lower_bound [] v = 0
lower_bound (x ∷ xs) v = if ltb_ℤ x v then suc (lower_bound xs v) else 0

pub upper_bound-le-length : (xs : List ℤ) (v : ℤ) → upper_bound xs v ≤ length xs
unfolding upper_bound
upper_bound-le-length [] v = omega arith
upper_bound-le-length (x ∷ xs) v = ground (arith, upper_bound-le-length xs v)

pub lower_bound-le-length : (xs : List ℤ) (v : ℤ) → lower_bound xs v ≤ length xs
unfolding lower_bound
lower_bound-le-length [] v = omega arith
lower_bound-le-length (x ∷ xs) v = ground (arith, lower_bound-le-length xs v)

pub get_elem?-All {ℓ κ} :
    {A : Type ℓ} (P : A → Type κ) (xs : List A) (i : ℕ) {y : A}
    → All P xs
    → get_elem? xs i ≡ some y
    → P y
get_elem?-All P [] i h e = cc
get_elem?-All P (x ∷ xs) zero h e = subst P (some-injective _ _ e) h.0
get_elem?-All P (x ∷ xs) (suc i) h e = get_elem?-All P xs i h.1 e

-- Every element before `upper_bound` is at most the value.
pub before-upper_bound :
    (xs : List ℤ) (v : ℤ) (i : ℕ) {y : ℤ} → get_elem? xs i ≡ some y → i < upper_bound xs v → y ≤ℤ v
unfolding upper_bound
before-upper_bound [] v i e h = cc
before-upper_bound (x ∷ xs) v zero e h = ground arith
before-upper_bound (x ∷ xs) v (suc i) e h = ground (arith, before-upper_bound xs v i e)

-- In a sorted range every element from `upper_bound` on is greater than the value.
pub after-upper_bound :
    (xs : List ℤ) (v : ℤ) (i : ℕ) {y : ℤ}
    → IsSorted xs
    → get_elem? xs i ≡ some y
    → upper_bound xs v ≤ i
    → v <ℤ y
unfolding upper_bound
after-upper_bound [] v i s e h = cc
after-upper_bound (x ∷ xs) v zero s e h = ground arith
after-upper_bound (x ∷ xs) v (suc i) {y} s e h =
    ground (arith, after-upper_bound xs v i s.1 e, get_elem?-All (λ z. x ≤ℤ z) xs i s.0 e)

-- Every element before `lower_bound` is less than the value.
pub before-lower_bound :
    (xs : List ℤ) (v : ℤ) (i : ℕ) {y : ℤ} → get_elem? xs i ≡ some y → i < lower_bound xs v → y <ℤ v
unfolding lower_bound
before-lower_bound [] v i e h = cc
before-lower_bound (x ∷ xs) v zero e h = ground arith
before-lower_bound (x ∷ xs) v (suc i) e h = ground (arith, before-lower_bound xs v i e)

-- In a sorted range every element from `lower_bound` on is at least the value.
pub after-lower_bound :
    (xs : List ℤ) (v : ℤ) (i : ℕ) {y : ℤ}
    → IsSorted xs
    → get_elem? xs i ≡ some y
    → lower_bound xs v ≤ i
    → v ≤ℤ y
unfolding lower_bound
after-lower_bound [] v i s e h = cc
after-lower_bound (x ∷ xs) v zero s e h = ground arith
after-lower_bound (x ∷ xs) v (suc i) {y} s e h =
    ground (arith, after-lower_bound xs v i s.1 e, get_elem?-All (λ z. x ≤ℤ z) xs i s.0 e)

pub IsSorted-append_right : (xs ys : List ℤ) → IsSorted (xs ++ ys) → IsSorted ys
IsSorted-append_right [] ys h = h
IsSorted-append_right (x ∷ xs) ys h = IsSorted-append_right xs ys h.1

All-le-last :
    (x : ℤ) (xs : List ℤ) {l : ℤ}
    → IsSorted (x ∷ xs)
    → last? (x ∷ xs) ≡ some l
    → All (λ y. y ≤ℤ l) (x ∷ xs)
All-le-last x [] s e = ground arith
All-le-last x (y ∷ ys) s e = let r = All-le-last y ys s.1 e in (omega (arith, r.0, s.0.0), r)

-- The last element of a sorted sequence bounds it.
pub IsSorted-last : (xs : List ℤ) {l : ℤ} → IsSorted xs → last? xs ≡ some l → All (λ y. y ≤ℤ l) xs
IsSorted-last [] s e = tt
IsSorted-last (x ∷ xs) s e = All-le-last x xs s e

-- Two sorted sequences, the second not before the end of the first, make a sorted one.
pub IsSorted-append :
    (xs ys : List ℤ)
    → IsSorted xs
    → IsSorted ys
    → ((x : ℤ) → last? xs ≡ some x → All (λ y. x ≤ℤ y) ys)
    → IsSorted (xs ++ ys)
IsSorted-append [] ys sx sy h = sy
IsSorted-append (x ∷ []) ys sx sy h = (h x refl, sy)
IsSorted-append (x ∷ z ∷ xs) ys sx sy h =
    let rest = IsSorted-append (z ∷ xs) ys sx.1 sy h in
    (
      (
        sx.0.0,
        All-append _ xs ys sx.0.1
            (All-append_right _ xs ys (All-map (λ a p. omega (arith, sx.0.0)) (xs ++ ys) rest.0)),
      ),
      rest,
    )
