-- ===== src/ColumnBuffer/Validity.antt =====
-- The bitmap of a column as the list of its rows' flags: the bitmap grows.
use plotjuggler_core.Prelude.{
  ℕ, zero, suc, ◌+◌, ◌-◌, ◌*◌, ◌/◌, ◌<◌, ◌≤◌, ◌≡◌, refl, ap, ap₂, sym, Bool, true, subst, inl, inr,
  Bool-cases, List, [], ◌∷◌, ◌++◌, length, get_or, take, set, All-append, ltb, if◌then◌else◌, arith,
  append-nil, length-append,
}
use plotjuggler_core.Buffer.{BitVector, replicate, resize, bytes_for_bits, ensure_size, is_valid}
use plotjuggler_core.Buffer.Validity.{IsBytes}

-- The flags of the first `n` rows.
abbrev pub row_flags : ℕ → BitVector → List Bool
row_flags zero v = []
row_flags (suc n) v = row_flags n v ++ is_valid n v ∷ []

-- A bitmap that says of every row what `flags` says, with room for at least these rows.
pub record Tracks (v : BitVector) (flags : List Bool) : Type 0 where
  pub bytes_small : IsBytes v.bytes
  pub room : length flags ≤ 8 * length v.bytes
  pub bit_count : v.bit_count ≡ length flags
  pub agree : row_flags (length flags) v ≡ flags

pub row_flags_cong :
    (n : ℕ) (v w : BitVector)
    → ((j : ℕ) → j < n → is_valid j v ≡ is_valid j w)
    → row_flags n v ≡ row_flags n w
row_flags_cong zero v w h = refl
row_flags_cong (suc n) v w h =
    ap₂ ◌++◌ (row_flags_cong n v w (λ j lt. h j (omega arith)))
      (ap (λ (b : Bool). b ∷ []) (h n (omega arith)))

pub get_or-replicate : (n b i : ℕ) → i < n → get_or (replicate n b) i 0 ≡ b
get_or-replicate zero b i h = absurd (omega arith)
get_or-replicate (suc n) b zero h = refl
get_or-replicate (suc n) b (suc i) h = get_or-replicate n b i (omega arith)

get_or_zeros : (n i : ℕ) → get_or (replicate n 0) i 0 ≡ 0
get_or_zeros zero i = refl
get_or_zeros (suc n) zero = refl
get_or_zeros (suc n) (suc i) = get_or_zeros n i

pub length-replicate : (n b : ℕ) → length (replicate n b) ≡ n
length-replicate zero b = refl
length-replicate (suc n) b = ap suc (length-replicate n b)

pub replicate-IsBytes : (n b : ℕ) → b < 256 → IsBytes (replicate n b)
replicate-IsBytes zero b h = tt
replicate-IsBytes (suc n) b h = (h, replicate-IsBytes n b h)

take_all : (n : ℕ) (xs : List ℕ) → length xs ≤ n → take n xs ≡ xs
take_all zero [] h = refl
take_all zero (x ∷ xs) h = absurd (omega arith)
take_all (suc n) [] h = refl
take_all (suc n) (x ∷ xs) h = ap (◌∷◌ x) (take_all n xs (omega arith))

get_or-append_zeros : (xs : List ℕ) (n i : ℕ) → get_or (xs ++ replicate n 0) i 0 ≡ get_or xs i 0
get_or-append_zeros [] n i = get_or_zeros n i
get_or-append_zeros (x ∷ xs) n zero = refl
get_or-append_zeros (x ∷ xs) n (suc i) = get_or-append_zeros xs n i

pub length-set : (xs : List ℕ) (i v : ℕ) → length (set xs i v) ≡ length xs
length-set [] i v = refl
length-set (x ∷ xs) zero v = refl
length-set (x ∷ xs) (suc i) v = ap suc (length-set xs i v)

-- Growing the bitmap makes room and leaves every flag as it was.
pub record Grown (n : ℕ) (v w : BitVector) : Type 0 where
  pub same : (j : ℕ) → is_valid j w ≡ is_valid j v
  pub grown_small : IsBytes w.bytes
  pub grown_room : n ≤ 8 * length w.bytes
  pub grown_count : w.bit_count ≡ (if ltb v.bit_count n then n else v.bit_count)

bytes-ensure_size :
    (n : ℕ) (v : BitVector)
    → (k : ℕ) × ((ensure_size n v).bytes ≡ v.bytes ++ replicate k 0)
      × (bytes_for_bits n ≤ length v.bytes + k)
unfolding ensure_size resize
bytes-ensure_size n v = elim (Bool-cases (ltb (length v.bytes) (bytes_for_bits n))) [
  | inl e ↦ (
    bytes_for_bits n - length v.bytes,
    rw (e, take_all (bytes_for_bits n) v.bytes (ground arith)),
    omega arith,
  )
  | inr e ↦ (0, rw (e, append-nil v.bytes), ground arith)
]

is_valid-ensure_size : (n : ℕ) (v : BitVector) (j : ℕ) → is_valid j (ensure_size n v) ≡ is_valid j v
unfolding is_valid
is_valid-ensure_size n v j =
    let p = bytes-ensure_size n v in rw (p.1, get_or-append_zeros v.bytes p.0 (j / 8))

bit_count-ensure_size :
    (n : ℕ) (v : BitVector)
    → (ensure_size n v).bit_count ≡ (if ltb v.bit_count n then n else v.bit_count)
unfolding ensure_size
bit_count-ensure_size n v = refl

pub ensure_size-Grown : (n : ℕ) (v : BitVector) → IsBytes v.bytes → Grown n v (ensure_size n v)
ensure_size-Grown n v h =
    let p = bytes-ensure_size n v in
    record {
      same = is_valid-ensure_size n v;
      grown_small = subst IsBytes (sym p.1) (
          All-append (λ b. b < 256) v.bytes (replicate p.0 0) h
            (replicate-IsBytes p.0 0 (omega arith)));
      grown_room =
          rw p.1
            (omega (arith, length-append v.bytes (replicate p.0 0), length-replicate p.0 0, p.2));
      grown_count = bit_count-ensure_size n v;
    }

abbrev pub trues : ℕ → List Bool
trues zero = []
trues (suc n) = true ∷ trues n

pub length-trues : (n : ℕ) → length (trues n) ≡ n
length-trues zero = refl
length-trues (suc n) = ap suc (length-trues n)

pub length-row_flags : (n : ℕ) (v : BitVector) → length (row_flags n v) ≡ n
length-row_flags zero v = refl
length-row_flags (suc n) v =
    omega (arith, length-append (row_flags n v) (is_valid n v ∷ []), length-row_flags n v)
