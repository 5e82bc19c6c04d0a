-- ===== src/Bytes/Words.antt =====
-- Little-endian words and packed arrays of them.
use native.Mathlib.Nat.{pow-suc}
use plotjuggler_core.Prelude.{
  ℕ, zero, suc, ◌+◌, ◌*◌, ◌/◌, ◌%◌, ◌^◌, ◌<◌, ◌≡◌, refl, ap, ◌∙◌, sym, some, List, [], ◌∷◌, ◌++◌,
  arith, length, take, drop, get_elem?, append_assoc, length-append,
}

-- The `n` low bytes of a word, lowest first.
abbrev pub le_bytes : ℕ → ℕ → List ℕ
le_bytes zero v = []
le_bytes (suc n) v = v % 256 ∷ le_bytes n (v / 256)

abbrev pub le_value : List ℕ → ℕ
le_value [] = 0
le_value (b ∷ bs) = b + 256 * le_value bs

-- `memcpy(&v, data + offset, n)` into a zeroed word.
abbrev pub load : ℕ → ℕ → List ℕ → ℕ
load n offset bytes = le_value (take n (drop offset bytes))

-- An array of `n`-byte words.
abbrev pub packed : ℕ → List ℕ → List ℕ
packed n [] = []
packed n (v ∷ vs) = le_bytes n v ++ packed n vs

pub length-le_bytes : (n v : ℕ) → length (le_bytes n v) ≡ n
length-le_bytes zero v = refl
length-le_bytes (suc n) v = ap suc (length-le_bytes n (v / 256))

pub le_value-le_bytes : (n v : ℕ) → v < 256 ^ n → le_value (le_bytes n v) ≡ v
le_value-le_bytes zero v h = omega arith
le_value-le_bytes (suc n) v h =
    let fits : v / 256 < 256 ^ n = omega (arith, pow-suc 256 n) in
    omega (arith, le_value-le_bytes n (v / 256) fits)

pub take-append_length {ℓ} :
    {A : Type ℓ} (n : ℕ) (xs ys : List A) → length xs ≡ n → take n (xs ++ ys) ≡ xs
take-append_length zero [] ys h = refl
take-append_length zero (x ∷ xs) ys h = absurd (omega arith)
take-append_length (suc n) [] ys h = absurd (omega arith)
take-append_length (suc n) (x ∷ xs) ys h = ap (◌∷◌ x) (take-append_length n xs ys (omega arith))

pub drop-append_length {ℓ} :
    {A : Type ℓ} (n k : ℕ) (xs ys : List A) → length xs ≡ n → drop (n + k) (xs ++ ys) ≡ drop k ys
drop-append_length zero k [] ys h = ap (λ (m : ℕ). drop m ys) (omega arith)
drop-append_length zero k (x ∷ xs) ys h = absurd (omega arith)
drop-append_length (suc n) k [] ys h = absurd (omega arith)
drop-append_length (suc n) k (x ∷ xs) ys h =
    let e : suc n + k ≡ suc (n + k) = omega arith in
    rw e (drop-append_length n k xs ys (omega arith))

pub drop-append_exact {ℓ} :
    {A : Type ℓ} (n : ℕ) (xs ys : List A) → length xs ≡ n → drop n (xs ++ ys) ≡ ys
drop-append_exact zero [] ys h = refl
drop-append_exact zero (x ∷ xs) ys h = absurd (omega arith)
drop-append_exact (suc n) [] ys h = absurd (omega arith)
drop-append_exact (suc n) (x ∷ xs) ys h = drop-append_exact n xs ys (omega arith)

-- A word just behind `k` bytes is read back.
pub load-append :
    (n v k : ℕ) (front back : List ℕ)
    → v < 256 ^ n
    → length front ≡ k
    → load n k (front ++ (le_bytes n v ++ back)) ≡ v
load-append n v k front back h e =
    let z : k + 0 ≡ k = omega arith in
    rw
      (
        ← z,
        drop-append_length k 0 front (le_bytes n v ++ back) e,
        take-append_length n (le_bytes n v) back (length-le_bytes n v),
      )
      (le_value-le_bytes n v h)

-- The element of an array is read back at its row.
pub load-packed :
    (n row v : ℕ) (vs : List ℕ)
    → get_elem? vs row ≡ some v
    → v < 256 ^ n
    → load n (row * n) (packed n vs) ≡ v
load-packed n row v [] e h = absurd (cc)
load-packed n zero v (w ∷ vs) e h =
    let same : v ≡ w = ground arith in
    let z : 0 * n ≡ 0 = omega arith in
    rw (z, take-append_length n (le_bytes n w) (packed n vs) (length-le_bytes n w), ← same)
      (le_value-le_bytes n v h)
load-packed n (suc row) v (w ∷ vs) e h =
    let s : suc row * n ≡ n + row * n = omega arith in
    rw (s, drop-append_length n (row * n) (le_bytes n w) (packed n vs) (length-le_bytes n w))
      (load-packed n row v vs e h)

pub packed-append : (n : ℕ) (vs ws : List ℕ) → packed n (vs ++ ws) ≡ packed n vs ++ packed n ws
packed-append n [] ws = refl
packed-append n (v ∷ vs) ws =
    ap (◌++◌ (le_bytes n v)) (packed-append n vs ws) ∙ sym (append_assoc (le_bytes n v) _ _)

pub length-packed : (n : ℕ) (vs : List ℕ) → length (packed n vs) ≡ length vs * n
length-packed n [] = omega arith
length-packed n (v ∷ vs) =
    omega
      (arith, length-append (le_bytes n v) (packed n vs), length-le_bytes n v, length-packed n vs)
