-- ===== src/Wire/Packed.antt =====
-- Packed arrays: what `packedFixed32` and `packedDouble` write behind their tag is read back.
use native.Mathlib.Nat.{mul-mod_left, mul-suc}
use plotjuggler_core.Prelude.{
  ℕ, zero, suc, ◌*◌, ◌^◌, ◌%◌, ◌<◌, ◌≤◌, ◌≡◌, refl, ap, ◌∙◌, some, List, [], ◌∷◌, ◌++◌, arith, true,
  false, length, All, append_assoc, append-nil, ltb, length-append,
}
use plotjuggler_core.Bytes.{
  le_bytes, le_value, packed, length-packed, length-le_bytes, le_value-le_bytes, take-append_length,
  drop-append_exact,
}
use plotjuggler_core.Wire.Writer.{
  append_varint, append_fixed64, append_fixed32, each_fixed32, each_fixed64,
}
use plotjuggler_core.Wire.Reader.{
  eof, read_words, read_packed_fixed32, read_packed_double, read_bytes, packed_of_bytes,
}
use plotjuggler_core.Wire.Fields.{read_bytes-append_varint}

each_fixed32-packed : (vs : List ℕ) → each_fixed32 vs ≡ packed 4 vs
unfolding append_fixed32
each_fixed32-packed [] = refl
each_fixed32-packed (v ∷ vs) = ap (◌++◌ (le_bytes 4 v)) (each_fixed32-packed vs)

each_fixed64-packed : (vs : List ℕ) → each_fixed64 vs ≡ packed 8 vs
unfolding append_fixed64
each_fixed64-packed [] = refl
each_fixed64-packed (v ∷ vs) = ap (◌++◌ (le_bytes 8 v)) (each_fixed64-packed vs)

read_word :
    (n fuel : ℕ) (out word rest : List ℕ)
    → length word ≡ n
    → eof (word ++ rest) ≡ false
    → read_words n (suc fuel) out (word ++ rest)
      ≡ read_words n fuel (out ++ le_value word ∷ []) rest
unfolding read_words
read_word n fuel out word rest h e =
    let enough : ltb (length (word ++ rest)) n ≡ false =
      (let l = length-append word rest in ground arith) in
    rw (e, enough, take-append_length n word rest h, drop-append_exact n word rest h)

read_words_step :
    (k fuel v : ℕ) (out rest : List ℕ)
    → v < 256 ^ suc k
    → read_words (suc k) (suc fuel) out (le_bytes (suc k) v ++ rest)
      ≡ read_words (suc k) fuel (out ++ v ∷ []) rest
read_words_step k fuel v out rest h =
    read_word (suc k) fuel out (le_bytes (suc k) v) rest (length-le_bytes (suc k) v) refl
    ∙ ap (λ (x : ℕ). read_words (suc k) fuel (out ++ x ∷ []) rest) (le_value-le_bytes (suc k) v h)

-- The loop reads the words of an array, one round for each; the fuel may be larger.
read_words-packed :
    (k fuel : ℕ) (out vs : List ℕ)
    → All (λ v. v < 256 ^ suc k) vs
    → length vs ≤ fuel
    → read_words (suc k) fuel out (packed (suc k) vs) ≡ some (true, out ++ vs)
unfolding read_words
read_words-packed k zero out [] h l = rw append-nil
read_words-packed k (suc fuel) out [] h l = rw append-nil
read_words-packed k zero out (v ∷ vs) h l = absurd (omega arith)
read_words-packed k (suc fuel) out (v ∷ vs) h l =
    read_words_step k fuel v out (packed (suc k) vs) h.0
    ∙ read_words-packed k fuel (out ++ v ∷ []) vs h.1 (omega arith)
    ∙ ap (λ (xs : List ℕ). some (true, xs)) (append_assoc out (v ∷ []) vs)

read_packed :
    (k : ℕ) (out vs rest : List ℕ)
    → All (λ v. v < 256 ^ suc k) vs
    → length vs * suc k < 2 ^ 64
    → packed_of_bytes
        (suc k)
        out
        (read_bytes (append_varint (length vs * suc k) ++ (packed (suc k) vs ++ rest)))
      ≡ (some (true, out ++ vs), rest)
read_packed k out vs rest h l =
    let size : length (packed (suc k) vs) ≡ length vs * suc k = length-packed (suc k) vs in
    let back = read_bytes-append_varint (packed (suc k) vs) rest (omega (arith, size)) in
    let multiple : length (packed (suc k) vs) % suc k ≡ 0 =
      rw size (mul-mod_left (length vs) (suc k)) in
    let enough : length vs ≤ length (packed (suc k) vs) =
      omega (arith, size, mul-suc (length vs) k) in
    rw (← size, back, multiple, read_words-packed k (length (packed (suc k) vs)) out vs h enough)

-- A packed array of 32-bit words is read back behind what was in the output.
pub read_packed_fixed32-each_fixed32 :
    (out vs rest : List ℕ)
    → All (λ v. v < 2 ^ 32) vs
    → length vs * 4 < 2 ^ 64
    → read_packed_fixed32 out (append_varint (length vs * 4) ++ (each_fixed32 vs ++ rest))
      ≡ (some (true, out ++ vs), rest)
unfolding read_packed_fixed32
read_packed_fixed32-each_fixed32 out vs rest h l =
    rw (each_fixed32-packed vs) (read_packed 3 out vs rest h l)

-- A packed array of doubles, as bit patterns, is read back behind what was in the output.
pub read_packed_double-each_fixed64 :
    (out vs rest : List ℕ)
    → All (λ v. v < 2 ^ 64) vs
    → length vs * 8 < 2 ^ 64
    → read_packed_double out (append_varint (length vs * 8) ++ (each_fixed64 vs ++ rest))
      ≡ (some (true, out ++ vs), rest)
unfolding read_packed_double
read_packed_double-each_fixed64 out vs rest h l =
    rw (each_fixed64-packed vs) (read_packed 7 out vs rest h l)
