-- ===== src/Chunk/Seal.antt =====
-- Sealing an integer column keeps every value, whichever encoding `seal` chooses.
use plotjuggler_core.Prelude.{
  ℕ, zero, suc, ◌*◌, ◌^◌, ◌<◌, ◌≤◌, ◌≡◌, refl, ap, ◌∙◌, sym, subst, true, Bool-cases, inl, inr,
  List, [], ◌∷◌, ◌++◌, length, take, arith, ltb, ℤ, pos_part, ◌≤ℤ◌, ◌-ℤ◌, bits_of_ℤ, i64_of_bits,
  IsI64, Option,
}
use plotjuggler_core.Bytes.{load, take-append_length}
use plotjuggler_core.Buffer.{BitVector, replicate}
use plotjuggler_core.Buffer.Validity.{IsBytes}
use plotjuggler_core.Encoding.{
  StorageKind, storage_kind_of, storage_kind_size, raw, constant_encode, offset_bytes_for,
  integer_at, i32_of_bits,
}
use plotjuggler_core.Encoding.Doubles.{Floats, constant_decode_as_int64}
use plotjuggler_core.Encoding.FrameOfReference.{for_decode_one-for_encode}
use plotjuggler_core.Chunk.{
  ColumnDescriptor, Column, read_numeric_as_int64, scan_rows, initial_range, seal_integers, kind_of,
}
use plotjuggler_core.Chunk.Scan.{IsInteger, integer_at-IsI64, scan_rows-Scanned}

-- A column of integers as `seal` builds it.
abbrev pub sealed_column : List ℕ → StorageKind → ℕ → Option BitVector → ColumnDescriptor → Column
sealed_column bytes kind row_count bitmap desc = record {
  encoded = seal_integers bytes kind row_count;
  validity_bitmap = bitmap;
  descriptor = desc;
}

offset_bytes_for-narrow :
    (kind : StorageKind) (range : ℕ)
    → IsInteger kind
    → ltb (offset_bytes_for range) (storage_kind_size kind) ≡ true
    → range < 2 ^ 32
offset_bytes_for-narrow kind range (inl e) h = ground (arith, rw e at h)
offset_bytes_for-narrow kind range (inr e) h = ground (arith, rw e at h)

-- On 64-bit bounds the wrapped difference is the exact one.
bits_of_ℤ-range :
    (low high : ℤ)
    → IsI64 low
    → IsI64 high
    → low ≤ℤ high
    → bits_of_ℤ (high -ℤ low) ≡ pos_part (high -ℤ low)
unfolding bits_of_ℤ ◌-ℤ◌
bits_of_ℤ-range low high hl hh h = ground arith

length-take {ℓ} : {A : Type ℓ} (n : ℕ) (xs : List A) → n ≤ length xs → length (take n xs) ≡ n
length-take zero xs h = refl
length-take (suc n) [] h = absurd (omega arith)
length-take (suc n) (x ∷ xs) h = ap suc (length-take n xs (omega arith))

-- The first word of a buffer, cut out and filled up, is still its first word.
pub first_word :
    (n pad : ℕ) (bytes : List ℕ)
    → n ≤ length bytes
    → load n 0 (take n bytes ++ replicate pad 0) ≡ load n (0 * n) bytes
first_word n pad bytes h =
    let z : 0 * n ≡ 0 = omega arith in
    rw (z, take-append_length n (take n bytes) (replicate pad 0) (length-take n bytes h))

module _ (fl : Floats) where
  constant_decode-constant_encode :
      (bytes : List ℕ) (kind : StorageKind) (count : ℕ)
      → IsInteger kind
      → 0 < count
      → storage_kind_size kind ≤ length bytes
      → constant_decode_as_int64 fl (constant_encode bytes kind count) ≡ integer_at bytes kind 0
  unfolding constant_decode_as_int64 constant_encode integer_at
  constant_decode-constant_encode bytes kind count (inl e) c l =
      let some_rows : ltb 0 count ≡ true = ground arith in
      rw (e, some_rows)
        (ap i32_of_bits
          (first_word 4 4 bytes (subst (λ k. storage_kind_size k ≤ length bytes) e l)))
  constant_decode-constant_encode bytes kind count (inr e) c l =
      let some_rows : ltb 0 count ≡ true = ground arith in
      rw (e, some_rows)
        (ap i64_of_bits
          (first_word 8 0 bytes (subst (λ k. storage_kind_size k ≤ length bytes) e l)))

  element-integer_at :
      (col : Column) (bytes : List ℕ) (kind : StorageKind) (row : ℕ)
      → IsInteger kind
      → kind_of col ≡ kind
      → col.encoded ≡ raw bytes
      → read_numeric_as_int64 fl col row ≡ integer_at bytes kind row
  unfolding read_numeric_as_int64 integer_at
  element-integer_at col bytes kind row (inl k) d e = rw (e, d, k)
  element-integer_at col bytes kind row (inr k) d e = rw (e, d, k)

  -- The value buffer of an integer column of `row_count` rows is sealed into a column whose
  -- `readNumericAsInt64` gives, at every row, the integer that the buffer holds there.
  pub read_numeric_as_int64-seal_integers :
      (bytes : List ℕ) (kind : StorageKind) (row_count row : ℕ) (bitmap : Option BitVector)
      (desc : ColumnDescriptor)
      → IsInteger kind
      → storage_kind_of desc.logical_type ≡ kind
      → IsBytes bytes
      → length bytes ≡ row_count * storage_kind_size kind
      → row < row_count
      → read_numeric_as_int64 fl (sealed_column bytes kind row_count bitmap desc) row
        ≡ integer_at bytes kind row
  unfolding seal_integers read_numeric_as_int64
  read_numeric_as_int64-seal_integers bytes kind row_count row bitmap desc k d b l h =
      let s =
        scan_rows-Scanned bytes kind row_count 0 initial_range
          (λ j. integer_at-IsI64 bytes kind j k b) (omega arith, omega arith)
          (omega arith, omega arith) in
      let r = scan_rows bytes kind row_count 0 initial_range in
      let some_rows : ltb 0 row_count ≡ true = ground arith in
      let (low, high) = s.bounds row (omega arith) (omega arith) in
      elim (Bool-cases r.exact_is_constant) [
        | inl c ↦
            rw (c, some_rows)
              (constant_decode-constant_encode bytes kind row_count k (omega arith)
                  (first_row kind k l)
                ∙ sym (s.equal row (omega arith) (omega arith) c))
        | inr c ↦
            elim (Bool-cases (
              ltb (offset_bytes_for (bits_of_ℤ (r.exact_max -ℤ r.exact_min)))
                (storage_kind_size kind))) [
                  | inl e ↦
                      let range =
                        bits_of_ℤ-range r.exact_min r.exact_max s.min-IsI64 s.max-IsI64
                          (omega arith) in
                      rw (c, some_rows, e)
                        (for_decode_one-for_encode bytes kind row_count r.exact_min r.exact_max row
                          h (integer_at-IsI64 bytes kind row k b) low high
                          (omega (
                            arith,
                            range,
                            offset_bytes_for-narrow kind (bits_of_ℤ (r.exact_max -ℤ r.exact_min)) k
                                e,
                          )))
                  | inr e ↦
                      rw (c, some_rows, e)
                        (element-integer_at
                          record {
                            encoded = raw bytes;
                            validity_bitmap = bitmap;
                            descriptor = desc;
                          }
                          bytes kind row k d refl)
                ]
      ]
    where
      first_row :
          (kind : StorageKind)
          → IsInteger kind
          → length bytes ≡ row_count * storage_kind_size kind
          → storage_kind_size kind ≤ length bytes
      first_row kind (inl e) l =
          rw e (let m : length bytes ≡ row_count * 4 = rw e at l in omega arith)
      first_row kind (inr e) l =
          rw e (let m : length bytes ≡ row_count * 8 = rw e at l in omega arith)
