-- ===== src/Chunk/Reads.antt =====
-- The bulk read of a column agrees with reading its rows one by one.
use plotjuggler_core.Prelude.{
  ℕ, zero, suc, ◌+◌, ◌<◌, ◌≡◌, ◌≢◌, refl, ap, ◌∙◌, Bool, true, false, not, Option, none, some, List,
  [], ◌∷◌, get_elem?, arith, ◌==◌, if◌then◌else◌,
}
use mathlib.Core.Option.{some-injective}
use plotjuggler_core.Buffer.{BitVector, RawBuffer, is_valid}
use plotjuggler_core.Encoding.{
  StorageKind, EncodedData, raw, constant, frame_of_reference, dictionary, packed_bools,
  FrameOfReferenceEncoded,
}
use plotjuggler_core.Encoding.Doubles.{
  Floats, for_decode_range_as_doubles, for_decode_one_as_double,
}
use plotjuggler_core.Chunk.{
  Column, ColumnDescriptor, kind_of, is_null, read_numeric_as_double, fill, convert, is_numeric,
  bulk_values, replace_nulls, read_column_as_doubles, read_raw_as_double,
}

-- A column of numbers: not of strings or of bools, packed, raw or constant.
abbrev pub IsNumeric : Floats → Column → Type 0
IsNumeric fl col = elim col.encoded [
  | raw buf ↦ is_numeric fl (kind_of col) ≡ true
  | constant enc ↦ is_numeric fl (kind_of col) ≡ true
  | frame_of_reference enc ↦ is_numeric fl (kind_of col) ≡ true
  | dictionary enc ↦ ⊥
  | packed_bools enc ↦ ⊥
]

-- A bitmap that is there tells of some row.
abbrev pub HasBits : Option BitVector → Type 0
HasBits none = Unit {0}
HasBits (some bm) = bm.bit_count ≢ 0

shift : (row i : ℕ) → row + 1 + i ≡ row + suc i
shift row i = omega arith

start : (row : ℕ) → row ≡ row + 0
start row = omega arith

module _ (fl : Floats) where
  get_elem?-fill : (n i : ℕ) (v : fl.Double) → i < n → get_elem? (fill fl n v) i ≡ some v
  get_elem?-fill zero i v h = absurd (omega arith)
  get_elem?-fill (suc n) zero v h = refl
  get_elem?-fill (suc n) (suc i) v h = get_elem?-fill n i v (omega arith)

  get_elem?-convert :
      (buf : RawBuffer) (kind : StorageKind) (n row i : ℕ)
      → i < n
      → get_elem? (convert fl buf kind n row) i ≡ some (read_raw_as_double fl buf kind (row + i))
  get_elem?-convert buf kind zero row i h = absurd (omega arith)
  get_elem?-convert buf kind (suc n) row zero h =
      ap (λ k. some (read_raw_as_double fl buf kind k)) (start row)
  get_elem?-convert buf kind (suc n) row (suc i) h =
      get_elem?-convert buf kind n (row + 1) i (omega arith)
      ∙ ap (λ k. some (read_raw_as_double fl buf kind k)) (shift row i)

  get_elem?-for_decode_range :
      (enc : FrameOfReferenceEncoded) (n row i : ℕ)
      → i < n
      → get_elem? (for_decode_range_as_doubles fl enc n row) i
        ≡ some (for_decode_one_as_double fl enc (row + i))
  unfolding for_decode_range_as_doubles for_decode_one_as_double
  get_elem?-for_decode_range enc zero row i h = absurd (omega arith)
  get_elem?-for_decode_range enc (suc n) row zero h =
      ap (λ k. some (for_decode_one_as_double fl enc k)) (start row)
  get_elem?-for_decode_range enc (suc n) row (suc i) h =
      get_elem?-for_decode_range enc n (row + 1) i (omega arith)
      ∙ ap (λ k. some (for_decode_one_as_double fl enc k)) (shift row i)

  bulk_values-row :
      (enc_data : EncodedData) (bitmap : Option BitVector) (desc : ColumnDescriptor)
      (count row_start i : ℕ)
      → IsNumeric fl record { encoded = enc_data; validity_bitmap = bitmap; descriptor = desc }
      → i < count
      → get_elem?
          (bulk_values fl
            record { encoded = enc_data; validity_bitmap = bitmap; descriptor = desc }
            count
            row_start)
          i
        ≡ some (
            read_numeric_as_double fl
              record { encoded = enc_data; validity_bitmap = bitmap; descriptor = desc }
              (row_start + i))
  unfolding bulk_values read_numeric_as_double
  bulk_values-row (raw buf) bitmap desc count row_start i h l =
      rw h (get_elem?-convert buf _ count row_start i l)
  bulk_values-row (constant enc) bitmap desc count row_start i h l = get_elem?-fill count i _ l
  bulk_values-row (frame_of_reference enc) bitmap desc count row_start i h l =
      get_elem?-for_decode_range enc count row_start i l
  bulk_values-row (dictionary enc) bitmap desc count row_start i h l = absurd h
  bulk_values-row (packed_bools enc) bitmap desc count row_start i h l = absurd h

  get_elem?-replace_nulls :
      (bm : BitVector) (row i : ℕ) (vs : List fl.Double) (v : fl.Double)
      → get_elem? vs i ≡ some v
      → get_elem? (replace_nulls fl bm row vs) i
        ≡ some (if is_valid (row + i) bm then v else fl.quiet_nan)
  get_elem?-replace_nulls bm row i [] v h = absurd (cc)
  get_elem?-replace_nulls bm row zero (x ∷ vs) v h = ap some (
      ap (λ k. if is_valid k bm then x else fl.quiet_nan) (start row)
      ∙ ap (λ y. if is_valid (row + 0) bm then y else fl.quiet_nan) (some-injective _ _ h))
  get_elem?-replace_nulls bm row (suc i) (x ∷ vs) v h =
      get_elem?-replace_nulls bm (row + 1) i vs v h
      ∙ ap (λ k. some (if is_valid k bm then v else fl.quiet_nan)) (shift row i)

  swap :
      (b : Bool) (v : fl.Double)
      → some (if b then v else fl.quiet_nan) ≡ some (if not b then fl.quiet_nan else v)
  swap true v = refl
  swap false v = refl

  -- At every row of a numeric column, none of strings or bools however encoded, whose bitmap, if it
  -- has one, is not empty, the bulk read gives what `readNumericAsDouble` gives, or NaN where the
  -- row is null.
  pub read_column_as_doubles-row :
      (col : Column) (count row_start i : ℕ)
      → IsNumeric fl col
      → HasBits col.validity_bitmap
      → i < count
      → get_elem? (read_column_as_doubles fl col count row_start) i
        ≡ some (
            if is_null col (row_start + i)
            then fl.quiet_nan
            else read_numeric_as_double fl col (row_start + i))
  unfolding read_column_as_doubles is_null read_numeric_as_double
  read_column_as_doubles-row col count row_start i num bits h =
      by_bitmap col.validity_bitmap refl bits
    where
      value :
          get_elem? (bulk_values fl col count row_start) i
          ≡ some (read_numeric_as_double fl col (row_start + i))
      value = bulk_values-row col.encoded col.validity_bitmap col.descriptor count row_start i num h

      by_bitmap :
          (b : Option BitVector)
          → col.validity_bitmap ≡ b
          → HasBits b
          → get_elem? (read_column_as_doubles fl col count row_start) i
            ≡ some (
                if is_null col (row_start + i)
                then fl.quiet_nan
                else read_numeric_as_double fl col (row_start + i))
      by_bitmap none e hb = rw (e, read_column_as_doubles, is_null) value
      by_bitmap (some bm) e hb =
          let told : (bm.bit_count == 0) ≡ false = ground arith in
          rw (e, read_column_as_doubles, is_null, told)
            (get_elem?-replace_nulls bm row_start i (bulk_values fl col count row_start) _ value
              ∙ swap (is_valid (row_start + i) bm) _)
