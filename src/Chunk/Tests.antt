-- ===== src/Chunk/Tests.antt =====
-- A sealed column of three integers, one of them null, read row by row and in bulk.
use plotjuggler_core.Prelude.{
  ℕ, ◌≤◌, ◌<◌, ◌≡◌, refl, inl, inr, Bool, true, false, Option, some, none, List, [], ◌∷◌, get_elem?,
  arith, if◌then◌else◌, ℤ, pos, negsuc, ◌+ℤ◌, i64_of_bits, bits_of_ℤ,
}
use plotjuggler_core.Bytes.{packed}
use plotjuggler_core.Buffer.{BitVector}
use plotjuggler_core.Encoding.{
  int32, k_int32, bool, k_bool, integer_at, raw, constant, constant_encode,
}
use plotjuggler_core.Encoding.Doubles.{Floats, constant_decode_as_double}
use plotjuggler_core.Chunk.{
  ColumnDescriptor, Column, scan_rows, seal_integers, column_encoding, k_frame_of_reference,
  read_numeric_as_int64, read_column_as_doubles, is_null, read_numeric_as_double, bulk_values,
}
use plotjuggler_core.Chunk.Seal.{sealed_column, read_numeric_as_int64-seal_integers}
use plotjuggler_core.Chunk.Reads.{read_column_as_doubles-row}

-- Doubles that are integers, and floats that are their bits.
abbrev pub integers : Floats
integers = record {
  Double = ℤ;
  of_float_bits = λ b. pos b;
  of_double_bits = λ b. i64_of_bits b;
  of_int = λ z. z;
  add = λ a b. a +ℤ b;
  quiet_nan = negsuc 999;
  int_of_float_bits = λ b. pos b;
  int_of_double_bits = λ b. i64_of_bits b;
  unsigned_of_float_bits = λ b. b;
  unsigned_of_double_bits = λ b. b;
}

-- 100, -2 and 40 as `int32_t`.
abbrev three_rows : List ℕ
three_rows = packed 4 (100 ∷ 4294967294 ∷ 40 ∷ [])

abbrev pub int_descriptor : ColumnDescriptor
int_descriptor = record { field_id = 0; logical_type = int32; field_path = "x" }

abbrev middle_null : BitVector
middle_null = record { bytes = 5 ∷ []; bit_count = 3 }

abbrev pub int_column : Column
int_column = sealed_column three_rows k_int32 3 (some middle_null) int_descriptor

narrowed : column_encoding int_column ≡ k_frame_of_reference
unfolding seal_integers scan_rows bits_of_ℤ plotjuggler_core.Prelude.◌-ℤ◌
narrowed = refl

read_numeric_as_int64-seal_integers_example :
    read_numeric_as_int64 integers int_column 1 ≡ integer_at three_rows k_int32 1
read_numeric_as_int64-seal_integers_example =
    read_numeric_as_int64-seal_integers integers three_rows k_int32 3 1 (some middle_null)
      int_descriptor (inl refl) refl
      (
        omega arith,
        (
          omega arith,
          (
            omega arith,
            (
              omega arith,
              (
                omega arith,
                (
                  omega arith,
                  (
                    omega arith,
                    (omega arith, (omega arith, (omega arith, (omega arith, (omega arith, tt))))),
                  ),
                ),
              ),
            ),
          ),
        ),
      )
      refl (omega arith)

abbrev raw_column : Column
raw_column = record {
  encoded = raw three_rows;
  validity_bitmap = some middle_null;
  descriptor = int_descriptor;
}

-- A sealed column of bools that are all true: the bulk read fills it with 0, not with NaN.
abbrev constant_bools : Column
constant_bools = record {
  encoded = constant (constant_encode (1 ∷ 1 ∷ []) k_bool 2);
  validity_bitmap = none;
  descriptor = record { field_id = 0; logical_type = bool; field_path = "x" };
}

bools_read_as_zero : read_column_as_doubles integers constant_bools 2 0 ≡ pos 0 ∷ pos 0 ∷ []
unfolding read_column_as_doubles bulk_values constant_decode_as_double constant_encode
bools_read_as_zero = refl

read_column_as_doubles-row_example :
    get_elem? (read_column_as_doubles integers raw_column 2 1) 1
    ≡ some (
        if is_null raw_column 2
        then integers.quiet_nan
        else read_numeric_as_double integers raw_column 2)
read_column_as_doubles-row_example =
    read_column_as_doubles-row integers raw_column 2 1 1 refl (λ e. omega (arith, e)) (omega arith)
