-- ===== src/ChunkBuilder/Tests.antt =====
-- Columns that are built and sealed on concrete cells.
use plotjuggler_core.Prelude.{
  ℕ, ◌+◌, ◌-◌, ◌%◌, ◌^◌, ◌<◌, ◌≡◌, refl, ◌⊎◌, inr, true, false, not, none, some, Option, List, [],
  ◌∷◌, ltb, if◌then◌else◌, arith, ℤ, pos, negsuc, eqb_ℤ, ltb_ℤ, ◌+ℤ◌, i64_of_bits,
}
use plotjuggler_core.Encoding.{float64, uint64, k_uint64}
use plotjuggler_core.Bytes.{bit_on, bit_off}
use plotjuggler_core.Buffer.{test, set_valid, set_null, ensure_size, init_valid}
use plotjuggler_core.ColumnBuffer.{
  new_column, append_fixed_bulk, append_validity_bulk, apply_validity, count_invalid,
  ensure_validity_initialized,
}
use plotjuggler_core.ColumnBuffer.Flags.{valid_slot}
use plotjuggler_core.Chunk
use plotjuggler_core.Chunk.{ColumnDescriptor, read_numeric_as_double, read_numeric_as_uint64}
use plotjuggler_core.ChunkBuilder.{
  Doubles, BuilderColumn, new_builder_column, set_word, seal_data, seal_column,
  compute_bulk_numeric_stats,
}
use plotjuggler_core.ChunkBuilder.Builder.{append_column, append_column_validity}
use plotjuggler_core.ChunkBuilder.Built.{Faithful, set_cells}
use plotjuggler_core.ChunkBuilder.Sealed.{set_cells-seal_column}

-- Doubles that are integers, with a given conversion.
abbrev doubles_with : (ℤ → ℤ) → Doubles
doubles_with convert = record {
  floats = record {
    Double = ℤ;
    of_float_bits = λ b. pos b;
    of_double_bits = λ b. pos b;
    of_int = convert;
    add = λ a b. a +ℤ b;
    quiet_nan = negsuc 999;
    int_of_float_bits = λ b. pos b;
    int_of_double_bits = λ b. i64_of_bits b;
    unsigned_of_float_bits = λ b. b;
    unsigned_of_double_bits = λ b. b;
  };
  less = ltb_ℤ;
  differs = λ a b. not (eqb_ℤ a b);
  max = pos (2 ^ 64);
  lowest = negsuc (2 ^ 64);
}

abbrev exact : Doubles
exact = doubles_with (λ z. z)

abbrev counter : ColumnDescriptor
counter = record { field_id = 0; logical_type = uint64; field_path = "counter" }

abbrev level : ColumnDescriptor
level = record { field_id = 1; logical_type = float64; field_path = "level" }

abbrev Word : ℕ → Type 0
Word w = w < 256 ^ 8

counter-Faithful : Faithful exact k_uint64 Word
counter-Faithful = record {
  zero_in = omega arith;
  fits = λ w h. h;
  zero_value = refl;
  tells_apart = λ v w hv hw e. ground arith;
}

abbrev cells : List (Option ℕ)
cells = none ∷ some 5 ∷ some 5 ∷ []

set_cells-seal_column_example :
    (Chunk.is_null (seal_column exact (set_cells exact cells (new_builder_column exact counter))) 2
      ≡ not true)
    × ((true ≡ false)
        ⊎ (read_numeric_as_double exact.floats
              (seal_column exact (set_cells exact cells (new_builder_column exact counter)))
              2
            ≡ pos 5))
set_cells-seal_column_example =
    set_cells-seal_column exact counter Word cells 2 (valid_slot 5) (inr (inr refl))
      counter-Faithful (omega arith, (omega arith, tt)) refl

-- From 2^63 on a double is a multiple of 2048, the nearest one.
abbrev nearest : ℤ → ℤ
nearest (pos n) = if ltb n (2 ^ 63) then pos n else pos (n + 1024 - (n + 1024) % 2048)
nearest (negsuc n) = negsuc n

abbrev rounded : Doubles
rounded = doubles_with nearest

-- Two unsigned integers that convert to the same double are sealed as a constant, and the second
-- reads as the first.
counter_lost :
    read_numeric_as_uint64 rounded.floats
      (seal_column rounded (
        set_cells rounded
          (some (2 ^ 63) ∷ some (2 ^ 63 + 1) ∷ [])
          (new_builder_column rounded counter)))
      1
    ≡ 2 ^ 63
unfolding read_numeric_as_uint64 seal_column set_cells seal_data set_word new_column
counter_lost = refl

-- In bulk, a null in the first row and equal values behind it are sealed as a constant, which is
-- the word in the null's place.
abbrev bulk_level : BuilderColumn exact
bulk_level =
    append_column_validity exact (record { bytes = 6 ∷ []; bit_offset = 0; bit_length = 3 })
      (append_column exact (0 ∷ 7 ∷ 7 ∷ []) (new_builder_column exact level))

level_lost :
    (Chunk.is_null (seal_column exact (compute_bulk_numeric_stats exact 0 3 bulk_level)) 1 ≡ false)
    × (read_numeric_as_double exact.floats
          (seal_column exact (compute_bulk_numeric_stats exact 0 3 bulk_level))
          1
        ≡ pos 0)
unfolding read_numeric_as_double seal_column compute_bulk_numeric_stats Chunk.is_null
    append_validity_bulk append_fixed_bulk new_column count_invalid test apply_validity set_valid
    set_null ensure_size ensure_validity_initialized init_valid bit_on bit_off seal_data
level_lost = (refl, refl)
