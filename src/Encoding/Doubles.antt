-- ===== src/Encoding/Doubles.antt =====
-- The reads of the encodings as `double`, and the conversions of a constant. Floating point is a
-- parameter: the type of doubles and the conversions that the source spells `static_cast`.
use plotjuggler_core.Prelude.{ℕ, zero, suc, ◌+◌, List, [], ◌∷◌, ℤ, pos, bits_of_ℤ, i64_of_bits}
use plotjuggler_core.Bytes.{load}
use plotjuggler_core.Encoding.{
  StorageKind, k_float32, k_float64, k_int32, k_int64, k_uint64, k_bool, k_string, ConstantEncoded,
  FrameOfReferenceEncoded, i32_of_bits, for_read_offset,
}

-- A `float` and a `double` in memory are their bit patterns.
pub record Floats : Type 1 where
  pub Double : Type 0
  pub of_float_bits : ℕ → Double
  pub of_double_bits : ℕ → Double
  pub of_int : ℤ → Double
  pub add : Double → Double → Double
  pub quiet_nan : Double
  pub int_of_float_bits : ℕ → ℤ
  pub int_of_double_bits : ℕ → ℤ
  pub unsigned_of_float_bits : ℕ → ℕ
  pub unsigned_of_double_bits : ℕ → ℕ

-- An element of a storage kind at a byte offset, converted to `double`, `int64_t` and `uint64_t`.
abbrev pub element_as_double : (fl : Floats) → StorageKind → ℕ → List ℕ → fl.Double
element_as_double fl k_float32 at bytes = fl.of_float_bits (load 4 at bytes)
element_as_double fl k_float64 at bytes = fl.of_double_bits (load 8 at bytes)
element_as_double fl k_int32 at bytes = fl.of_int (i32_of_bits (load 4 at bytes))
element_as_double fl k_int64 at bytes = fl.of_int (i64_of_bits (load 8 at bytes))
element_as_double fl k_uint64 at bytes = fl.of_int (pos (load 8 at bytes))
element_as_double fl k_bool at bytes = fl.of_int (pos 0)
element_as_double fl k_string at bytes = fl.of_int (pos 0)

abbrev pub element_as_int64 : Floats → StorageKind → ℕ → List ℕ → ℤ
element_as_int64 fl k_float32 at bytes = fl.int_of_float_bits (load 4 at bytes)
element_as_int64 fl k_float64 at bytes = fl.int_of_double_bits (load 8 at bytes)
element_as_int64 fl k_int32 at bytes = i32_of_bits (load 4 at bytes)
element_as_int64 fl k_int64 at bytes = i64_of_bits (load 8 at bytes)
element_as_int64 fl k_uint64 at bytes = i64_of_bits (load 8 at bytes)
element_as_int64 fl k_bool at bytes = pos 0
element_as_int64 fl k_string at bytes = pos 0

abbrev pub element_as_uint64 : Floats → StorageKind → ℕ → List ℕ → ℕ
element_as_uint64 fl k_float32 at bytes = fl.unsigned_of_float_bits (load 4 at bytes)
element_as_uint64 fl k_float64 at bytes = fl.unsigned_of_double_bits (load 8 at bytes)
element_as_uint64 fl k_int32 at bytes = bits_of_ℤ (i32_of_bits (load 4 at bytes))
element_as_uint64 fl k_int64 at bytes = load 8 at bytes
element_as_uint64 fl k_uint64 at bytes = load 8 at bytes
element_as_uint64 fl k_bool at bytes = 0
element_as_uint64 fl k_string at bytes = 0

module _ (fl : Floats) where
  unfoldable pub constant_decode_as_double : ConstantEncoded → fl.Double
  constant_decode_as_double enc = element_as_double fl enc.value_kind 0 enc.value_bytes

  unfoldable pub constant_decode_as_int64 : ConstantEncoded → ℤ
  constant_decode_as_int64 enc = element_as_int64 fl enc.value_kind 0 enc.value_bytes

  unfoldable pub constant_decode_as_uint64 : ConstantEncoded → ℕ
  constant_decode_as_uint64 enc = element_as_uint64 fl enc.value_kind 0 enc.value_bytes

  unfoldable pub for_decode_one_as_double : FrameOfReferenceEncoded → ℕ → fl.Double
  unfolding for_read_offset
  for_decode_one_as_double enc row =
      fl.add (fl.of_int enc.reference)
        (fl.of_int (pos (for_read_offset enc.offsets row enc.offset_bytes)))

  -- The loop over `n` rows from `row` on.
  unfoldable pub for_decode_range_as_doubles : FrameOfReferenceEncoded → ℕ → ℕ → List fl.Double
  unfolding for_read_offset
  for_decode_range_as_doubles enc zero row = []
  for_decode_range_as_doubles enc (suc n) row =
      fl.add (fl.of_int enc.reference)
        (fl.of_int (pos (for_read_offset enc.offsets row enc.offset_bytes)))
      ∷ for_decode_range_as_doubles enc n (row + 1)
