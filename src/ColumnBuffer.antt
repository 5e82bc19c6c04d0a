-- ===== src/ColumnBuffer.antt =====
-- The typed column buffer that rows are appended to before a chunk is sealed:
-- pj_datastore/src/column_buffer.cpp with its header. A value of a fixed-size type is its word, and
-- the six typed appends and reads are those of the word at the size of their type.
pub mod Validity
pub mod Marks
pub mod FirstNull
pub mod Flags
pub mod Rows
pub mod Restamp
pub mod Appends
pub mod Strings
pub mod StringAppends
mod Tests
use plotjuggler_core.Prelude.{
  ℕ, zero, suc, ◌+◌, ◌-◌, ◌*◌, ◌%◌, ◌^◌, Bool, true, false, not, List, [], ◌∷◌, ◌++◌, length,
  get_or, take, drop, ltb, ◌==◌, if◌then◌else◌,
}
use plotjuggler_core.Bytes.{le_bytes, load, packed}
use plotjuggler_core.Buffer.{
  RawBuffer, BitVector, BitSpan, append, empty_bits, init_valid, ensure_size, set_valid, set_null,
  is_valid, test,
}
use plotjuggler_core.Encoding.{
  StorageKind, k_float32, k_float64, k_int32, k_int64, k_uint64, k_bool, k_string, storage_kind_of,
  storage_kind_size,
}
use plotjuggler_core.Encoding.Doubles.{Floats, element_as_double}
use plotjuggler_core.Prelude.{pos}
use plotjuggler_core.Chunk.{ColumnDescriptor}

pub record TypedColumnBuffer : Type 0 where
  pub descriptor : ColumnDescriptor
  pub values : RawBuffer
  pub offsets : RawBuffer
  pub validity : BitVector
  pub validity_initialized : Bool
  pub row_count : ℕ
  pub null_count : ℕ

unfoldable pub new_column : ColumnDescriptor → TypedColumnBuffer
new_column descriptor = record {
  descriptor = descriptor;
  values = [];
  offsets = [];
  validity = empty_bits;
  validity_initialized = false;
  row_count = 0;
  null_count = 0;
}

abbrev pub storage_kind : TypedColumnBuffer → StorageKind
storage_kind c = storage_kind_of c.descriptor.logical_type

unfoldable pub has_nulls : TypedColumnBuffer → Bool
has_nulls c = ltb 0 c.null_count

unfoldable pub is_valid_row : ℕ → TypedColumnBuffer → Bool
is_valid_row row c = if c.validity_initialized then is_valid row c.validity else true

unfoldable pub is_null : ℕ → TypedColumnBuffer → Bool
is_null row c = if c.validity_initialized then not (is_valid row c.validity) else false

-- The bitmap after `ensureValidityInitialized`.
unfoldable pub ensure_validity_initialized : TypedColumnBuffer → BitVector
ensure_validity_initialized c =
    if c.validity_initialized then c.validity else init_valid c.row_count c.validity

-- The loop over the rows from `i` on, `count` of them.
unfoldable pub set_valid_range : ℕ → ℕ → BitVector → BitVector
set_valid_range zero i v = v
set_valid_range (suc count) i v = set_valid_range count (i + 1) (set_valid i v)

unfoldable pub append_fixed : ℕ → ℕ → TypedColumnBuffer → TypedColumnBuffer
unfolding append
append_fixed size value c = record c {
  values = append (le_bytes size value) c.values;
  validity =
      if c.validity_initialized
      then set_valid c.row_count (ensure_size (c.row_count + 1) c.validity)
      else c.validity;
  row_count = c.row_count + 1;
}

abbrev pub append_bool : Bool → TypedColumnBuffer → TypedColumnBuffer
append_bool value = append_fixed 1 (if value then 1 else 0)

-- The offsets with the initial zero of a first row.
unfoldable pub first_offset : TypedColumnBuffer → RawBuffer
unfolding append
first_offset c = if c.row_count == 0 then append (le_bytes 4 0) c.offsets else c.offsets

abbrev pub u32 : ℕ → ℕ
u32 n = n % 2 ^ 32

unfoldable pub append_string : List ℕ → TypedColumnBuffer → TypedColumnBuffer
unfolding append
append_string value c = record c {
  values = append value c.values;
  offsets = append (le_bytes 4 (u32 (length (append value c.values)))) (first_offset c);
  validity =
      if c.validity_initialized
      then set_valid c.row_count (ensure_size (c.row_count + 1) c.validity)
      else c.validity;
  row_count = c.row_count + 1;
}

abbrev null_offsets : StorageKind → TypedColumnBuffer → RawBuffer
null_offsets k_string c = append (le_bytes 4 (u32 (length c.values))) (first_offset c)
null_offsets _ c = c.offsets

-- `le_bytes n 0` are the first `n` bytes of a zero word; a string takes none.
unfoldable pub append_null : TypedColumnBuffer → TypedColumnBuffer
unfolding append
append_null c = record c {
  values = append (le_bytes (storage_kind_size (storage_kind c)) 0) c.values;
  offsets = null_offsets (storage_kind c) c;
  validity = set_null c.row_count (ensure_size (c.row_count + 1) (ensure_validity_initialized c));
  validity_initialized = true;
  row_count = c.row_count + 1;
  null_count = c.null_count + 1;
}

-- What the bulk appends do to the bitmap, for `count` new rows.
unfoldable pub extend_validity : ℕ → TypedColumnBuffer → BitVector
extend_validity count c =
    if c.validity_initialized
    then set_valid_range count c.row_count (ensure_size (c.row_count + count) c.validity)
    else c.validity

unfoldable pub append_fixed_bulk : ℕ → List ℕ → TypedColumnBuffer → TypedColumnBuffer
unfolding append
append_fixed_bulk size [] c = c
append_fixed_bulk size (v ∷ vs) c = record c {
  values = append (packed size (v ∷ vs)) c.values;
  validity = extend_validity (length (v ∷ vs)) c;
  row_count = c.row_count + length (v ∷ vs);
}

-- A 32-bit difference.
abbrev pub sub_u32 : ℕ → ℕ → ℕ
sub_u32 a b = u32 (a + 2 ^ 32 - b)

-- The loop that rebases the offsets.
unfoldable pub rebase : ℕ → ℕ → List ℕ → List ℕ
rebase base src_base [] = []
rebase base src_base (o ∷ os) = u32 (base + sub_u32 o src_base) ∷ rebase base src_base os

-- `front` is `offsets[0]`, `os` the offsets behind it, of which there is one for each string.
unfoldable pub append_strings_from : ℕ → List ℕ → List ℕ → TypedColumnBuffer → TypedColumnBuffer
unfolding append
append_strings_from front os bytes c = record c {
  values =
      append (take (sub_u32 (get_or (front ∷ os) (length os) 0) front) (drop front bytes)) c.values;
  offsets = append (packed 4 (rebase (u32 (length c.values)) front os)) (first_offset c);
  validity = extend_validity (length os) c;
  row_count = c.row_count + length os;
}

unfoldable pub append_strings_bulk : List ℕ → List ℕ → TypedColumnBuffer → TypedColumnBuffer
append_strings_bulk [] bytes c = c
append_strings_bulk (front ∷ []) bytes c = c
append_strings_bulk (front ∷ o ∷ os) bytes c = append_strings_from front (o ∷ os) bytes c

-- The loop over the bits from `i` on, `count` of them, and the nulls it counts.
unfoldable pub apply_validity : ℕ → ℕ → ℕ → BitSpan → BitVector → BitVector
apply_validity zero i start_row span v = v
apply_validity (suc count) i start_row span v =
    apply_validity count (i + 1) start_row span
      (if test i span then set_valid (start_row + i) v else set_null (start_row + i) v)

unfoldable pub count_invalid : ℕ → ℕ → BitSpan → ℕ
count_invalid zero i span = 0
count_invalid (suc count) i span = (if test i span then 0 else 1) + count_invalid count (i + 1) span

unfoldable pub append_validity_bulk : BitSpan → TypedColumnBuffer → TypedColumnBuffer
append_validity_bulk span c = if span.bit_length == 0 then c else record c {
  validity =
      apply_validity span.bit_length 0 (c.row_count - span.bit_length) span
        (ensure_size c.row_count (ensure_validity_initialized c));
  validity_initialized = true;
  null_count = c.null_count + count_invalid span.bit_length 0 span;
}

-- A row out of range is undefined behaviour in the source; here the bytes that are missing read
-- as zeros.
unfoldable pub read_fixed : ℕ → ℕ → TypedColumnBuffer → ℕ
read_fixed size row c = load size (row * size) c.values

unfoldable pub read_bool : ℕ → TypedColumnBuffer → Bool
unfolding read_fixed
read_bool row c = not (read_fixed 1 row c == 0)

unfoldable pub read_string : ℕ → TypedColumnBuffer → List ℕ
read_string row c =
    let start_offset = load 4 (row * 4) c.offsets in
    let end_offset = load 4 ((row + 1) * 4) c.offsets in
    take (sub_u32 end_offset start_offset) (drop start_offset c.values)

abbrev pub kind_as_double : (fl : Floats) → StorageKind → ℕ → TypedColumnBuffer → fl.Double
kind_as_double fl k_float32 row c = fl.of_float_bits (read_fixed 4 row c)
kind_as_double fl k_float64 row c = fl.of_double_bits (read_fixed 8 row c)
kind_as_double fl k_int32 row c = element_as_double fl k_int32 (row * 4) c.values
kind_as_double fl k_int64 row c = element_as_double fl k_int64 (row * 8) c.values
kind_as_double fl k_uint64 row c = fl.of_int (pos (read_fixed 8 row c))
kind_as_double fl k_bool row c = fl.of_int (pos (if read_bool row c then 1 else 0))
kind_as_double fl k_string row c = fl.quiet_nan

abbrev pub read_as_double : (fl : Floats) → ℕ → TypedColumnBuffer → fl.Double
read_as_double fl row c = kind_as_double fl (storage_kind c) row c
