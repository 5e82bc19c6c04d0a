-- ===== src/ChunkBuilder.antt =====
-- The builder of a chunk: `TopicChunkBuilder` of pj_datastore/src/chunk.cpp with its header. The
-- assertions are preconditions and leave no trace. Doubles are a parameter, as in the encodings,
-- with their two comparisons.
pub mod Builder
pub mod Built
pub mod Sealed
pub mod Nulls
mod Tests
use plotjuggler_core.Prelude.{
  ℕ, zero, suc, ◌+◌, ◌-◌, ◌*◌, ◌%◌, ◌^◌, Bool, true, false, not, ◌&&◌, ◌||◌, Option, none, some,
  List, [], ◌∷◌, ◌++◌, length, get_or, set, last?, take, ltb, leb, ◌==◌, if◌then◌else◌, ℤ, pos,
  negsuc, ltb_ℤ, i64_of_bits,
}
use plotjuggler_core.Bytes.{load}
use plotjuggler_core.Buffer.{BitVector, BitSpan, assign_bytes, empty_bits}
use plotjuggler_core.Encoding.{
  StorageKind, k_float32, k_float64, k_int32, k_int64, k_uint64, k_bool, k_string,
  storage_kind_size, EncodedData, raw, constant, dictionary, packed_bools, constant_encode,
  dictionary_encode_strings, pack_bools, i32_of_bits,
}
use plotjuggler_core.Encoding.Doubles.{Floats}
use plotjuggler_core.ColumnBuffer.{
  TypedColumnBuffer, new_column, storage_kind, has_nulls, is_valid_row, append_fixed, append_string,
  append_null, append_fixed_bulk, append_strings_bulk, append_validity_bulk, read_fixed,
  read_string,
}
use plotjuggler_core.Chunk.{
  ColumnDescriptor, ChunkStats, Column, TopicChunk, seal_integers, min_ℤ, max_ℤ,
}

pub record Doubles : Type 1 where
  pub floats : Floats
  pub less : floats.Double → floats.Double → Bool
  pub differs : floats.Double → floats.Double → Bool
  pub max : floats.Double
  pub lowest : floats.Double

abbrev pub u32 : ℕ → ℕ
u32 n = n % 2 ^ 32

abbrev same_bytes : List ℕ → List ℕ → Bool
same_bytes [] [] = true
same_bytes [] (b ∷ bs) = false
same_bytes (a ∷ more) [] = false
same_bytes (a ∷ more) (b ∷ bs) = a == b && same_bytes more bs

module _ (d : Doubles) where
  abbrev Double : Type 0
  Double = d.floats.Double

  pub record ColumnStats : Type 0 where
    pub null_count : ℕ
    pub run_count : ℕ
    pub is_constant : Bool
    pub min_value : Option Double
    pub max_value : Option Double

  -- A column of the builder: its buffer, its statistics, and its last value.
  pub record BuilderColumn : Type 0 where
    pub buffer : TypedColumnBuffer
    pub stats : ColumnStats
    pub last_value : Double

  -- A word as a `double`.
  abbrev pub to_double : StorageKind → ℕ → Double
  to_double k_float32 w = d.floats.of_float_bits w
  to_double k_float64 w = d.floats.of_double_bits w
  to_double k_int32 w = d.floats.of_int (i32_of_bits w)
  to_double k_int64 w = d.floats.of_int (i64_of_bits w)
  to_double k_uint64 w = d.floats.of_int (pos w)
  to_double k_bool w = d.floats.of_int (pos (if w == 0 then 0 else 1))
  to_double k_string w = d.floats.of_int (pos 0)

  abbrev pub new_builder_column : ColumnDescriptor → BuilderColumn
  new_builder_column descriptor = record {
    buffer = new_column descriptor;
    stats = record {
      null_count = 0;
      run_count = 0;
      is_constant = true;
      min_value = none;
      max_value = none;
    };
    last_value = d.floats.of_int (pos 0);
  }

  abbrev lower : Option Double → Double → Option Double
  lower none v = some v
  lower (some m) v = if d.less v m then some v else some m

  abbrev upper : Option Double → Double → Option Double
  upper none v = some v
  upper (some m) v = if d.less m v then some v else some m

  -- `updateColumnStats` on a column of which `row` is the current row.
  unfoldable pub update_column_stats : ℕ → Double → Double → ColumnStats → ColumnStats
  update_column_stats row last value cs =
      let new_run = not (row == 0) && d.differs value last in
      record cs {
        min_value = lower cs.min_value value;
        max_value = upper cs.max_value value;
        is_constant = cs.is_constant && not new_run;
        run_count =
            if row == 0 then 1 else (if new_run then u32 (cs.run_count + 1) else cs.run_count);
      }

  -- `set` of a fixed-size type; the current row is the one that the append adds.
  unfoldable pub set_word : ℕ → BuilderColumn → BuilderColumn
  unfolding update_column_stats append_fixed
  set_word word c =
      let kind = storage_kind c.buffer in
      record {
        buffer = append_fixed (storage_kind_size kind) word c.buffer;
        stats = update_column_stats c.buffer.row_count c.last_value (to_double kind word) c.stats;
        last_value = to_double kind word;
      }

  unfoldable pub set_string : List ℕ → BuilderColumn → BuilderColumn
  unfolding append_string read_string
  set_string value c =
      let row = c.buffer.row_count in
      let new_run = not (row == 0) && not (same_bytes value (read_string (row - 1) c.buffer)) in
      record c {
        buffer = append_string value c.buffer;
        stats = record c.stats {
          is_constant = c.stats.is_constant && not new_run;
          run_count =
              if row == 0
              then 1
              else (if new_run then u32 (c.stats.run_count + 1) else c.stats.run_count);
        };
      }

  unfoldable pub set_null : BuilderColumn → BuilderColumn
  unfolding append_null
  set_null c = record c {
    buffer = append_null c.buffer;
    stats = record c.stats { null_count = u32 (c.stats.null_count + 1) };
  }

  -- The statistics while `computeBulkNumericStats` runs.
  pub record BulkState : Type 0 where
    pub local_min : Double
    pub local_max : Double
    pub prev : Double
    pub had_valid : Bool
    pub stats : ColumnStats

  abbrev bulk_valid : Double → BulkState → BulkState
  bulk_valid v s =
      let new_run = s.had_valid && d.differs v s.prev in
      record {
        local_min = if d.less v s.local_min then v else s.local_min;
        local_max = if d.less s.local_max v then v else s.local_max;
        prev = v;
        had_valid = true;
        stats = record s.stats {
          is_constant = s.stats.is_constant && not new_run;
          run_count =
              if s.had_valid
              then (if new_run then u32 (s.stats.run_count + 1) else s.stats.run_count)
              else 1;
        };
      }

  abbrev bulk_null : BulkState → BulkState
  bulk_null s = record s { stats = record s.stats { null_count = u32 (s.stats.null_count + 1) } }

  -- The loop, `count` rows from `row` on.
  unfoldable pub bulk_rows : TypedColumnBuffer → ℕ → ℕ → BulkState → BulkState
  unfolding has_nulls is_valid_row read_fixed
  bulk_rows b zero row s = s
  bulk_rows b (suc count) row s = bulk_rows b count (row + 1) (
      if has_nulls b && not (is_valid_row row b)
      then bulk_null s
      else bulk_valid
          (to_double (storage_kind b) (read_fixed (storage_kind_size (storage_kind b)) row b)) s)

  abbrev or_value : Option Double → Double → Double
  or_value none v = v
  or_value (some w) v = w

  unfoldable pub compute_bulk_numeric_stats : ℕ → ℕ → BuilderColumn → BuilderColumn
  unfolding bulk_rows
  compute_bulk_numeric_stats first_row count c =
      let start : BulkState = record {
        local_min = or_value c.stats.min_value d.max;
        local_max = or_value c.stats.max_value d.lowest;
        prev = c.last_value;
        had_valid = ltb 0 c.stats.run_count;
        stats = c.stats;
      } in
      let s = bulk_rows c.buffer count first_row start in
      if count == 0 then c else record c {
        stats =
            if s.had_valid
            then record s.stats { min_value = some s.local_min; max_value = some s.local_max }
            else s.stats;
        last_value = s.prev;
      }

  -- The last valid string before a row.
  unfoldable pub last_valid_string : TypedColumnBuffer → ℕ → Option (List ℕ)
  unfolding has_nulls is_valid_row read_string
  last_valid_string b zero = none
  last_valid_string b (suc j) =
      let rest = last_valid_string b j in
      if not (has_nulls b) || is_valid_row j b then some (read_string j b) else rest

  abbrev string_run : List ℕ → Option (List ℕ) → ColumnStats → ColumnStats
  string_run current none cs = record cs { run_count = 1 }
  string_run current (some before) cs =
      if same_bytes current before
      then cs
      else record cs { is_constant = false; run_count = u32 (cs.run_count + 1) }

  unfoldable pub bulk_strings :
      TypedColumnBuffer → ℕ → ℕ → Option (List ℕ) → ColumnStats → ColumnStats
  unfolding has_nulls is_valid_row read_string
  bulk_strings b zero row last cs = cs
  bulk_strings b (suc count) row last cs =
      let is_null = has_nulls b && not (is_valid_row row b) in
      bulk_strings b count (row + 1) (if is_null then last else some (read_string row b)) (
        if is_null
        then record cs { null_count = u32 (cs.null_count + 1) }
        else string_run (read_string row b) last cs)

  unfoldable pub compute_bulk_string_stats : ℕ → ℕ → BuilderColumn → BuilderColumn
  unfolding bulk_strings last_valid_string
  compute_bulk_string_stats first_row count c =
      let last = if ltb 0 c.stats.run_count then last_valid_string c.buffer first_row else none in
      record c { stats = bulk_strings c.buffer count first_row last c.stats }

  abbrev by_kind : StorageKind → EncodedData → EncodedData → EncodedData → EncodedData → EncodedData
  by_kind k_string strings bools integers other = strings
  by_kind k_bool strings bools integers other = bools
  by_kind k_int32 strings bools integers other = integers
  by_kind k_int64 strings bools integers other = integers
  by_kind _ strings bools integers other = other

  -- The encoding of one column.
  unfoldable pub seal_data : BuilderColumn → EncodedData
  unfolding constant_encode dictionary_encode_strings pack_bools seal_integers
  seal_data c =
      let b = c.buffer in
      let kind = storage_kind b in
      let is_constant = c.stats.is_constant && ltb 0 b.row_count in
      by_kind kind (dictionary (dictionary_encode_strings b.offsets b.values b.row_count))
        (if is_constant
          then constant (constant_encode b.values kind b.row_count)
          else packed_bools (pack_bools (take b.row_count b.values)))
        (seal_integers b.values kind b.row_count)
        (if is_constant then constant (constant_encode b.values kind b.row_count) else raw b.values)

  unfoldable pub seal_column : BuilderColumn → Column
  unfolding has_nulls assign_bytes
  seal_column c = record {
    encoded = seal_data c;
    validity_bitmap =
        if has_nulls c.buffer
        then some (assign_bytes c.buffer.validity.bytes c.buffer.validity.bit_count empty_bits)
        else none;
    descriptor = c.buffer.descriptor;
  }
