-- ===== src/Chunk.antt =====
-- A sealed chunk and its reads, and how `seal` encodes a column: pj_datastore/src/chunk.cpp with
-- its header.
pub mod Reads
pub mod Scan
pub mod Seal
mod Tests
use Prim.Native.String.{String}
use plotjuggler_core.Prelude.{
  ℕ, zero, suc, ◌+◌, ◌*◌, ◌-◌, ◌/◌, ◌%◌, Bool, true, false, not, ◌&&◌, Option, none, some, List, [],
  ◌∷◌, ◌++◌, length, get_or, take, drop, ltb, leb, ◌==◌, if◌then◌else◌, ℤ, pos, negsuc, ltb_ℤ,
  eqb_ℤ, ◌-ℤ◌, bits_of_ℤ, i64_of_bits, ◌^◌,
}
use plotjuggler_core.Bytes.{load}
use plotjuggler_core.Buffer.{RawBuffer, BitVector, is_valid}
use plotjuggler_core.Encoding.{
  PrimitiveType, StorageKind, storage_kind_of, storage_kind_size, k_float32, k_float64, k_int32,
  k_int64, k_uint64, k_bool, k_string, EncodedData, raw, constant, frame_of_reference, dictionary,
  packed_bools, ConstantEncoded, constant_encode, for_encode, for_decode_one_as_int64,
  offset_bytes_for, integer_at, dictionary_lookup, unpack_bool, pack_bools,
}
use plotjuggler_core.Encoding.Doubles.{
  Floats, element_as_double, element_as_int64, element_as_uint64, constant_decode_as_double,
  constant_decode_as_int64, constant_decode_as_uint64, for_decode_one_as_double,
  for_decode_range_as_doubles,
}

pub record ColumnDescriptor : Type 0 where
  pub field_id : ℕ
  pub logical_type : PrimitiveType
  pub field_path : String

-- Without the statistics of the columns, which no read of a chunk uses.
pub record ChunkStats : Type 0 where
  pub t_min : ℤ
  pub t_max : ℤ
  pub row_count : ℕ

pub record Column : Type 0 where
  pub encoded : EncodedData
  pub validity_bitmap : Option BitVector
  pub descriptor : ColumnDescriptor

pub record TopicChunk : Type 0 where
  pub id : ℕ
  pub topic_id : ℕ
  pub schema_version : ℕ
  pub stats : ChunkStats
  pub timestamps : List ℤ
  pub columns : List Column

pub data EncodingType : Type 0 where
  k_raw : EncodingType
  k_dictionary : EncodingType
  k_packed_bool : EncodingType
  k_constant : EncodingType
  k_frame_of_reference : EncodingType

abbrev pub column_encoding : Column → EncodingType
column_encoding col = elim col.encoded [
  | raw b ↦ k_raw
  | constant e ↦ k_constant
  | frame_of_reference e ↦ k_frame_of_reference
  | dictionary e ↦ k_dictionary
  | packed_bools e ↦ k_packed_bool
]

-- A row out of range is undefined behaviour in the source; here it reads as 0.
unfoldable pub read_timestamp : TopicChunk → ℕ → ℤ
read_timestamp chunk row = get_or chunk.timestamps row (pos 0)

unfoldable pub read_timestamps : TopicChunk → ℕ → ℕ → List ℤ
read_timestamps chunk count row_start = take count (drop row_start chunk.timestamps)

abbrev pub kind_of : Column → StorageKind
kind_of col = storage_kind_of col.descriptor.logical_type

unfoldable pub is_null : Column → ℕ → Bool
unfolding is_valid
is_null col row = elim col.validity_bitmap [
  | none ↦ false
  | some bm ↦ if bm.bit_count == 0 then false else not (is_valid row bm)
]

unfoldable pub read_string : Column → ℕ → List ℕ
unfolding dictionary_lookup
read_string col row = elim col.encoded [ dictionary enc ↦ dictionary_lookup enc row | _ ↦ [] ]

unfoldable pub read_bool : Column → ℕ → Bool
unfolding unpack_bool
read_bool col row = elim col.encoded [
  | constant enc ↦ not (load 1 0 enc.value_bytes == 0)
  | packed_bools enc ↦ unpack_bool enc row
  | _ ↦ false
]

module _ (fl : Floats) where
  -- `read_raw_as` for the three result types.
  abbrev pub read_raw_as_double : RawBuffer → StorageKind → ℕ → fl.Double
  read_raw_as_double buf kind row = element_as_double fl kind (row * storage_kind_size kind) buf

  unfoldable pub read_numeric_as_double : Column → ℕ → fl.Double
  unfolding constant_decode_as_double for_decode_one_as_double
  read_numeric_as_double col row = elim col.encoded [
    | raw buf ↦ read_raw_as_double buf (kind_of col) row
    | constant enc ↦ constant_decode_as_double fl enc
    | frame_of_reference enc ↦ for_decode_one_as_double fl enc row
    | _ ↦ fl.of_int (pos 0)
  ]

  unfoldable pub read_numeric_as_int64 : Column → ℕ → ℤ
  unfolding constant_decode_as_int64 for_decode_one_as_int64
  read_numeric_as_int64 col row = elim col.encoded [
    | raw buf ↦ element_as_int64 fl (kind_of col) (row * storage_kind_size (kind_of col)) buf
    | constant enc ↦ constant_decode_as_int64 fl enc
    | frame_of_reference enc ↦ for_decode_one_as_int64 enc row
    | _ ↦ pos 0
  ]

  unfoldable pub read_numeric_as_uint64 : Column → ℕ → ℕ
  unfolding constant_decode_as_uint64 for_decode_one_as_int64
  read_numeric_as_uint64 col row = elim col.encoded [
    | raw buf ↦ element_as_uint64 fl (kind_of col) (row * storage_kind_size (kind_of col)) buf
    | constant enc ↦ constant_decode_as_uint64 fl enc
    | frame_of_reference enc ↦ bits_of_ℤ (for_decode_one_as_int64 enc row)
    | _ ↦ 0
  ]

  -- `count` copies of a value.
  abbrev pub fill : ℕ → fl.Double → List fl.Double
  fill zero v = []
  fill (suc n) v = v ∷ fill n v

  abbrev pub convert : RawBuffer → StorageKind → ℕ → ℕ → List fl.Double
  convert buf kind zero row = []
  convert buf kind (suc n) row = read_raw_as_double buf kind row ∷ convert buf kind n (row + 1)

  abbrev pub is_numeric : StorageKind → Bool
  is_numeric k_bool = false
  is_numeric k_string = false
  is_numeric kind = true

  -- The values before the nulls are replaced.
  unfoldable pub bulk_values : Column → ℕ → ℕ → List fl.Double
  unfolding constant_decode_as_double for_decode_range_as_doubles
  bulk_values col count row_start = elim col.encoded [
    | constant enc ↦ fill count (constant_decode_as_double fl enc)
    | frame_of_reference enc ↦ for_decode_range_as_doubles fl enc count row_start
    | raw buf ↦
        if is_numeric (kind_of col)
        then convert buf (kind_of col) count row_start
        else fill count fl.quiet_nan
    | _ ↦ fill count fl.quiet_nan
  ]

  abbrev pub replace_nulls : BitVector → ℕ → List fl.Double → List fl.Double
  replace_nulls bm row [] = []
  replace_nulls bm row (v ∷ vs) =
      (if is_valid row bm then v else fl.quiet_nan) ∷ replace_nulls bm (row + 1) vs

  unfoldable pub read_column_as_doubles : Column → ℕ → ℕ → List fl.Double
  unfolding bulk_values
  read_column_as_doubles col count row_start = elim col.validity_bitmap [
    | none ↦ bulk_values col count row_start
    | some bm ↦ replace_nulls bm row_start (bulk_values col count row_start)
  ]

-- What the loop of `seal` over an integer column computes of the rows from `row` on.
pub record ExactRange : Type 0 where
  pub exact_min : ℤ
  pub exact_max : ℤ
  pub exact_is_constant : Bool

abbrev pub min_ℤ : ℤ → ℤ → ℤ
min_ℤ a b = if ltb_ℤ b a then b else a

abbrev pub max_ℤ : ℤ → ℤ → ℤ
max_ℤ a b = if ltb_ℤ a b then b else a

unfoldable pub scan_rows : List ℕ → StorageKind → ℕ → ℕ → ExactRange → ExactRange
unfolding integer_at
scan_rows bytes kind zero row r = r
scan_rows bytes kind (suc n) row r = scan_rows bytes kind n (row + 1) record {
  exact_min = min_ℤ r.exact_min (integer_at bytes kind row);
  exact_max = max_ℤ r.exact_max (integer_at bytes kind row);
  exact_is_constant =
      r.exact_is_constant && eqb_ℤ (integer_at bytes kind row) (integer_at bytes kind 0);
}

abbrev pub initial_range : ExactRange
initial_range = record {
  exact_min = pos (2 ^ 63 - 1);
  exact_max = negsuc (2 ^ 63 - 1);
  exact_is_constant = true;
}

-- The case of `seal` for `kInt32` and `kInt64`, on the column's value buffer.
unfoldable pub seal_integers : List ℕ → StorageKind → ℕ → EncodedData
seal_integers bytes kind row_count =
    let r = scan_rows bytes kind row_count 0 initial_range in
    let ob = offset_bytes_for (bits_of_ℤ (r.exact_max -ℤ r.exact_min)) in
    if r.exact_is_constant && ltb 0 row_count
    then constant (constant_encode bytes kind row_count)
    else (if ltb 0 row_count && ltb ob (storage_kind_size kind)
        then frame_of_reference (for_encode bytes kind row_count r.exact_min r.exact_max)
        else raw bytes)
