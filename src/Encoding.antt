-- ===== src/Encoding.antt =====
-- The column encodings: pj_datastore/src/encoding.cpp with its header, and the storage kinds of
-- pj_datastore/include/pj_datastore/column_buffer.hpp. A span of bytes is a list; an integer
-- column is its array of little-endian words. The reads as `double` are in Encoding/Doubles.
pub mod FrameOfReference
pub mod Dictionary
pub mod Bools
pub mod Doubles
mod Tests
use plotjuggler_core.Prelude.{
  ℕ, zero, suc, ◌+◌, ◌-◌, ◌*◌, ◌/◌, ◌%◌, ◌^◌, Bool, true, false, not, ◌&&◌, Option, none, some,
  List, [], ◌∷◌, ◌++◌, length, take, drop, get_or, set, ltb, leb, ◌==◌, if◌then◌else◌, ℤ, pos,
  negsuc, ◌+ℤ◌, ◌-ℤ◌, bits_of_ℤ, i64_of_bits,
}
use plotjuggler_core.Bytes.{le_bytes, load, bit_on, bit_test}
use plotjuggler_core.Buffer.{RawBuffer, replicate}

pub data PrimitiveType : Type 0 where
  float32 : PrimitiveType
  float64 : PrimitiveType
  int8 : PrimitiveType
  int16 : PrimitiveType
  int32 : PrimitiveType
  int64 : PrimitiveType
  uint8 : PrimitiveType
  uint16 : PrimitiveType
  uint32 : PrimitiveType
  uint64 : PrimitiveType
  bool : PrimitiveType
  string : PrimitiveType
  unspecified : PrimitiveType

pub data StorageKind : Type 0 where
  k_float32 : StorageKind
  k_float64 : StorageKind
  k_int32 : StorageKind
  k_int64 : StorageKind
  k_uint64 : StorageKind
  k_bool : StorageKind
  k_string : StorageKind

abbrev pub storage_kind_of : PrimitiveType → StorageKind
storage_kind_of float32 = k_float32
storage_kind_of float64 = k_float64
storage_kind_of int8 = k_int64
storage_kind_of int16 = k_int64
storage_kind_of int32 = k_int32
storage_kind_of int64 = k_int64
storage_kind_of uint8 = k_uint64
storage_kind_of uint16 = k_uint64
storage_kind_of uint32 = k_uint64
storage_kind_of uint64 = k_uint64
storage_kind_of bool = k_bool
storage_kind_of string = k_string
storage_kind_of unspecified = k_float64

abbrev pub storage_kind_size : StorageKind → ℕ
storage_kind_size k_float32 = 4
storage_kind_size k_float64 = 8
storage_kind_size k_int32 = 4
storage_kind_size k_int64 = 8
storage_kind_size k_uint64 = 8
storage_kind_size k_bool = 1
storage_kind_size k_string = 0

pub record ConstantEncoded : Type 0 where
  pub value_bytes : List ℕ
  pub value_kind : StorageKind
  pub value_size : ℕ
  pub count : ℕ

pub record FrameOfReferenceEncoded : Type 0 where
  pub reference : ℤ
  pub offset_bytes : ℕ
  pub offsets : RawBuffer
  pub count : ℕ

pub record DictionaryEncoded : Type 0 where
  pub dictionary : List (List ℕ)
  pub indices : RawBuffer
  pub index_bytes : ℕ
  pub count : ℕ

pub record PackedBools : Type 0 where
  pub bits : RawBuffer
  pub count : ℕ

pub data EncodedData : Type 0 where
  raw : RawBuffer → EncodedData
  constant : ConstantEncoded → EncodedData
  frame_of_reference : FrameOfReferenceEncoded → EncodedData
  dictionary : DictionaryEncoded → EncodedData
  packed_bools : PackedBools → EncodedData

abbrev pub index_bytes_for : ℕ → ℕ
index_bytes_for dict_size = if leb dict_size 256 then 1 else (if leb dict_size 65536 then 2 else 4)

abbrev pub offset_bytes_for : ℕ → ℕ
offset_bytes_for range =
    if ltb range 256
    then 1
    else (if ltb range 65536 then 2 else (if ltb range (2 ^ 32) then 4 else 8))

-- The switches on a byte width: one, two, and four for every other.
abbrev pub switch_width : ℕ → ℕ
switch_width n = if n == 1 then 1 else (if n == 2 then 2 else 4)

unfoldable pub write_index : ℕ → ℕ → List ℕ
write_index index n = le_bytes (switch_width n) index

unfoldable pub read_index : RawBuffer → ℕ → ℕ → ℕ
read_index bytes row n = load (switch_width n) (row * switch_width n) bytes

-- Constant encoding: the first element, in an array of eight bytes.
unfoldable pub constant_encode : List ℕ → StorageKind → ℕ → ConstantEncoded
constant_encode bytes kind count =
    let esize = storage_kind_size kind in
    record {
      value_bytes =
          if ltb 0 esize && ltb 0 count
          then take esize bytes ++ replicate (8 - esize) 0
          else replicate 8 0;
      value_kind = kind;
      value_size = esize;
      count = count;
    }

-- Frame of reference.
abbrev pub i32_of_bits : ℕ → ℤ
i32_of_bits w = if ltb w (2 ^ 31) then pos w else negsuc (2 ^ 32 - 1 - w)

-- The integer at row `i`: an `int32_t` is sign-extended.
unfoldable pub integer_at : List ℕ → StorageKind → ℕ → ℤ
unfolding i64_of_bits
integer_at bytes k_int32 i = i32_of_bits (load 4 (i * 4) bytes)
integer_at bytes kind i = i64_of_bits (load 8 (i * storage_kind_size kind) bytes)

unfoldable pub offset_at : List ℕ → StorageKind → ℤ → ℕ → ℕ
unfolding integer_at bits_of_ℤ ◌-ℤ◌
offset_at bytes kind min_val i = bits_of_ℤ (integer_at bytes kind i -ℤ min_val)

-- The loop: `n` rounds from row `i` on.
unfoldable pub encode_offsets : List ℕ → StorageKind → ℤ → ℕ → ℕ → ℕ → List ℕ
unfolding offset_at
encode_offsets bytes kind min_val width zero i = []
encode_offsets bytes kind min_val width (suc n) i =
    le_bytes width (offset_at bytes kind min_val i)
    ++ encode_offsets bytes kind min_val width n (i + 1)

unfoldable pub for_encode : List ℕ → StorageKind → ℕ → ℤ → ℤ → FrameOfReferenceEncoded
unfolding encode_offsets bits_of_ℤ ◌-ℤ◌
for_encode bytes kind count min_val max_val =
    let width = offset_bytes_for (bits_of_ℤ (max_val -ℤ min_val)) in
    record {
      reference = min_val;
      offset_bytes = width;
      offsets = encode_offsets bytes kind min_val (switch_width width) count 0;
      count = count;
    }

unfoldable pub for_read_offset : RawBuffer → ℕ → ℕ → ℕ
for_read_offset bytes row offset_bytes =
    load (switch_width offset_bytes) (row * switch_width offset_bytes) bytes

-- Addition on `int64_t`, wrapped to 64 bits.
unfoldable pub add_i64 : ℤ → ℤ → ℤ
unfolding ◌+ℤ◌ bits_of_ℤ i64_of_bits
add_i64 a b = i64_of_bits (bits_of_ℤ (a +ℤ b))

unfoldable pub for_decode_one_as_int64 : FrameOfReferenceEncoded → ℕ → ℤ
unfolding for_read_offset add_i64
for_decode_one_as_int64 enc row =
    add_i64 enc.reference (pos (for_read_offset enc.offsets row enc.offset_bytes))

-- Dictionary encoding.
abbrev pub bytes_eqb : List ℕ → List ℕ → Bool
bytes_eqb [] [] = true
bytes_eqb [] (y ∷ ys) = false
bytes_eqb (x ∷ xs) [] = false
bytes_eqb (x ∷ xs) (y ∷ ys) = (x == y) && bytes_eqb xs ys

-- The map from a string to its index holds the dictionary's strings, each at its first position.
abbrev pub find_index : List (List ℕ) → List ℕ → Option ℕ
find_index [] key = none
find_index (s ∷ ss) key =
    if bytes_eqb s key
    then some 0
    else elim (find_index ss key) [ none ↦ none | some i ↦ some (suc i) ]

-- The bytes of row `row`; the difference of the offsets is on `uint32_t`.
unfoldable pub row_string : List ℕ → List ℕ → ℕ → List ℕ
row_string offsets values row =
    let start_offset = load 4 (row * 4) offsets in
    let end_offset = load 4 ((row + 1) * 4) offsets in
    take ((end_offset + 2 ^ 32 - start_offset) % 2 ^ 32) (drop start_offset values)

-- One string: the dictionary after it, and its index.
abbrev pub intern : List (List ℕ) → List ℕ → List (List ℕ) × ℕ
intern dict key = elim (find_index dict key) [
  | some i ↦ (dict, i)
  | none ↦ (dict ++ key ∷ [], length dict)
]

-- The first pass over `n` rows from `row` on: the dictionary, and the indices of the rows.
unfoldable pub intern_rows : (ℕ → List ℕ) → ℕ → ℕ → List (List ℕ) → List (List ℕ) × List ℕ
intern_rows string_of zero row dict = (dict, [])
intern_rows string_of (suc n) row dict =
    let (dict', index) = intern dict (string_of row) in
    let (dict'', indices) = intern_rows string_of n (row + 1) dict' in (dict'', index ∷ indices)

abbrev pub write_indices : List ℕ → ℕ → List ℕ
write_indices [] n = []
write_indices (i ∷ is) n = write_index i n ++ write_indices is n

unfoldable pub dictionary_encode_strings : List ℕ → List ℕ → ℕ → DictionaryEncoded
unfolding intern_rows row_string write_index
dictionary_encode_strings offsets values row_count =
    let (dict, indices) = intern_rows (row_string offsets values) row_count 0 [] in
    if row_count == 0
    then record { dictionary = []; indices = []; index_bytes = 1; count = 0 }
    else record {
      dictionary = dict;
      indices = write_indices indices (index_bytes_for (length dict));
      index_bytes = index_bytes_for (length dict);
      count = row_count;
    }

-- The empty view out of range.
unfoldable pub dictionary_lookup : DictionaryEncoded → ℕ → List ℕ
unfolding read_index
dictionary_lookup encoded row =
    get_or encoded.dictionary (read_index encoded.indices row encoded.index_bytes) []

-- Packed bools: the loop sets the bit of every value that is not zero.
unfoldable pub pack_bits : List ℕ → ℕ → List ℕ → List ℕ
unfolding bit_on
pack_bits [] i bits = bits
pack_bits (v ∷ vs) i bits =
    pack_bits vs (i + 1)
      (if v == 0 then bits else set bits (i / 8) (bit_on (get_or bits (i / 8) 0) (i % 8)))

unfoldable pub pack_bools : List ℕ → PackedBools
unfolding pack_bits
pack_bools values = record {
  bits = pack_bits values 0 (replicate ((length values + 7) / 8) 0);
  count = length values;
}

unfoldable pub unpack_bool : PackedBools → ℕ → Bool
unfolding bit_test
unpack_bool packed index = bit_test (get_or packed.bits (index / 8) 0) (index % 8)
