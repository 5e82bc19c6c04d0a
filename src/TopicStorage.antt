-- ===== src/TopicStorage.antt =====
-- The committed chunks of one topic and what is kept beside them:
-- pj_datastore/src/topic_storage.cpp with its header.
pub mod Order
mod Tests
use Prim.Native.String.{String}
use text.Mathlib.Text.{◌==◌ as str_eq}
use plotjuggler_core.Prelude.{
  ℕ, zero, suc, ◌+◌, ◌*◌, ◌%◌, ◌^◌, ltb, ◌==◌, Bool, true, false, List, [], ◌∷◌, ◌++◌, Option, none,
  some, last?, drop, length, if◌then◌else◌, ℤ, pos, ltb_ℤ,
}
use plotjuggler_core.Buffer.{BitVector}
use plotjuggler_core.Encoding.{
  EncodedData, raw, constant, frame_of_reference, dictionary, packed_bools,
}
use plotjuggler_core.Chunk.{TopicChunk, ChunkStats, Column, ColumnDescriptor}

pub data Status : Type 0 where
  ok_status : Status
  overlapping_chunk : ℤ → ℤ → Status

abbrev pub overlaps : Option TopicChunk → TopicChunk → Bool
overlaps none chunk = false
overlaps (some back) chunk = ltb_ℤ chunk.stats.t_min back.stats.t_max

abbrev pub append_status : Option TopicChunk → TopicChunk → Status
append_status none chunk = ok_status
append_status (some back) chunk = overlapping_chunk chunk.stats.t_min back.stats.t_max

-- The chunks after the call, and its result.
unfoldable pub append_sealed_chunk : TopicChunk → List TopicChunk → List TopicChunk × Status
append_sealed_chunk chunk chunks =
    if overlaps (last? chunks) chunk
    then (chunks, append_status (last? chunks) chunk)
    else (chunks ++ chunk ∷ [], ok_status)

-- How many leading chunks are entirely older.
unfoldable pub end_to_remove : ℤ → List TopicChunk → ℕ
end_to_remove t_keep_min [] = 0
end_to_remove t_keep_min (chunk ∷ chunks) =
    let rest = end_to_remove t_keep_min chunks in
    if ltb_ℤ chunk.stats.t_max t_keep_min then suc rest else 0

unfoldable pub evict_chunks_before : ℤ → List TopicChunk → List TopicChunk
unfolding end_to_remove
evict_chunks_before t_keep_min chunks = drop (end_to_remove t_keep_min chunks) chunks

abbrev pub front_time : List TopicChunk → ℤ
front_time [] = pos 0
front_time (chunk ∷ chunks) = chunk.stats.t_min

abbrev pub back_time : Option TopicChunk → ℤ
back_time none = pos 0
back_time (some chunk) = chunk.stats.t_max

abbrev pub time_min : List TopicChunk → ℤ
time_min = front_time

abbrev pub time_max : List TopicChunk → ℤ
time_max chunks = back_time (last? chunks)

pub record TopicDescriptor : Type 0 where
  pub name : String
  pub schema_id : ℕ
  pub dataset_id : ℕ
  pub max_chunk_rows : ℕ
  pub array_expansion_limit : ℕ

pub record TopicStorage : Type 0 where
  pub topic_id : ℕ
  pub descriptor : TopicDescriptor
  pub sealed_chunks : List TopicChunk
  pub column_descriptors : List ColumnDescriptor
  pub max_observed_array_length : ℕ
  pub truncated_sample_count : ℕ
  pub array_expansion_counts : List (String × ℕ)

abbrev pub new_storage : ℕ → TopicDescriptor → TopicStorage
new_storage topic_id descriptor = record {
  topic_id = topic_id;
  descriptor = descriptor;
  sealed_chunks = [];
  column_descriptors = [];
  max_observed_array_length = 0;
  truncated_sample_count = 0;
  array_expansion_counts = [];
}

-- `appendSealedChunk` and `evictBefore` on the storage.
unfoldable pub append_chunk : TopicChunk → TopicStorage → TopicStorage × Status
unfolding append_sealed_chunk
append_chunk chunk s =
    let (chunks, status) = append_sealed_chunk chunk s.sealed_chunks in
    (record s { sealed_chunks = chunks }, status)

unfoldable pub evict_before : ℤ → TopicStorage → TopicStorage
unfolding evict_chunks_before
evict_before t_keep_min s = record s {
  sealed_chunks = evict_chunks_before t_keep_min s.sealed_chunks;
}

abbrev pub clear_chunks : TopicStorage → TopicStorage
clear_chunks s = record s { sealed_chunks = [] }

abbrev pub set_column_descriptors : List ColumnDescriptor → TopicStorage → TopicStorage
set_column_descriptors descs s = record s { column_descriptors = descs }

abbrev pub is_empty : TopicStorage → Bool
is_empty s = length s.sealed_chunks == 0

pub record TopicMetadata : Type 0 where
  pub topic_id : ℕ
  pub name : String
  pub current_schema : ℕ
  pub dataset_id : ℕ
  pub time_range_min : ℤ
  pub time_range_max : ℤ
  pub total_row_count : ℕ
  pub total_byte_size : ℕ
  pub max_observed_array_length : ℕ
  pub truncated_sample_count : ℕ

unfoldable pub dictionary_size : List (List ℕ) → ℕ
dictionary_size [] = 0
dictionary_size (s ∷ ss) = length s + dictionary_size ss

abbrev pub encoded_size : EncodedData → ℕ
encoded_size (raw bytes) = length bytes
encoded_size (constant e) = e.value_size
encoded_size (frame_of_reference e) = length e.offsets
encoded_size (dictionary e) = length e.indices + dictionary_size e.dictionary
encoded_size (packed_bools e) = length e.bits

abbrev bitmap_size : Option BitVector → ℕ
bitmap_size none = 0
bitmap_size (some v) = length v.bytes

unfoldable pub columns_size : List Column → ℕ
columns_size [] = 0
columns_size (c ∷ cs) = encoded_size c.encoded + bitmap_size c.validity_bitmap + columns_size cs

-- The sums of the loop over the chunks, which are of 64 bits.
unfoldable pub total_rows : List TopicChunk → ℕ
total_rows [] = 0
total_rows (chunk ∷ chunks) = (chunk.stats.row_count + total_rows chunks) % 2 ^ 64

unfoldable pub total_bytes : List TopicChunk → ℕ
total_bytes [] = 0
total_bytes (chunk ∷ chunks) =
    (length chunk.timestamps * 8 + columns_size chunk.columns + total_bytes chunks) % 2 ^ 64

unfoldable pub metadata : TopicStorage → TopicMetadata
metadata s = record {
  topic_id = s.topic_id;
  name = s.descriptor.name;
  current_schema = s.descriptor.schema_id;
  dataset_id = s.descriptor.dataset_id;
  time_range_min = time_min s.sealed_chunks;
  time_range_max = time_max s.sealed_chunks;
  total_row_count = total_rows s.sealed_chunks;
  total_byte_size = total_bytes s.sealed_chunks;
  max_observed_array_length = s.max_observed_array_length;
  truncated_sample_count = s.truncated_sample_count;
}

abbrev pub update_schema : ℕ → TopicStorage → TopicStorage
update_schema new_schema s = record s {
  descriptor = record s.descriptor { schema_id = new_schema };
}

abbrev pub update_max_observed_array_length : ℕ → TopicStorage → TopicStorage
update_max_observed_array_length observed_length s =
    if ltb s.max_observed_array_length observed_length
    then record s { max_observed_array_length = observed_length }
    else s

-- A `uint32_t`.
abbrev pub increment_truncated_sample_count : TopicStorage → TopicStorage
increment_truncated_sample_count s = record s {
  truncated_sample_count = (s.truncated_sample_count + 1) % 2 ^ 32;
}

unfoldable pub expansion_count : String → List (String × ℕ) → ℕ
expansion_count field_path [] = 0
expansion_count field_path ((key, count) ∷ rest) =
    if str_eq key field_path then count else expansion_count field_path rest

abbrev pub array_expansion_count : String → TopicStorage → ℕ
array_expansion_count field_path s = expansion_count field_path s.array_expansion_counts

unfoldable pub set_expansion_count : String → ℕ → List (String × ℕ) → List (String × ℕ)
set_expansion_count field_path count [] = (field_path, count) ∷ []
set_expansion_count field_path count ((key, old) ∷ rest) =
    if str_eq key field_path
    then (key, count) ∷ rest
    else (key, old) ∷ set_expansion_count field_path count rest

abbrev pub set_array_expansion_count : String → ℕ → TopicStorage → TopicStorage
set_array_expansion_count field_path count s = record s {
  array_expansion_counts = set_expansion_count field_path count s.array_expansion_counts;
}
