-- ===== src/Buffer.antt =====
-- The byte buffer and the validity bitmap: pj_datastore/src/buffer.cpp with its header, and the
-- bit view of pj_base/include/pj_base/span.hpp.
pub mod Validity
pub mod Nulls
mod Tests
use plotjuggler_core.Prelude.{
  ℕ, zero, suc, ◌+◌, ◌-◌, ◌*◌, ◌/◌, ◌%◌, ◌<◌, Bool, true, false, ◌&&◌, List, [], ◌∷◌, ◌++◌, length,
  get_or, set, take, drop, ltb, ◌==◌, if◌then◌else◌,
}
use plotjuggler_core.Bytes.{bit_on, bit_off, bit_test, popcount, low_mask}

-- A `RawBuffer` is its vector of bytes; the capacity is not observable in the contents.
abbrev pub RawBuffer : Type 0
RawBuffer = List ℕ

abbrev pub replicate : ℕ → ℕ → List ℕ
replicate zero b = []
replicate (suc n) b = b ∷ replicate n b

-- `std::vector::resize`: cut, or filled up with zeros.
unfoldable pub resize : ℕ → RawBuffer → RawBuffer
resize new_size bytes = take new_size bytes ++ replicate (new_size - length bytes) 0

unfoldable pub append : List ℕ → RawBuffer → RawBuffer
append bytes buffer = buffer ++ bytes

pub record BitVector : Type 0 where
  pub bytes : List ℕ
  pub bit_count : ℕ

abbrev pub bytes_for_bits : ℕ → ℕ
bytes_for_bits num_bits = (num_bits + 7) / 8

abbrev pub empty_bits : BitVector
empty_bits = record { bytes = []; bit_count = 0 }

unfoldable pub init_valid : ℕ → BitVector → BitVector
init_valid num_bits v = record {
  bytes = replicate (bytes_for_bits num_bits) 0xff;
  bit_count = num_bits;
}

unfoldable pub ensure_size : ℕ → BitVector → BitVector
unfolding resize
ensure_size num_bits v = record {
  bytes =
      if ltb (length v.bytes) (bytes_for_bits num_bits)
      then resize (bytes_for_bits num_bits) v.bytes
      else v.bytes;
  bit_count = if ltb v.bit_count num_bits then num_bits else v.bit_count;
}

unfoldable pub set_valid : ℕ → BitVector → BitVector
set_valid bit_index v = record v {
  bytes = set v.bytes (bit_index / 8) (bit_on (get_or v.bytes (bit_index / 8) 0) (bit_index % 8));
}

unfoldable pub set_null : ℕ → BitVector → BitVector
set_null bit_index v = record v {
  bytes = set v.bytes (bit_index / 8) (bit_off (get_or v.bytes (bit_index / 8) 0) (bit_index % 8));
}

unfoldable pub is_valid : ℕ → BitVector → Bool
unfolding bit_test
is_valid bit_index v = bit_test (get_or v.bytes (bit_index / 8) 0) (bit_index % 8)

-- The loop over the full bytes, `n` rounds from byte `i` on.
unfoldable pub count_full : ℕ → ℕ → List ℕ → ℕ
unfolding popcount
count_full zero i bytes = 0
count_full (suc n) i bytes = popcount (get_or bytes i 0) + count_full n (i + 1) bytes

-- The bits of the last byte that is not full.
unfoldable pub count_partial : ℕ → ℕ → ℕ → List ℕ → ℕ
unfolding popcount low_mask
count_partial remaining_bits num_bytes full_bytes bytes =
    if ltb 0 remaining_bits && ltb 0 num_bytes
    then popcount (low_mask (get_or bytes full_bytes 0) remaining_bits)
    else 0

unfoldable pub count_nulls : ℕ → BitVector → ℕ
unfolding count_full count_partial
count_nulls num_bits v =
    num_bits
    - (count_full (num_bits / 8) 0 v.bytes
        + count_partial (num_bits % 8) (bytes_for_bits num_bits) (num_bits / 8) v.bytes)

unfoldable pub assign_bytes : List ℕ → ℕ → BitVector → BitVector
assign_bytes bytes bit_count v = record { bytes = bytes; bit_count = bit_count }

-- `BitSpan`: `bit_length` bits of a byte buffer, from `bit_offset` on.
pub record BitSpan : Type 0 where
  pub bytes : List ℕ
  pub bit_offset : ℕ
  pub bit_length : ℕ

unfoldable pub test : ℕ → BitSpan → Bool
unfolding bit_test
test i s = bit_test (get_or s.bytes ((s.bit_offset + i) / 8) 0) ((s.bit_offset + i) % 8)

unfoldable pub subspan : ℕ → ℕ → BitSpan → BitSpan
subspan offset_bits count_bits s = record {
  bytes = s.bytes;
  bit_offset = s.bit_offset + offset_bits;
  bit_length = count_bits;
}

unfoldable pub bit_span : BitVector → BitSpan
bit_span v = record { bytes = v.bytes; bit_offset = 0; bit_length = v.bit_count }
