-- ===== src/Encoding/FrameOfReference.antt =====
-- Frame of reference: what is encoded with the bounds of the column is decoded exactly.
use plotjuggler_core.Prelude.{
  ℕ, zero, suc, ◌+◌, ◌*◌, ◌^◌, ◌<◌, ◌≤◌, ◌≡◌, refl, ap, ◌∙◌, some, List, [], ◌∷◌, ◌++◌, arith,
  get_elem?, ℤ, pos, pos_part, neg_part, ◌+ℤ◌, ◌-ℤ◌, ◌≤ℤ◌, -ℤ_parts, +ℤ_parts, eq_of_parts, IsI64,
  bits_of_ℤ, i64_of_bits-bits_of_ℤ,
}
use plotjuggler_core.Bytes.{le_bytes, load, packed, load-packed}
use plotjuggler_core.Encoding.{
  StorageKind, offset_bytes_for, switch_width, integer_at, offset_at, encode_offsets, for_encode,
  for_read_offset, for_decode_one_as_int64, add_i64,
}

offset_list : List ℕ → StorageKind → ℤ → ℕ → ℕ → List ℕ
offset_list bytes kind min_val zero i = []
offset_list bytes kind min_val (suc n) i =
    offset_at bytes kind min_val i ∷ offset_list bytes kind min_val n (i + 1)

encode_offsets-packed :
    (bytes : List ℕ) (kind : StorageKind) (min_val : ℤ) (width n i : ℕ)
    → encode_offsets bytes kind min_val width n i
      ≡ packed width (offset_list bytes kind min_val n i)
unfolding encode_offsets offset_list
encode_offsets-packed bytes kind min_val width zero i = refl
encode_offsets-packed bytes kind min_val width (suc n) i =
    ap (◌++◌ (le_bytes width (offset_at bytes kind min_val i)))
      (encode_offsets-packed bytes kind min_val width n (i + 1))

get_elem?-offset_list :
    (bytes : List ℕ) (kind : StorageKind) (min_val : ℤ) (n i row : ℕ)
    → row < n
    → get_elem? (offset_list bytes kind min_val n i) row
      ≡ some (offset_at bytes kind min_val (i + row))
unfolding offset_list
get_elem?-offset_list bytes kind min_val zero i row h = absurd (omega arith)
get_elem?-offset_list bytes kind min_val (suc n) i zero h =
    ap (λ k. some (offset_at bytes kind min_val k)) (let e : i ≡ i + 0 = omega arith in e)
get_elem?-offset_list bytes kind min_val (suc n) i (suc row) h =
    get_elem?-offset_list bytes kind min_val n (i + 1) row (omega arith)
    ∙ ap (λ k. some (offset_at bytes kind min_val k))
        (let e : i + 1 + row ≡ i + suc row = omega arith in e)

-- An offset of at most the range fits the width that is chosen for the range.
offset-fits :
    (offset range : ℕ)
    → offset ≤ range
    → range < 2 ^ 32
    → offset < 256 ^ switch_width (offset_bytes_for range)
offset-fits offset range h l = ground arith

bits_of_ℤ-difference :
    (v m : ℤ) → m ≤ℤ v → pos_part (v -ℤ m) < 2 ^ 32 → bits_of_ℤ (v -ℤ m) ≡ pos_part (v -ℤ m)
unfolding bits_of_ℤ ◌-ℤ◌
bits_of_ℤ-difference v m h l = ground arith

difference-le : (v m top : ℤ) → m ≤ℤ v → v ≤ℤ top → pos_part (v -ℤ m) ≤ pos_part (top -ℤ m)
unfolding ◌-ℤ◌
difference-le v m top h l = ground arith

difference-nonneg : (v m : ℤ) → m ≤ℤ v → neg_part (v -ℤ m) ≡ 0
unfolding ◌-ℤ◌
difference-nonneg v m h = ground arith

add_difference : (v m : ℤ) → m ≤ℤ v → m +ℤ pos (pos_part (v -ℤ m)) ≡ v
add_difference v m h =
    eq_of_parts _ _
      (omega (arith, +ℤ_parts m (pos (pos_part (v -ℤ m))), -ℤ_parts v m, difference-nonneg v m h))

-- A row of an integer column that lies between the given bounds, less than 2^32 apart, is
-- decoded from the frame of reference as the very value that the column holds.
pub for_decode_one-for_encode :
    (bytes : List ℕ) (kind : StorageKind) (count : ℕ) (min_val max_val : ℤ) (row : ℕ)
    → row < count
    → IsI64 (integer_at bytes kind row)
    → min_val ≤ℤ integer_at bytes kind row
    → integer_at bytes kind row ≤ℤ max_val
    → pos_part (max_val -ℤ min_val) < 2 ^ 32
    → for_decode_one_as_int64 (for_encode bytes kind count min_val max_val) row
      ≡ integer_at bytes kind row
unfolding for_decode_one_as_int64 for_encode for_read_offset add_i64 offset_at
for_decode_one-for_encode bytes kind count min_val max_val row h fits low high narrow =
    let v = integer_at bytes kind row in
    let w = switch_width (offset_bytes_for (bits_of_ℤ (max_val -ℤ min_val))) in
    let range : bits_of_ℤ (max_val -ℤ min_val) ≡ pos_part (max_val -ℤ min_val) =
      bits_of_ℤ-difference max_val min_val (omega arith) narrow in
    let below : pos_part (v -ℤ min_val) ≤ pos_part (max_val -ℤ min_val) =
      difference-le v min_val max_val low high in
    let small : bits_of_ℤ (v -ℤ min_val) ≡ pos_part (v -ℤ min_val) =
      bits_of_ℤ-difference v min_val low (omega arith) in
    let stored : bits_of_ℤ (v -ℤ min_val) < 256 ^ w =
      offset-fits _ (bits_of_ℤ (max_val -ℤ min_val)) (omega arith) (omega arith) in
    let z : 0 + row ≡ row = omega arith in
    let back : load w (row * w) (encode_offsets bytes kind min_val w count 0)
        ≡ bits_of_ℤ (v -ℤ min_val) =
      rw (encode_offsets-packed bytes kind min_val w count 0) (
        load-packed w row _ _
          (get_elem?-offset_list bytes kind min_val count 0 row h
            ∙ ap (λ (k : ℕ). some (offset_at bytes kind min_val k)) z)
          stored) in
    rw (back, small, add_difference v min_val low) (i64_of_bits-bits_of_ℤ v fits)
