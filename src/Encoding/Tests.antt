-- ===== src/Encoding/Tests.antt =====
-- Columns of a few rows, encoded and decoded.
use plotjuggler_core.Prelude.{ℕ, ◌≡◌, refl, true, List, [], ◌∷◌, arith, pos, negsuc, ◌-ℤ◌}
use plotjuggler_core.Bytes.{packed}
use plotjuggler_core.Encoding.{
  k_int32, integer_at, for_encode, for_decode_one_as_int64, dictionary_encode_strings,
  dictionary_lookup, row_string, pack_bools, unpack_bool,
}
use plotjuggler_core.Encoding.FrameOfReference.{for_decode_one-for_encode}
use plotjuggler_core.Encoding.Dictionary.{dictionary_lookup-dictionary_encode_strings}
use plotjuggler_core.Encoding.Bools.{unpack_bool-pack_bools}

-- 100, -2 and 40 as `int32_t`.
abbrev three_rows : List ℕ
three_rows = packed 4 (100 ∷ 4294967294 ∷ 40 ∷ [])

narrowed : (for_encode three_rows k_int32 3 (negsuc 1) (pos 100)).offsets ≡ 102 ∷ 0 ∷ 42 ∷ []
unfolding for_encode
narrowed = refl

for_decode_one-for_encode_example :
    for_decode_one_as_int64 (for_encode three_rows k_int32 3 (negsuc 1) (pos 100)) 1
    ≡ integer_at three_rows k_int32 1
unfolding integer_at ◌-ℤ◌
for_decode_one-for_encode_example =
    for_decode_one-for_encode three_rows k_int32 3 (negsuc 1) (pos 100) 1 (omega arith)
      (omega arith, omega arith) (omega arith) (omega arith) (omega arith)

-- "ab", "c" and "ab".
abbrev offsets : List ℕ
offsets = packed 4 (0 ∷ 2 ∷ 3 ∷ 5 ∷ [])

abbrev letters : List ℕ
letters = 97 ∷ 98 ∷ 99 ∷ 97 ∷ 98 ∷ []

shared : (dictionary_encode_strings offsets letters 3).dictionary ≡ (97 ∷ 98 ∷ []) ∷ (99 ∷ []) ∷ []
unfolding dictionary_encode_strings
shared = refl

dictionary_lookup-dictionary_encode_strings_example :
    dictionary_lookup (dictionary_encode_strings offsets letters 3) 2 ≡ row_string offsets letters 2
dictionary_lookup-dictionary_encode_strings_example =
    dictionary_lookup-dictionary_encode_strings offsets letters 3 2 (omega arith) (omega arith)

unpack_bool-pack_bools_example : unpack_bool (pack_bools (1 ∷ 0 ∷ 1 ∷ [])) 2 ≡ true
unpack_bool-pack_bools_example = unpack_bool-pack_bools (1 ∷ 0 ∷ 1 ∷ []) 2 (omega arith)
