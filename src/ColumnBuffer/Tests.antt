-- ===== src/ColumnBuffer/Tests.antt =====
-- Columns filled on concrete calls.
use plotjuggler_core.Prelude.{◌≡◌, refl, false, not, some, List, [], ◌∷◌, get_elem?, arith}
use plotjuggler_core.Chunk.{ColumnDescriptor}
use plotjuggler_core.Encoding.{float32, string}
use plotjuggler_core.ColumnBuffer.{
  new_column, is_null, read_fixed, append_fixed, append_fixed_bulk, append_null,
  append_validity_bulk, count_invalid,
}
use plotjuggler_core.Buffer.{test}
use plotjuggler_core.Bytes.{bit_test}
use plotjuggler_core.ColumnBuffer.Flags.{null_slot}
use plotjuggler_core.ColumnBuffer.Appends.{
  Append, one_value, one_null, many_values, many_with_validity, run_appends, all_rows, rows_added,
  do_append, run_appends-read,
}
use plotjuggler_core.ColumnBuffer.StringAppends
use plotjuggler_core.ColumnBuffer.StringAppends.{StringAppend, one_string, many_strings}

abbrev float_column : ColumnDescriptor
float_column = record { field_id = 0; logical_type = float32; field_path = "x" }

abbrev text_column : ColumnDescriptor
text_column = record { field_id = 1; logical_type = string; field_path = "name" }

abbrev calls : List Append
calls =
    one_value 7
    ∷ many_values (1 ∷ 2 ∷ [])
    ∷ one_null
    ∷ many_with_validity (5 ∷ 6 ∷ []) (4 ∷ []) 1
    ∷ []

fifth_row : get_elem? (all_rows calls) 4 ≡ some (null_slot 5)
unfolding all_rows rows_added test bit_test
fifth_row = refl

-- The fifth row was appended with its bit clear.
run_appends-read_example :
    (read_fixed 4 4 (run_appends 4 calls (new_column float_column)) ≡ 5)
    × (is_null 4 (run_appends 4 calls (new_column float_column)) ≡ not false)
run_appends-read_example =
    run_appends-read float_column calls 4 (null_slot 5) fifth_row (omega arith)

abbrev string_calls : List StringAppend
string_calls =
    one_string (104 ∷ 105 ∷ [])
    ∷ many_strings (1 ∷ 2 ∷ []) ((97 ∷ []) ∷ (98 ∷ 99 ∷ []) ∷ []) (3 ∷ [])
    ∷ []

-- The null count by running the calls.
two_nulls : (run_appends 4 calls (new_column float_column)).null_count ≡ 2
unfolding run_appends do_append new_column append_fixed append_fixed_bulk append_null
    append_validity_bulk count_invalid test bit_test
two_nulls = refl
