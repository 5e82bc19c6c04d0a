-- ===== src/Buffer/Tests.antt =====
-- A bitmap of ten rows, and what its operations do to it.
use plotjuggler_core.Prelude.{◌≡◌, refl, [], ◌∷◌, true, false, if◌then◌else◌, ◌==◌, arith}
use plotjuggler_core.Buffer.{
  BitVector, empty_bits, init_valid, ensure_size, set_valid, set_null, is_valid, count_nulls, test,
  subspan, bit_span,
}
use plotjuggler_core.Buffer.Validity.{is_valid-set_valid, is_valid-set_null}
use plotjuggler_core.Buffer.Nulls.{count_nulls-nulls_below, nulls_below}

abbrev ten_rows : BitVector
ten_rows = record { bytes = 0xfb ∷ 0xff ∷ []; bit_count = 10 }

init_ten : set_null 2 (init_valid 10 empty_bits) ≡ ten_rows
unfolding init_valid set_null plotjuggler_core.Bytes.bit_off
init_ten = refl

grown : (ensure_size 12 empty_bits).bytes ≡ 0 ∷ 0 ∷ []
unfolding ensure_size
grown = refl

span_reads : test 1 (subspan 1 4 (bit_span ten_rows)) ≡ false
unfolding test subspan bit_span
span_reads = refl

is_valid-set_valid_example :
    is_valid 2 (set_valid 2 ten_rows) ≡ (if 2 == 2 then true else is_valid 2 ten_rows)
is_valid-set_valid_example =
    is_valid-set_valid ten_rows 2 2 (omega arith, (omega arith, tt)) (omega arith)

is_valid-set_null_example :
    is_valid 9 (set_null 8 ten_rows) ≡ (if 8 == 9 then false else is_valid 9 ten_rows)
is_valid-set_null_example =
    is_valid-set_null ten_rows 8 9 (omega arith, (omega arith, tt)) (omega arith)

count_nulls-nulls_below_example : count_nulls 10 ten_rows ≡ nulls_below 10 ten_rows
count_nulls-nulls_below_example =
    count_nulls-nulls_below ten_rows 10 (omega arith, (omega arith, tt))
