-- ===== src/Wire/Tests.antt =====
-- A message of three fields, and its way through the writer and the reader.
use plotjuggler_core.Prelude.{
  ℕ, ◌+◌, ◌≡◌, refl, Bool, true, false, some, none, List, [], ◌∷◌, ◌++◌, arith,
}
use plotjuggler_core.Wire.Format.{varint, length_delimited, Read}
use plotjuggler_core.Wire.Writer.{
  append_varint, tag, write_message, write_bytes, packed_fixed32, packed_double, append_fixed32,
  each_fixed32, each_fixed64,
}
use plotjuggler_core.Wire.Reader.{
  read_varint, read_tag, read_bytes, skip, parse_fields, FieldHandler, read_packed_fixed32,
  read_packed_double,
}
use plotjuggler_core.Wire.Varint.{read_varint-append_varint}
use plotjuggler_core.Wire.Fields.{read_tag-tag, read_bytes-append_varint}
use plotjuggler_core.Wire.Parse.{
  Field, varint_field, fixed64_field, bytes_field, fixed32_field, write_fields,
  parse_fields-write_fields, skip-body, body, Fits, tag_for,
}
use plotjuggler_core.Wire.Packed.{read_packed_fixed32-each_fixed32, read_packed_double-each_fixed64}
use plotjuggler_core.Wire.Total.{parse_fields-total}

varint_300 : append_varint 300 ≡ 172 ∷ 2 ∷ []
unfolding append_varint
varint_300 = refl

-- Ten bytes hold 64 bits: a last group above 1 is refused.
varint_too_long :
    (read_varint (255 ∷ 255 ∷ 255 ∷ 255 ∷ 255 ∷ 255 ∷ 255 ∷ 255 ∷ 255 ∷ 2 ∷ [])).0 ≡ none
unfolding read_varint
varint_too_long = refl

nested : write_message 1 (8 ∷ 1 ∷ []) ≡ 10 ∷ 2 ∷ 8 ∷ 1 ∷ []
unfolding write_message write_bytes tag append_varint
nested = refl

packed_written : packed_fixed32 2 (7 ∷ []) ≡ 18 ∷ 4 ∷ 7 ∷ 0 ∷ 0 ∷ 0 ∷ []
unfolding packed_fixed32 tag append_varint append_fixed32
packed_written = refl

packed_omitted : packed_double 2 [] ≡ []
unfolding packed_double
packed_omitted = refl

-- A handler that takes nothing.
abbrev decline : FieldHandler ℕ
decline t s bs = (false, s, bs)

abbrev fields : List Field
fields = varint_field 1 300 ∷ bytes_field 2 (1 ∷ 2 ∷ []) ∷ fixed32_field 3 7 ∷ []

read_varint-append_varint_example : read_varint (append_varint 300 ++ 7 ∷ []) ≡ (some 300, 7 ∷ [])
read_varint-append_varint_example = read_varint-append_varint 300 (7 ∷ []) (omega arith)

read_tag-tag_example :
    read_tag (tag 5 length_delimited ++ 7 ∷ [])
    ≡ (some (record { field = 5; type = length_delimited }), 7 ∷ [])
read_tag-tag_example = read_tag-tag 5 length_delimited (7 ∷ []) (omega arith, omega arith) tt

read_bytes-append_varint_example :
    read_bytes (append_varint 2 ++ ((1 ∷ 2 ∷ []) ++ 7 ∷ [])) ≡ (some (1 ∷ 2 ∷ []), 7 ∷ [])
read_bytes-append_varint_example = read_bytes-append_varint (1 ∷ 2 ∷ []) (7 ∷ []) (omega arith)

skip-body_example :
    skip length_delimited (body (bytes_field 2 (1 ∷ 2 ∷ [])) ++ 7 ∷ []) ≡ (true, 7 ∷ [])
skip-body_example =
    skip-body (bytes_field 2 (1 ∷ 2 ∷ [])) (7 ∷ []) ((omega arith, omega arith), omega arith)

-- Takes the varints and adds them up.
abbrev summed : ℕ → Read ℕ → Bool × ℕ × List ℕ
summed s (none, rest) = (false, s, rest)
summed s (some v, rest) = (true, s + v, rest)

abbrev sum_handler : FieldHandler ℕ
sum_handler t s bs = elim t.type [ varint ↦ summed s (read_varint bs) | _ ↦ (false, s, bs) ]

abbrev is_varint : Field → Bool
is_varint (varint_field n v) = true
is_varint f = false

abbrev add_value : Field → ℕ → ℕ
add_value (varint_field n v) s = s + v
add_value f s = s

sum_accepts :
    (f : Field) (s : ℕ) (rest : List ℕ)
    → Fits f
    → is_varint f ≡ true
    → sum_handler (tag_for f) s (body f ++ rest) ≡ (true, add_value f s, rest)
sum_accepts (varint_field n v) s rest h e = rw (read_varint-append_varint v rest h.1)
sum_accepts (fixed64_field n v) s rest h e = absurd (ground arith)
sum_accepts (bytes_field n xs) s rest h e = absurd (ground arith)
sum_accepts (fixed32_field n v) s rest h e = absurd (ground arith)

sum_declines :
    (f : Field) (s : ℕ) (rest : List ℕ)
    → Fits f
    → is_varint f ≡ false
    → sum_handler (tag_for f) s (body f ++ rest) ≡ (false, s, body f ++ rest)
sum_declines (varint_field n v) s rest h e = absurd (ground arith)
sum_declines (fixed64_field n v) s rest h e = refl
sum_declines (bytes_field n xs) s rest h e = refl
sum_declines (fixed32_field n v) s rest h e = refl

parse_fields-write_fields_example :
    parse_fields sum_handler 3 0 (write_fields fields) ≡ some (true, 300)
parse_fields-write_fields_example =
    parse_fields-write_fields sum_handler is_varint add_value sum_accepts sum_declines fields 3 0
      (
        ((omega arith, omega arith), omega arith),
        (
          ((omega arith, omega arith), omega arith),
          (((omega arith, omega arith), omega arith), tt),
        ),
      )
      (omega arith)

parse_fields-total_example :
    (r : Bool × ℕ) × (parse_fields decline 3 0 (8 ∷ 255 ∷ 255 ∷ []) ≡ some r)
parse_fields-total_example =
    parse_fields-total decline (λ t s bs. omega arith) 3 0 (8 ∷ 255 ∷ 255 ∷ []) (omega arith)

read_packed_fixed32-each_fixed32_example :
    read_packed_fixed32 (9 ∷ []) (append_varint 8 ++ (each_fixed32 (7 ∷ 70000 ∷ []) ++ 5 ∷ []))
    ≡ (some (true, 9 ∷ 7 ∷ 70000 ∷ []), 5 ∷ [])
read_packed_fixed32-each_fixed32_example =
    read_packed_fixed32-each_fixed32 (9 ∷ []) (7 ∷ 70000 ∷ []) (5 ∷ [])
      (omega arith, (omega arith, tt)) (omega arith)

read_packed_double-each_fixed64_example :
    read_packed_double [] (append_varint 8 ++ (each_fixed64 (7 ∷ []) ++ 5 ∷ []))
    ≡ (some (true, 7 ∷ []), 5 ∷ [])
read_packed_double-each_fixed64_example =
    read_packed_double-each_fixed64 [] (7 ∷ []) (5 ∷ []) (omega arith, tt) (omega arith)
