-- ===== src/Wire/Writer.antt =====
-- `Writer`: each function is what the call appends to the output.
use plotjuggler_core.Prelude.{
  ℕ, zero, suc, ◌+◌, ◌*◌, ◌/◌, ◌%◌, List, [], ◌∷◌, ◌++◌, length, leb, ◌==◌, if◌then◌else◌,
}
use plotjuggler_core.Bytes.{le_bytes}
use plotjuggler_core.Wire.Format.{WireType, varint, fixed64, length_delimited, fixed32, wire_number}

-- `appendVarint`, on fuel: a 64-bit value has at most ten groups of seven bits.
unfoldable pub varint_bytes : ℕ → ℕ → List ℕ
varint_bytes zero value = []
varint_bytes (suc fuel) value =
    let rest = varint_bytes fuel (value / 128) in
    if leb 128 value then (value % 128 + 128) ∷ rest else value ∷ []

unfoldable pub append_varint : ℕ → List ℕ
unfolding varint_bytes
append_varint value = varint_bytes 10 value

unfoldable pub append_fixed64 : ℕ → List ℕ
append_fixed64 value = le_bytes 8 value

unfoldable pub append_fixed32 : ℕ → List ℕ
append_fixed32 value = le_bytes 4 value

unfoldable pub tag : ℕ → WireType → List ℕ
tag field type = append_varint (field * 8 + wire_number type)

unfoldable pub write_varint : ℕ → ℕ → List ℕ
write_varint field value = tag field varint ++ append_varint value

unfoldable pub write_fixed64 : ℕ → ℕ → List ℕ
write_fixed64 field value = tag field fixed64 ++ append_fixed64 value

unfoldable pub write_fixed32 : ℕ → ℕ → List ℕ
write_fixed32 field value = tag field fixed32 ++ append_fixed32 value

unfoldable pub write_bytes : ℕ → List ℕ → List ℕ
write_bytes field payload =
    tag field length_delimited ++ (append_varint (length payload) ++ payload)

unfoldable pub write_message : ℕ → List ℕ → List ℕ
write_message field body = write_bytes field body

abbrev pub each_fixed32 : List ℕ → List ℕ
each_fixed32 [] = []
each_fixed32 (v ∷ vs) = append_fixed32 v ++ each_fixed32 vs

abbrev pub each_fixed64 : List ℕ → List ℕ
each_fixed64 [] = []
each_fixed64 (v ∷ vs) = append_fixed64 v ++ each_fixed64 vs

unfoldable pub packed_fixed32 : ℕ → List ℕ → List ℕ
packed_fixed32 field values =
    if length values == 0
    then []
    else tag field length_delimited ++ (append_varint (length values * 4) ++ each_fixed32 values)

-- A double is its 64-bit pattern.
unfoldable pub packed_double : ℕ → List ℕ → List ℕ
packed_double field values =
    if length values == 0
    then []
    else tag field length_delimited ++ (append_varint (length values * 8) ++ each_fixed64 values)
