-- ===== src/ColumnBuffer/StringAppends.antt =====
-- Any sequence of appends to a string column, and the strings read back behind it.
use plotjuggler_core.Prelude.{
  ℕ, ◌+◌, ◌*◌, ◌^◌, ◌<◌, ◌≡◌, some, List, [], ◌∷◌, ◌++◌, length, get_elem?,
}
use plotjuggler_core.Bytes.{load, packed, load-packed}
use plotjuggler_core.ColumnBuffer.{
  TypedColumnBuffer, append_string, append_null, append_strings_bulk,
}
use plotjuggler_core.ColumnBuffer.Flags.{Slot, valid_slot, null_slot, slot_values}
use plotjuggler_core.ColumnBuffer.Rows.{valid_slots}
use plotjuggler_core.ColumnBuffer.Strings.{concat, ends}

-- The calls that fill a string column: one string, a null, and the strings of a source buffer
-- between `front` and `back`.
pub data StringAppend : Type 0 where
  one_string : List ℕ → StringAppend
  one_null : StringAppend
  many_strings : List ℕ → List (List ℕ) → List ℕ → StringAppend

unfoldable pub do_append : StringAppend → TypedColumnBuffer → TypedColumnBuffer
do_append (one_string s) c = append_string s c
do_append one_null c = append_null c
do_append (many_strings front ss back) c =
    append_strings_bulk (length front ∷ ends (length front) ss) (front ++ (concat ss ++ back)) c

unfoldable pub rows_added : StringAppend → List (Slot (List ℕ))
rows_added (one_string s) = valid_slot s ∷ []
rows_added one_null = null_slot [] ∷ []
rows_added (many_strings front ss back) = valid_slots ss

-- The offsets into the source buffer are 32-bit words.
unfoldable pub SourceFits : StringAppend → Type 0
SourceFits (one_string s) = Unit
SourceFits one_null = Unit
SourceFits (many_strings front ss back) = length front + length (concat ss) < 2 ^ 32

unfoldable pub run_appends : List StringAppend → TypedColumnBuffer → TypedColumnBuffer
run_appends [] c = c
run_appends (a ∷ more) c = run_appends more (do_append a c)

unfoldable pub all_rows : List StringAppend → List (Slot (List ℕ))
all_rows [] = []
all_rows (a ∷ more) = rows_added a ++ all_rows more

unfoldable pub string_bytes : List (Slot (List ℕ)) → ℕ
string_bytes rows = length (concat (slot_values rows))

offset_at :
    (row v : ℕ) (c : TypedColumnBuffer) (os : List ℕ)
    → c.offsets ≡ packed 4 os
    → get_elem? os row ≡ some v
    → v < 2 ^ 32
    → load 4 (row * 4) c.offsets ≡ v
offset_at row v c os e at lt = rw e (load-packed 4 row v os at lt)
