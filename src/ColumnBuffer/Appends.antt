-- ===== src/ColumnBuffer/Appends.antt =====
-- A column of a fixed-size type refines the list of its rows: any sequence of appends, and the reads
-- behind it.
use plotjuggler_core.Prelude.{
  ℕ, ◌*◌, ◌^◌, ◌<◌, ◌≡◌, refl, ap, ◌∙◌, subst, not, some, List, [], ◌∷◌, ◌++◌, length, get_elem?,
  arith, append_assoc, append-nil,
}
use plotjuggler_core.Bytes.{load-packed, length-packed}
use plotjuggler_core.Buffer.{BitSpan}
use plotjuggler_core.Chunk.{ColumnDescriptor}
use plotjuggler_core.Encoding.{storage_kind_of, storage_kind_size}
use plotjuggler_core.ColumnBuffer.{
  TypedColumnBuffer, new_column, is_null, append_fixed, append_null, append_fixed_bulk,
  append_validity_bulk, read_fixed, storage_kind,
}
use plotjuggler_core.ColumnBuffer.Flags.{
  Slot, valid_slot, null_slot, slot_values, slot_flags, nulls_in, is_null-FlagsOf,
  length-slot_flags, length-slot_values, get_elem?-slot_values, get_elem?-slot_flags,
}
use plotjuggler_core.ColumnBuffer.Rows.{
  HoldsWords, new_column-HoldsWords, append_fixed-HoldsWords, append_null-HoldsWords, valid_slots,
  append_fixed_bulk-HoldsWords,
}
use plotjuggler_core.ColumnBuffer.Restamp.{flagged_slots, append_validity_bulk-HoldsWords}

-- The calls that fill a column: one word, a null, and a span of words, alone or with the bits at
-- an offset of a validity bitmap.
pub data Append : Type 0 where
  one_value : ℕ → Append
  one_null : Append
  many_values : List ℕ → Append
  many_with_validity : List ℕ → List ℕ → ℕ → Append

abbrev pub validity_span : List ℕ → List ℕ → ℕ → BitSpan
validity_span vs bytes bit_offset = record {
  bytes = bytes;
  bit_offset = bit_offset;
  bit_length = length vs;
}

unfoldable pub do_append : ℕ → Append → TypedColumnBuffer → TypedColumnBuffer
do_append size (one_value v) c = append_fixed size v c
do_append size one_null c = append_null c
do_append size (many_values vs) c = append_fixed_bulk size vs c
do_append size (many_with_validity vs bytes bit_offset) c =
    append_validity_bulk (validity_span vs bytes bit_offset) (append_fixed_bulk size vs c)

-- The rows that a call adds.
unfoldable pub rows_added : Append → List (Slot ℕ)
rows_added (one_value v) = valid_slot v ∷ []
rows_added one_null = null_slot 0 ∷ []
rows_added (many_values vs) = valid_slots vs
rows_added (many_with_validity vs bytes bit_offset) =
    flagged_slots vs 0 (validity_span vs bytes bit_offset)

unfoldable pub run_appends : ℕ → List Append → TypedColumnBuffer → TypedColumnBuffer
run_appends size [] c = c
run_appends size (a ∷ more) c = run_appends size more (do_append size a c)

unfoldable pub all_rows : List Append → List (Slot ℕ)
all_rows [] = []
all_rows (a ∷ more) = rows_added a ++ all_rows more

do_append-HoldsWords :
    (size : ℕ) (a : Append) (c : TypedColumnBuffer) (rows : List (Slot ℕ))
    → storage_kind_size (storage_kind c) ≡ size
    → HoldsWords size c rows
    → HoldsWords size (do_append size a c) (rows ++ rows_added a)
unfolding do_append rows_added
do_append-HoldsWords size (one_value v) c rows k h = append_fixed-HoldsWords size v c rows h
do_append-HoldsWords size one_null c rows k h = append_null-HoldsWords size c rows k h
do_append-HoldsWords size (many_values vs) c rows k h =
    append_fixed_bulk-HoldsWords size vs c rows h
do_append-HoldsWords size (many_with_validity vs bytes bit_offset) c rows k h =
    append_validity_bulk-HoldsWords size (validity_span vs bytes bit_offset)
      (append_fixed_bulk size vs c) rows vs refl (append_fixed_bulk-HoldsWords size vs c rows h)

-- No call changes the type of a column.
descriptor-do_append :
    (size : ℕ) (a : Append) (c : TypedColumnBuffer) → (do_append size a c).descriptor ≡ c.descriptor
unfolding do_append append_fixed append_null append_fixed_bulk append_validity_bulk
descriptor-do_append size (one_value v) c = refl
descriptor-do_append size one_null c = refl
descriptor-do_append size (many_values []) c = refl
descriptor-do_append size (many_values (v ∷ vs)) c = refl
descriptor-do_append size (many_with_validity [] bytes bit_offset) c = refl
descriptor-do_append size (many_with_validity (v ∷ vs) bytes bit_offset) c = ground arith

run_appends-HoldsWords :
    (size : ℕ) (calls : List Append) (c : TypedColumnBuffer) (rows : List (Slot ℕ))
    → storage_kind_size (storage_kind c) ≡ size
    → HoldsWords size c rows
    → HoldsWords size (run_appends size calls c) (rows ++ all_rows calls)
unfolding run_appends all_rows
run_appends-HoldsWords size [] c rows k h = rw (append-nil rows) h
run_appends-HoldsWords size (a ∷ more) c rows k h =
    let d = do_append size a c in
    let kept : storage_kind_size (storage_kind d) ≡ size =
      ap (λ (t : ColumnDescriptor). storage_kind_size (storage_kind_of t.logical_type))
        (descriptor-do_append size a c)
      ∙ k in
    subst (HoldsWords size (run_appends size more d))
      (append_assoc rows (rows_added a) (all_rows more))
      (run_appends-HoldsWords size more d (rows ++ rows_added a) kept
        (do_append-HoldsWords size a c rows k h))

kind_new :
    (d : ColumnDescriptor)
    → storage_kind_size (storage_kind (new_column d))
      ≡ storage_kind_size (storage_kind_of d.logical_type)
unfolding new_column
kind_new d = refl

new_run-HoldsWords :
    (d : ColumnDescriptor) (calls : List Append)
    → HoldsWords
        (storage_kind_size (storage_kind_of d.logical_type))
        (run_appends (storage_kind_size (storage_kind_of d.logical_type)) calls (new_column d))
        (all_rows calls)
new_run-HoldsWords d calls =
    let size = storage_kind_size (storage_kind_of d.logical_type) in
    run_appends-HoldsWords size calls (new_column d) [] (kind_new d) (new_column-HoldsWords size d)

pub read_fixed-HoldsWords :
    (size i : ℕ) (c : TypedColumnBuffer) (rows : List (Slot ℕ)) (s : Slot ℕ)
    → HoldsWords size c rows
    → get_elem? rows i ≡ some s
    → s.value < 256 ^ size
    → read_fixed size i c ≡ s.value
unfolding read_fixed
read_fixed-HoldsWords size i c rows s h e lt =
    rw h.words (load-packed size i s.value (slot_values rows) (get_elem?-slot_values rows i s e) lt)

-- Whatever the sequence of appends to a new column, a row reads back as the word that was
-- appended for it, when that word fits the size of the column's type, and is null exactly when
-- it was appended as a null or its validity bit was clear.
pub run_appends-read :
    (d : ColumnDescriptor) (calls : List Append) (i : ℕ) (s : Slot ℕ)
    → get_elem? (all_rows calls) i ≡ some s
    → s.value < 256 ^ storage_kind_size (storage_kind_of d.logical_type)
    → (read_fixed
          (storage_kind_size (storage_kind_of d.logical_type))
          i
          (run_appends (storage_kind_size (storage_kind_of d.logical_type)) calls (new_column d))
        ≡ s.value)
      × (is_null i
            (run_appends (storage_kind_size (storage_kind_of d.logical_type)) calls (new_column d))
          ≡ not s.valid)
run_appends-read d calls i s e lt =
    let size = storage_kind_size (storage_kind_of d.logical_type) in
    let c = run_appends size calls (new_column d) in
    let h = new_run-HoldsWords d calls in
    (
      read_fixed-HoldsWords size i c (all_rows calls) s h e lt,
      is_null-FlagsOf c (slot_flags (all_rows calls)) i s.valid h.flags
          (get_elem?-slot_flags (all_rows calls) i s e),
    )

-- Whatever the sequence of appends to a new column, its row count is the number of rows appended,
-- its null count the number of those that are null, and its value buffer has one word for each
-- row.
pub run_appends-counts :
    (d : ColumnDescriptor) (calls : List Append)
    → ((run_appends
          (storage_kind_size (storage_kind_of d.logical_type))
          calls
          (new_column d)).row_count
        ≡ length (all_rows calls))
      × ((run_appends
            (storage_kind_size (storage_kind_of d.logical_type))
            calls
            (new_column d)).null_count
          ≡ nulls_in (slot_flags (all_rows calls)))
      × (length
            (run_appends
              (storage_kind_size (storage_kind_of d.logical_type))
              calls
              (new_column d)).values
          ≡ length (all_rows calls) * storage_kind_size (storage_kind_of d.logical_type))
run_appends-counts d calls =
    let size = storage_kind_size (storage_kind_of d.logical_type) in
    let h = new_run-HoldsWords d calls in
    (
      h.flags.rows ∙ length-slot_flags (all_rows calls),
      h.flags.nulls,
      ap length h.words
          ∙ length-packed size (slot_values (all_rows calls))
          ∙ ap (λ (n : ℕ). n * size) (length-slot_values (all_rows calls)),
    )
