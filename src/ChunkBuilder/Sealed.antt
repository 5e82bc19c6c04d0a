-- ===== src/ChunkBuilder/Sealed.antt =====
-- A column that is built row by row and sealed reads back as it was built.
use plotjuggler_core.Prelude.{
  ℕ, suc, ◌*◌, ◌^◌, ◌<◌, ◌≤◌, ◌≡◌, refl, ap, ◌∙◌, sym, subst, ◌⊎◌, inl, inr, Bool, true, false, not,
  ◌&&◌, Bool-cases, Option, some, List, [], ◌∷◌, All, length, get_elem?, get_elem?-All, ltb,
  if◌then◌else◌, length-append, arith,
}
use plotjuggler_core.Bytes.{load, le_bytes, packed, length-le_bytes}
use plotjuggler_core.Encoding.{
  StorageKind, EncodedData, storage_kind_of, storage_kind_size, raw, constant, constant_encode,
}
use plotjuggler_core.Encoding.Doubles.{element_as_double, constant_decode_as_double}
use plotjuggler_core.ColumnBuffer.{TypedColumnBuffer, storage_kind, read_fixed}
use plotjuggler_core.ColumnBuffer.Flags.{
  Slot, slot_values, slot_flags, length-slot_flags, get_elem?-slot_flags,
}
use plotjuggler_core.ColumnBuffer.Rows.{HoldsWords}
use plotjuggler_core.ColumnBuffer.Appends.{read_fixed-HoldsWords}
use plotjuggler_core.Chunk
use plotjuggler_core.Chunk.{ColumnDescriptor, Column, read_numeric_as_double}
use plotjuggler_core.Chunk.Seal.{first_word}
use plotjuggler_core.ChunkBuilder.Nulls.{is_null-seal_column}
use plotjuggler_core.ChunkBuilder.{
  Doubles, BuilderColumn, to_double, new_builder_column, seal_data, seal_column,
}
use plotjuggler_core.ChunkBuilder.Built.{
  cell_rows, words_of, IsPlain, Faithful, Built, Uniform, set_cells, set_cells-Built,
  new_builder_column-Built,
}

read_first :
    (size : ℕ) (c : TypedColumnBuffer) (rows : List (Slot ℕ)) (s : Slot ℕ)
    → HoldsWords size c rows
    → get_elem? rows 0 ≡ some s
    → s.value < 256 ^ size
    → load size (0 * size) c.values ≡ s.value
unfolding read_fixed
read_first size c rows s h e lt = read_fixed-HoldsWords size 0 c rows s h e lt

module _ (d : Doubles) where
  element_plain :
      (kind : StorageKind) (at : ℕ) (bytes : List ℕ)
      → IsPlain d kind
      → element_as_double d.floats kind at bytes
        ≡ to_double d kind (load (storage_kind_size kind) at bytes)
  element_plain kind at bytes (inl e) = rw e
  element_plain kind at bytes (inr (inl e)) = rw e
  element_plain kind at bytes (inr (inr e)) = rw e

  -- A plain column is sealed as a constant or as it is.
  plain_data : BuilderColumn d → EncodedData
  plain_data c =
      if c.stats.is_constant && ltb 0 c.buffer.row_count
      then constant (constant_encode c.buffer.values (storage_kind c.buffer) c.buffer.row_count)
      else raw c.buffer.values

  seal_data_plain :
      (c : BuilderColumn d) → IsPlain d (storage_kind c.buffer) → seal_data d c ≡ plain_data c
  unfolding seal_data plain_data
  seal_data_plain c (inl e) = rw e
  seal_data_plain c (inr (inl e)) = rw e
  seal_data_plain c (inr (inr e)) = rw e

  constant_word :
      (kind : StorageKind) (values : List ℕ) (n : ℕ)
      → IsPlain d kind
      → ltb 0 n ≡ true
      → storage_kind_size kind ≤ length values
      → load (storage_kind_size kind) 0 (constant_encode values kind n).value_bytes
        ≡ load (storage_kind_size kind) (0 * storage_kind_size kind) values
  unfolding constant_encode
  constant_word kind values n (inl e) h le =
      rw (e, h) (first_word 4 4 values (subst (λ k. storage_kind_size k ≤ length values) e le))
  constant_word kind values n (inr (inl e)) h le =
      rw (e, h) (first_word 8 0 values (subst (λ k. storage_kind_size k ≤ length values) e le))
  constant_word kind values n (inr (inr e)) h le =
      rw (e, h) (first_word 8 0 values (subst (λ k. storage_kind_size k ≤ length values) e le))

  sealed_raw :
      (kind : StorageKind) (P : ℕ → Type 0) (c : BuilderColumn d) (rows : List (Slot ℕ)) (i : ℕ)
      (s : Slot ℕ)
      → IsPlain d kind
      → Faithful d kind P
      → Built d kind P c rows
      → get_elem? rows i ≡ some s
      → element_as_double d.floats kind (i * storage_kind_size kind) c.buffer.values
        ≡ to_double d kind s.value
  unfolding read_fixed
  sealed_raw kind P c rows i s k f b e =
      element_plain kind (i * storage_kind_size kind) c.buffer.values k
      ∙ ap (to_double d kind) (
          read_fixed-HoldsWords (storage_kind_size kind) i c.buffer rows s b.holds e
            (f.fits s.value (get_elem?-All (λ (r : Slot ℕ). P r.value) rows i b.words e)))

  sealed_constant :
      (kind : StorageKind) (P : ℕ → Type 0) (c : BuilderColumn d) (rows : List (Slot ℕ)) (i : ℕ)
      (s : Slot ℕ)
      → IsPlain d kind
      → Faithful d kind P
      → Built d kind P c rows
      → c.stats.is_constant ≡ true
      → get_elem? rows i ≡ some s
      → (s.valid ≡ false)
        ⊎ (element_as_double d.floats kind 0
              (constant_encode c.buffer.values kind c.buffer.row_count).value_bytes
            ≡ to_double d kind s.value)
  unfolding Uniform
  sealed_constant kind P c [] i s k f b t e = absurd (cc)
  sealed_constant kind P c (r ∷ rows) i s k f b t e =
      let u : Uniform d kind true (r ∷ rows) c.last_value =
        subst (λ (x : Bool). Uniform d kind x (r ∷ rows) c.last_value) t b.uniform in
      let size = storage_kind_size kind in
      let count : c.buffer.row_count ≡ suc (length rows) =
        b.holds.flags.rows ∙ length-slot_flags (r ∷ rows) in
      let some_rows : ltb 0 c.buffer.row_count ≡ true = ground arith in
      let long : size ≤ length c.buffer.values = omega (
        arith,
        ap length b.holds.words,
        length-append (le_bytes size r.value) (packed size (slot_values rows)),
        length-le_bytes size r.value,
      ) in
      let first : load size (0 * size) c.buffer.values ≡ r.value =
        read_first size c.buffer (r ∷ rows) r b.holds refl (f.fits r.value b.words.0) in
      elim (get_elem?-All (λ (x : Slot ℕ). (x.valid ≡ false) ⊎ (x.value ≡ r.value)) (r ∷ rows) i u.1
        e) [
          | inl null ↦ inl null
          | inr same ↦ inr (
              element_plain kind 0 _ k
              ∙ ap (to_double d kind) (
                  constant_word kind c.buffer.values c.buffer.row_count k some_rows long
                  ∙ first
                  ∙ sym same))
        ]

  read_constant :
      (c : BuilderColumn d) (i : ℕ) (kind : StorageKind)
      → storage_kind c.buffer ≡ kind
      → seal_data d c
        ≡ constant (constant_encode c.buffer.values (storage_kind c.buffer) c.buffer.row_count)
      → read_numeric_as_double d.floats (seal_column d c) i
        ≡ element_as_double d.floats kind 0
            (constant_encode c.buffer.values kind c.buffer.row_count).value_bytes
  unfolding seal_column read_numeric_as_double constant_decode_as_double constant_encode
  read_constant c i kind k e = rw e (
      ap
        (λ (x : StorageKind).
          element_as_double d.floats x 0
            (constant_encode c.buffer.values x c.buffer.row_count).value_bytes)
        k)

  read_raw :
      (c : BuilderColumn d) (i : ℕ) (kind : StorageKind)
      → storage_kind c.buffer ≡ kind
      → seal_data d c ≡ raw c.buffer.values
      → read_numeric_as_double d.floats (seal_column d c) i
        ≡ element_as_double d.floats kind (i * storage_kind_size kind) c.buffer.values
  unfolding seal_column read_numeric_as_double
  read_raw c i kind k e = rw e (
      ap
        (λ (x : StorageKind).
          element_as_double d.floats x (i * storage_kind_size x) c.buffer.values)
        k)

  plain_constant :
      (c : BuilderColumn d)
      → (c.stats.is_constant && ltb 0 c.buffer.row_count) ≡ true
      → plain_data c
        ≡ constant (constant_encode c.buffer.values (storage_kind c.buffer) c.buffer.row_count)
  unfolding plain_data
  plain_constant c e = rw e

  plain_raw :
      (c : BuilderColumn d)
      → (c.stats.is_constant && ltb 0 c.buffer.row_count) ≡ false
      → plain_data c ≡ raw c.buffer.values
  unfolding plain_data
  plain_raw c e = rw e

  and_left : (p q : Bool) → (p && q) ≡ true → p ≡ true
  and_left true q h = refl
  and_left false q h = h

  sealed_value :
      (kind : StorageKind) (P : ℕ → Type 0) (c : BuilderColumn d) (rows : List (Slot ℕ)) (i : ℕ)
      (s : Slot ℕ)
      → IsPlain d kind
      → Faithful d kind P
      → Built d kind P c rows
      → get_elem? rows i ≡ some s
      → (s.valid ≡ false)
        ⊎ (read_numeric_as_double d.floats (seal_column d c) i ≡ to_double d kind s.value)
  sealed_value kind P c rows i s k f b e =
      let plain = seal_data_plain c (subst (IsPlain d) (sym b.kept) k) in
      elim (Bool-cases (c.stats.is_constant && ltb 0 c.buffer.row_count)) [
        | inl t ↦
            let read = read_constant c i kind b.kept (plain ∙ plain_constant c t) in
            elim (sealed_constant kind P c rows i s k f b (and_left _ _ t) e) [
              | inl null ↦ inl null
              | inr same ↦ inr (read ∙ same)
            ]
        | inr t ↦ inr (
            read_raw c i kind b.kept (plain ∙ plain_raw c t) ∙ sealed_raw kind P c rows i s k f b e)
      ]

  -- A column of floats, doubles or unsigned integers that is built row by row and sealed: a row is
  -- null exactly when it was set to null, and otherwise reads as the double of the word that was
  -- set, provided that on the words set and 0 the conversion to double tells words apart.
  pub set_cells-seal_column :
      (descriptor : ColumnDescriptor) (P : ℕ → Type 0) (cells : List (Option ℕ)) (i : ℕ)
      (s : Slot ℕ)
      → IsPlain d (storage_kind_of descriptor.logical_type)
      → Faithful d (storage_kind_of descriptor.logical_type) P
      → All P (words_of cells)
      → get_elem? (cell_rows cells) i ≡ some s
      → (Chunk.is_null (seal_column d (set_cells d cells (new_builder_column d descriptor))) i
          ≡ not s.valid)
        × ((s.valid ≡ false)
            ⊎ (read_numeric_as_double d.floats
                  (seal_column d (set_cells d cells (new_builder_column d descriptor)))
                  i
                ≡ to_double d (storage_kind_of descriptor.logical_type) s.value))
  set_cells-seal_column descriptor P cells i s k f ps e =
      let kind = storage_kind_of descriptor.logical_type in
      let c = set_cells d cells (new_builder_column d descriptor) in
      let b : Built d kind P c (cell_rows cells) =
        set_cells-Built d kind P cells (new_builder_column d descriptor) [] f ps
          (new_builder_column-Built d descriptor P) in
      (
        is_null-seal_column d c (slot_flags (cell_rows cells)) i s.valid b.holds.flags
            (get_elem?-slot_flags (cell_rows cells) i s e),
        sealed_value kind P c (cell_rows cells) i s k f b e,
      )
