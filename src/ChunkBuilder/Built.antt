-- ===== src/ChunkBuilder/Built.antt =====
-- What holds of a column that is built row by row.
use plotjuggler_core.Prelude.{
  ℕ, ◌^◌, ◌<◌, ◌≡◌, refl, ap, ◌∙◌, sym, subst, ◌⊎◌, inl, inr, Bool, true, false, not, ◌&&◌,
  Bool-cases, Option, none, some, List, [], ◌∷◌, ◌++◌, All, All-append, length, ◌==◌, append_assoc,
  append-nil, arith, pos,
}
use plotjuggler_core.Encoding.{
  StorageKind, k_float32, k_float64, k_uint64, storage_kind_of, storage_kind_size,
}
use plotjuggler_core.ColumnBuffer.{
  TypedColumnBuffer, new_column, storage_kind, append_fixed, append_null,
}
use plotjuggler_core.ColumnBuffer.Flags.{Slot, valid_slot, null_slot, length-slot_flags}
use plotjuggler_core.ColumnBuffer.Rows.{
  HoldsWords, new_column-HoldsWords, append_fixed-HoldsWords, append_null-HoldsWords,
}
use plotjuggler_core.Chunk.{ColumnDescriptor}
use plotjuggler_core.ChunkBuilder.{
  Doubles, BuilderColumn, to_double, new_builder_column, update_column_stats, set_word, set_null,
}

-- The rows that cells stand for, a word or none for a null, and the words in them.
abbrev pub cell_rows : List (Option ℕ) → List (Slot ℕ)
cell_rows [] = []
cell_rows (none ∷ cells) = null_slot 0 ∷ cell_rows cells
cell_rows (some word ∷ cells) = valid_slot word ∷ cell_rows cells

abbrev pub words_of : List (Option ℕ) → List ℕ
words_of [] = []
words_of (none ∷ cells) = words_of cells
words_of (some word ∷ cells) = word ∷ words_of cells

kind-append_fixed :
    (size word : ℕ) (c : TypedColumnBuffer)
    → storage_kind (append_fixed size word c) ≡ storage_kind c
unfolding append_fixed
kind-append_fixed size word c = refl

kind-append_null : (c : TypedColumnBuffer) → storage_kind (append_null c) ≡ storage_kind c
unfolding append_null
kind-append_null c = refl

module _ (d : Doubles) where
  -- Nothing is claimed of a column that is not constant. In one that is, the last value is the
  -- first row's, and every row is null or has the first row's word.
  unfoldable pub Uniform : StorageKind → Bool → List (Slot ℕ) → d.floats.Double → Type 0
  Uniform kind false rows last = Unit
  Uniform kind true [] last = last ≡ d.floats.of_int (pos 0)
  Uniform kind true (s ∷ rows) last =
      (last ≡ to_double d kind s.value)
      × All (λ (r : Slot ℕ). (r.valid ≡ false) ⊎ (r.value ≡ s.value)) (s ∷ rows)

  -- The kinds whose columns are sealed as they are, or as a constant.
  abbrev pub IsPlain : StorageKind → Type 0
  IsPlain kind = (kind ≡ k_float32) ⊎ ((kind ≡ k_float64) ⊎ (kind ≡ k_uint64))

  -- On the words of `P` the conversion to `double` tells apart what it is given, and `0` is `0.0`.
  pub record Faithful (kind : StorageKind) (P : ℕ → Type 0) : Type 0 where
    pub zero_in : P 0
    pub fits : (w : ℕ) → P w → w < 256 ^ storage_kind_size kind
    pub zero_value : to_double d kind 0 ≡ d.floats.of_int (pos 0)
    pub tells_apart :
        (v w : ℕ) → P v → P w → d.differs (to_double d kind v) (to_double d kind w) ≡ false → v ≡ w

  pub record Built (kind : StorageKind) (P : ℕ → Type 0) (c : BuilderColumn d)
      (rows : List (Slot ℕ)) : Type 0 where
    pub holds : HoldsWords (storage_kind_size kind) c.buffer rows
    pub words : All (λ (s : Slot ℕ). P s.value) rows
    pub kept : storage_kind c.buffer ≡ kind
    pub uniform : Uniform kind c.stats.is_constant rows c.last_value

  Uniform-set :
      (kind : StorageKind) (P : ℕ → Type 0) (b : Bool) (rows : List (Slot ℕ)) (count word : ℕ)
      (last : d.floats.Double)
      → Faithful kind P
      → All (λ (s : Slot ℕ). P s.value) rows
      → P word
      → count ≡ length rows
      → Uniform kind b rows last
      → Uniform kind
          (b && not (not (count == 0) && d.differs (to_double d kind word) last))
          (rows ++ valid_slot word ∷ [])
          (to_double d kind word)
  unfolding Uniform
  Uniform-set kind P false rows count word last f ps p e u = tt
  Uniform-set kind P true [] count word last f ps p e u =
      let z : (count == 0) ≡ true = ground arith in rw z (refl, (inr refl, tt))
  Uniform-set kind P true (s ∷ rows) count word last f ps p e u =
      let z : (count == 0) ≡ false = ground arith in
      rw z (elim (Bool-cases (d.differs (to_double d kind word) last)) [
        | inl t ↦ rw t tt
        | inr t ↦
            let same : word ≡ s.value =
              f.tells_apart word s.value p ps.0
                (ap (d.differs (to_double d kind word)) (sym u.0) ∙ t) in
            rw t (
              ap (to_double d kind) same,
              All-append _ (s ∷ rows) (valid_slot word ∷ []) u.1 (inr same, tt),
            )
      ])

  Uniform-null :
      (kind : StorageKind) (P : ℕ → Type 0) (b : Bool) (rows : List (Slot ℕ))
      (last : d.floats.Double)
      → Faithful kind P
      → Uniform kind b rows last
      → Uniform kind b (rows ++ null_slot 0 ∷ []) last
  unfolding Uniform
  Uniform-null kind P false rows last f u = tt
  Uniform-null kind P true [] last f u = (u ∙ sym f.zero_value, (inl refl, tt))
  Uniform-null kind P true (s ∷ rows) last f u =
      (u.0, All-append _ (s ∷ rows) (null_slot 0 ∷ []) u.1 (inl refl, tt))

  set_word-Built :
      (kind : StorageKind) (P : ℕ → Type 0) (c : BuilderColumn d) (rows : List (Slot ℕ)) (word : ℕ)
      → Faithful kind P
      → P word
      → Built kind P c rows
      → Built kind P (set_word d word c) (rows ++ valid_slot word ∷ [])
  unfolding set_word update_column_stats
  set_word-Built kind P c rows word f p b = record {
    holds =
        subst
          (λ (k : StorageKind).
            HoldsWords (storage_kind_size kind) (append_fixed (storage_kind_size k) word c.buffer)
              (rows ++ valid_slot word ∷ []))
          (sym b.kept)
          (append_fixed-HoldsWords (storage_kind_size kind) word c.buffer rows b.holds);
    words = All-append (λ (s : Slot ℕ). P s.value) rows (valid_slot word ∷ []) b.words (p, tt);
    kept = kind-append_fixed (storage_kind_size (storage_kind c.buffer)) word c.buffer ∙ b.kept;
    uniform = rw b.kept (
        Uniform-set kind P c.stats.is_constant rows c.buffer.row_count word c.last_value f b.words p
          (b.holds.flags.rows ∙ length-slot_flags rows) b.uniform);
  }

  set_null-Built :
      (kind : StorageKind) (P : ℕ → Type 0) (c : BuilderColumn d) (rows : List (Slot ℕ))
      → Faithful kind P
      → Built kind P c rows
      → Built kind P (set_null d c) (rows ++ null_slot 0 ∷ [])
  unfolding set_null
  set_null-Built kind P c rows f b = record {
    holds =
        append_null-HoldsWords (storage_kind_size kind) c.buffer rows (ap storage_kind_size b.kept)
          b.holds;
    words = All-append (λ (s : Slot ℕ). P s.value) rows (null_slot 0 ∷ []) b.words (f.zero_in, tt);
    kept = kind-append_null c.buffer ∙ b.kept;
    uniform = Uniform-null kind P c.stats.is_constant rows c.last_value f b.uniform;
  }

  -- The cells of a column from the first row on: a word, or none for a null.
  unfoldable pub set_cells : List (Option ℕ) → BuilderColumn d → BuilderColumn d
  set_cells [] c = c
  set_cells (none ∷ cells) c = set_cells cells (set_null d c)
  set_cells (some word ∷ cells) c = set_cells cells (set_word d word c)

  pub set_cells-Built :
      (kind : StorageKind) (P : ℕ → Type 0) (cells : List (Option ℕ)) (c : BuilderColumn d)
      (rows : List (Slot ℕ))
      → Faithful kind P
      → All P (words_of cells)
      → Built kind P c rows
      → Built kind P (set_cells cells c) (rows ++ cell_rows cells)
  unfolding set_cells
  set_cells-Built kind P [] c rows f ps b = rw (append-nil rows) b
  set_cells-Built kind P (none ∷ cells) c rows f ps b =
      subst (Built kind P (set_cells cells (set_null d c)))
        (append_assoc rows (null_slot 0 ∷ []) (cell_rows cells))
        (set_cells-Built kind P cells (set_null d c) (rows ++ null_slot 0 ∷ []) f ps
          (set_null-Built kind P c rows f b))
  set_cells-Built kind P (some word ∷ cells) c rows f ps b =
      subst (Built kind P (set_cells cells (set_word d word c)))
        (append_assoc rows (valid_slot word ∷ []) (cell_rows cells))
        (set_cells-Built kind P cells (set_word d word c) (rows ++ valid_slot word ∷ []) f ps.1
          (set_word-Built kind P c rows word f ps.0 b))

  pub new_builder_column-Built :
      (descriptor : ColumnDescriptor) (P : ℕ → Type 0)
      → Built (storage_kind_of descriptor.logical_type) P (new_builder_column d descriptor) []
  unfolding new_column Uniform
  new_builder_column-Built descriptor P = record {
    holds =
        new_column-HoldsWords (storage_kind_size (storage_kind_of descriptor.logical_type))
          descriptor;
    words = tt;
    kept = refl;
    uniform = refl;
  }
