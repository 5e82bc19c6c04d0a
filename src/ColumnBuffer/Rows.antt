-- ===== src/ColumnBuffer/Rows.antt =====
-- A column of a fixed-size type holds a list of rows, each a word and whether it is valid.
use plotjuggler_core.Prelude.{
  ℕ, ◌+◌, ◌≡◌, refl, ap, ◌∙◌, sym, subst, true, false, List, [], ◌∷◌, ◌++◌, length, if◌then◌else◌,
  arith, append-nil,
}
use plotjuggler_core.Bytes.{le_bytes, packed, packed-append}
use plotjuggler_core.Buffer.{BitVector, ensure_size, set_null}
use plotjuggler_core.Chunk.{ColumnDescriptor}
use plotjuggler_core.Encoding.{storage_kind_size}
use plotjuggler_core.ColumnBuffer.{
  TypedColumnBuffer, new_column, ensure_validity_initialized, append_fixed, append_null,
  extend_validity, append_fixed_bulk, storage_kind,
}
use plotjuggler_core.ColumnBuffer.Validity.{trues}
use plotjuggler_core.ColumnBuffer.Marks.{set_valid_range-mark}
use plotjuggler_core.ColumnBuffer.Flags.{
  Slot, valid_slot, null_slot, slot_values, slot_flags, nulls_in-append, FlagsOf, FlagsOf-extended,
  FlagsOf-marked, extended,
}

pub slot_values-append {ℓ} :
    {A : Type ℓ} (xs ys : List (Slot A)) → slot_values (xs ++ ys) ≡ slot_values xs ++ slot_values ys
slot_values-append [] ys = refl
slot_values-append (x ∷ xs) ys = ap (◌∷◌ x.value) (slot_values-append xs ys)

pub slot_flags-append {ℓ} :
    {A : Type ℓ} (xs ys : List (Slot A)) → slot_flags (xs ++ ys) ≡ slot_flags xs ++ slot_flags ys
slot_flags-append [] ys = refl
slot_flags-append (x ∷ xs) ys = ap (◌∷◌ x.valid) (slot_flags-append xs ys)

-- The column `c` of words of `size` bytes holds `rows`.
pub record HoldsWords (size : ℕ) (c : TypedColumnBuffer) (rows : List (Slot ℕ)) : Type 0 where
  pub flags : FlagsOf c (slot_flags rows)
  pub words : c.values ≡ packed size (slot_values rows)

pub new_column-HoldsWords : (size : ℕ) (d : ColumnDescriptor) → HoldsWords size (new_column d) []
unfolding new_column
new_column-HoldsWords size d = record {
  flags = record { rows = refl; nulls = refl; known = refl };
  words = refl;
}

words_snoc :
    (size : ℕ) (c : TypedColumnBuffer) (rows : List (Slot ℕ)) (s : Slot ℕ)
    → c.values ≡ packed size (slot_values rows)
    → c.values ++ le_bytes size s.value ≡ packed size (slot_values (rows ++ s ∷ []))
words_snoc size c rows s e =
    ap (λ (b : List ℕ). b ++ le_bytes size s.value) e
    ∙ ap (◌++◌ (packed size (slot_values rows))) (sym (append-nil (le_bytes size s.value)))
    ∙ sym (packed-append size (slot_values rows) (s.value ∷ []))
    ∙ ap (packed size) (sym (slot_values-append rows (s ∷ [])))

pub append_fixed-HoldsWords :
    (size value : ℕ) (c : TypedColumnBuffer) (rows : List (Slot ℕ))
    → HoldsWords size c rows
    → HoldsWords size (append_fixed size value c) (rows ++ valid_slot value ∷ [])
unfolding append_fixed
append_fixed-HoldsWords size value c rows h = record {
  flags =
      subst (FlagsOf (append_fixed size value c))
        (sym (slot_flags-append rows (valid_slot value ∷ [])))
        (FlagsOf-extended 1 c (append_fixed size value c) (slot_flags rows) h.flags refl refl refl
          refl);
  words = words_snoc size c rows (valid_slot value) h.words;
}

pub append_null-HoldsWords :
    (size : ℕ) (c : TypedColumnBuffer) (rows : List (Slot ℕ))
    → storage_kind_size (storage_kind c) ≡ size
    → HoldsWords size c rows
    → HoldsWords size (append_null c) (rows ++ null_slot 0 ∷ [])
unfolding append_null
append_null-HoldsWords size c rows k h =
    let f = h.flags in
    let fl = slot_flags rows in
    record {
      flags = subst (FlagsOf (append_null c)) (sym (slot_flags-append rows (null_slot 0 ∷ []))) (
          FlagsOf-marked c (append_null c) fl [] (false ∷ [])
            (subst (FlagsOf c) (sym (append-nil fl)) f) (omega arith) (omega (arith, f.rows))
            (omega (arith, f.nulls, nulls_in-append fl (false ∷ []))) refl
            (ap (λ (n : ℕ). set_null n (ensure_size (n + 1) (ensure_validity_initialized c)))
              f.rows));
      words = rw k (words_snoc size c rows (null_slot 0) h.words);
    }

abbrev pub valid_slots {ℓ} : {A : Type ℓ} → List A → List (Slot A)
valid_slots [] = []
valid_slots (v ∷ vs) = valid_slot v ∷ valid_slots vs

pub slot_values-valid_slots {ℓ} : {A : Type ℓ} (vs : List A) → slot_values (valid_slots vs) ≡ vs
slot_values-valid_slots [] = refl
slot_values-valid_slots (v ∷ vs) = ap (◌∷◌ v) (slot_values-valid_slots vs)

pub slot_flags-valid_slots {ℓ} :
    {A : Type ℓ} (vs : List A) → slot_flags (valid_slots vs) ≡ trues (length vs)
slot_flags-valid_slots [] = refl
slot_flags-valid_slots (v ∷ vs) = ap (◌∷◌ true) (slot_flags-valid_slots vs)

words_append :
    (size : ℕ) (bytes : List ℕ) (rows more : List (Slot ℕ)) (vs : List ℕ)
    → bytes ≡ packed size (slot_values rows)
    → slot_values more ≡ vs
    → bytes ++ packed size vs ≡ packed size (slot_values (rows ++ more))
words_append size bytes rows more vs e m =
    ap (λ (b : List ℕ). b ++ packed size vs) e
    ∙ sym (packed-append size (slot_values rows) vs)
    ∙ ap (λ (w : List ℕ). packed size (slot_values rows ++ w)) (sym m)
    ∙ ap (packed size) (sym (slot_values-append rows more))

pub extend_validity-extended : (n : ℕ) (c : TypedColumnBuffer) → extend_validity n c ≡ extended n c
unfolding extend_validity
extend_validity-extended n c =
    ap (λ (v : BitVector). if c.validity_initialized then v else c.validity)
      (set_valid_range-mark n c.row_count (ensure_size (c.row_count + n) c.validity))

pub append_fixed_bulk-HoldsWords :
    (size : ℕ) (vs : List ℕ) (c : TypedColumnBuffer) (rows : List (Slot ℕ))
    → HoldsWords size c rows
    → HoldsWords size (append_fixed_bulk size vs c) (rows ++ valid_slots vs)
unfolding append_fixed_bulk
append_fixed_bulk-HoldsWords size [] c rows h = rw (append-nil rows) h
append_fixed_bulk-HoldsWords size (v ∷ vs) c rows h =
    let d = append_fixed_bulk size (v ∷ vs) c in
    let fs : slot_flags (rows ++ valid_slots (v ∷ vs))
        ≡ slot_flags rows ++ trues (length (v ∷ vs)) =
      slot_flags-append rows (valid_slots (v ∷ vs))
      ∙ ap (◌++◌ (slot_flags rows)) (slot_flags-valid_slots (v ∷ vs)) in
    record {
      flags = subst (FlagsOf d) (sym fs) (
          FlagsOf-extended (length (v ∷ vs)) c d (slot_flags rows) h.flags refl refl refl
            (extend_validity-extended (length (v ∷ vs)) c));
      words =
          words_append size c.values rows (valid_slots (v ∷ vs)) (v ∷ vs) h.words
            (slot_values-valid_slots (v ∷ vs));
    }
