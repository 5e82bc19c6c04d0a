-- ===== src/ColumnBuffer/Restamp.antt =====
-- The validity bits of the rows that were appended last are written again.
use plotjuggler_core.Prelude.{
  ℕ, zero, suc, ◌+◌, ◌-◌, ◌<◌, ◌≡◌, refl, ap, ◌∙◌, sym, subst, true, false, List, [], ◌∷◌, ◌++◌,
  length, ◌==◌, if◌then◌else◌, arith, length-append,
}
use plotjuggler_core.Bytes.{packed}
use plotjuggler_core.Buffer.{BitVector, BitSpan, ensure_size, test}
use plotjuggler_core.ColumnBuffer.{
  TypedColumnBuffer, ensure_validity_initialized, append_validity_bulk, apply_validity,
  count_invalid,
}
use plotjuggler_core.ColumnBuffer.Validity.{trues, length-trues}
use plotjuggler_core.ColumnBuffer.Marks.{mark, apply_validity-mark, span_flags, length-span_flags}
use plotjuggler_core.ColumnBuffer.Flags.{
  Slot, slot_values, slot_flags, nulls_in, nulls_in-append, FlagsOf, FlagsOf-marked,
}
use plotjuggler_core.ColumnBuffer.Rows.{
  HoldsWords, valid_slots, slot_flags-valid_slots, slot_values-append, slot_flags-append,
}

-- The values `vs` with the bits of the span from `i` on as their flags.
abbrev pub flagged_slots : List ℕ → ℕ → BitSpan → List (Slot ℕ)
flagged_slots [] i span = []
flagged_slots (v ∷ vs) i span =
    record { value = v; valid = test i span } ∷ flagged_slots vs (i + 1) span

slot_flags-flagged_slots :
    (vs : List ℕ) (i : ℕ) (span : BitSpan)
    → slot_flags (flagged_slots vs i span) ≡ span_flags (length vs) i span
slot_flags-flagged_slots [] i span = refl
slot_flags-flagged_slots (v ∷ vs) i span =
    ap (◌∷◌ (test i span)) (slot_flags-flagged_slots vs (i + 1) span)

slot_values-flagged_slots :
    (vs : List ℕ) (i : ℕ) (span : BitSpan)
    → slot_values (flagged_slots vs i span) ≡ slot_values (valid_slots vs)
slot_values-flagged_slots [] i span = refl
slot_values-flagged_slots (v ∷ vs) i span = ap (◌∷◌ v) (slot_values-flagged_slots vs (i + 1) span)

count_invalid-nulls_in :
    (n i : ℕ) (span : BitSpan) → count_invalid n i span ≡ nulls_in (span_flags n i span)
unfolding count_invalid
count_invalid-nulls_in zero i span = refl
count_invalid-nulls_in (suc n) i span =
    ap (◌+◌ (if test i span then 0 else 1)) (count_invalid-nulls_in n (i + 1) span)

nulls_in-trues : (n : ℕ) → nulls_in (trues n) ≡ 0
nulls_in-trues zero = refl
nulls_in-trues (suc n) = omega (arith, nulls_in-trues n)

apply_validity-from :
    (n start rows k : ℕ) (span : BitSpan) (v : BitVector)
    → rows ≡ start + n
    → k ≡ n
    → apply_validity n 0 (rows - n) span (ensure_size rows v)
      ≡ mark (span_flags n 0 span) start (ensure_size (start + k) v)
apply_validity-from n start rows k span v e ek =
    let s : start + n - n + 0 ≡ start = omega arith in
    rw (e, ek)
      (apply_validity-mark n 0 (start + n - n) span (ensure_size (start + n) v)
        ∙ ap (λ (m : ℕ). mark (span_flags n 0 span) m (ensure_size (start + n) v)) s)

-- What `appendValidityBulk` does on a span that is not empty.
abbrev restamped : BitSpan → TypedColumnBuffer → TypedColumnBuffer
restamped span c = record c {
  validity =
      apply_validity span.bit_length 0 (c.row_count - span.bit_length) span
        (ensure_size c.row_count (ensure_validity_initialized c));
  validity_initialized = true;
  null_count = c.null_count + count_invalid span.bit_length 0 span;
}

append_validity_bulk_none :
    (span : BitSpan) (c : TypedColumnBuffer) → span.bit_length ≡ 0 → append_validity_bulk span c ≡ c
unfolding append_validity_bulk
append_validity_bulk_none span c e = let t : (span.bit_length == 0) ≡ true = ground arith in rw t

append_validity_bulk_some :
    (span : BitSpan) (c : TypedColumnBuffer)
    → 0 < span.bit_length
    → append_validity_bulk span c ≡ restamped span c
unfolding append_validity_bulk
append_validity_bulk_some span c h = let t : (span.bit_length == 0) ≡ false = ground arith in rw t

restamped-HoldsWords :
    (size : ℕ) (span : BitSpan) (c : TypedColumnBuffer) (rows : List (Slot ℕ)) (vs : List ℕ)
    → span.bit_length ≡ length vs
    → HoldsWords size c (rows ++ valid_slots vs)
    → HoldsWords size (restamped span c) (rows ++ flagged_slots vs 0 span)
restamped-HoldsWords size span c rows vs e h =
    let front = slot_flags rows in
    let old = trues (length vs) in
    let bs = span_flags span.bit_length 0 span in
    let lo = length-trues (length vs) in
    let lb = length-span_flags span.bit_length 0 span in
    let before : slot_flags (rows ++ valid_slots vs) ≡ front ++ old =
      slot_flags-append rows (valid_slots vs) ∙ ap (◌++◌ front) (slot_flags-valid_slots vs) in
    let after : slot_flags (rows ++ flagged_slots vs 0 span) ≡ front ++ bs =
      slot_flags-append rows (flagged_slots vs 0 span)
      ∙ ap (◌++◌ front) (slot_flags-flagged_slots vs 0 span)
      ∙ ap (λ (n : ℕ). front ++ span_flags n 0 span) (sym e) in
    let f : FlagsOf c (front ++ old) = subst (FlagsOf c) before h.flags in
    let lf = length-append front old in
    record {
      flags = subst (FlagsOf (restamped span c)) (sym after) (
          FlagsOf-marked c (restamped span c) front old bs f (omega (arith, lo, lb, e))
            (omega (arith, f.rows, lf, lo, lb, e))
            (omega (
              arith,
              f.nulls,
              nulls_in-append front old,
              nulls_in-append front bs,
              nulls_in-trues (length vs),
              count_invalid-nulls_in span.bit_length 0 span,
            ))
            refl
            (apply_validity-from span.bit_length (length front) c.row_count (length bs) span
              (ensure_validity_initialized c) (omega (arith, f.rows, lf, lo, e)) lb));
      words =
          h.words
          ∙ ap (packed size) (
              slot_values-append rows (valid_slots vs)
              ∙ ap (◌++◌ (slot_values rows)) (sym (slot_values-flagged_slots vs 0 span))
              ∙ sym (slot_values-append rows (flagged_slots vs 0 span)));
    }

pub append_validity_bulk-HoldsWords :
    (size : ℕ) (span : BitSpan) (c : TypedColumnBuffer) (rows : List (Slot ℕ)) (vs : List ℕ)
    → span.bit_length ≡ length vs
    → HoldsWords size c (rows ++ valid_slots vs)
    → HoldsWords size (append_validity_bulk span c) (rows ++ flagged_slots vs 0 span)
append_validity_bulk-HoldsWords size span c rows [] e h =
    subst (λ (d : TypedColumnBuffer). HoldsWords size d (rows ++ []))
      (sym (append_validity_bulk_none span c e)) h
append_validity_bulk-HoldsWords size span c rows (v ∷ vs) e h =
    subst (λ (d : TypedColumnBuffer). HoldsWords size d (rows ++ flagged_slots (v ∷ vs) 0 span))
      (sym (append_validity_bulk_some span c (omega (arith, e))))
      (restamped-HoldsWords size span c rows (v ∷ vs) e h)
