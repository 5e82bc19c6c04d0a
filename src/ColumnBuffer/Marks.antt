-- ===== src/ColumnBuffer/Marks.antt =====
-- Both loops that write the bitmap of a column, over a list of flags.
use plotjuggler_core.Prelude.{
  ℕ, zero, suc, ◌+◌, ◌*◌, ◌/◌, ◌<◌, ◌≤◌, ◌≡◌, refl, ap, ap₂, ◌∙◌, sym, Bool, true, false, List, [],
  ◌∷◌, ◌++◌, length, ◌==◌, if◌then◌else◌, arith, append_assoc, append-nil, length-append,
}
use plotjuggler_core.Buffer.{BitVector, BitSpan, ensure_size, set_valid, set_null, is_valid, test}
use plotjuggler_core.Buffer.Validity.{
  IsBytes, is_valid-set_valid, is_valid-set_null, set_valid-IsBytes, set_null-IsBytes,
}
use plotjuggler_core.ColumnBuffer.{set_valid_range, apply_validity}
use plotjuggler_core.ColumnBuffer.Validity.{
  row_flags, Tracks, row_flags_cong, length-set, ensure_size-Grown, trues, length-row_flags,
}

abbrev put : Bool → ℕ → BitVector → BitVector
put b i v = if b then set_valid i v else set_null i v

-- Both loops over rows write a list of flags, from row `i` on.
abbrev pub mark : List Bool → ℕ → BitVector → BitVector
mark [] i v = v
mark (b ∷ bs) i v = mark bs (i + 1) (put b i v)

-- The bits `i` to `i + count - 1` of a span.
abbrev pub span_flags : ℕ → ℕ → BitSpan → List Bool
span_flags zero i span = []
span_flags (suc count) i span = test i span ∷ span_flags count (i + 1) span

pub length-span_flags : (n i : ℕ) (span : BitSpan) → length (span_flags n i span) ≡ n
length-span_flags zero i span = refl
length-span_flags (suc n) i span = ap suc (length-span_flags n (i + 1) span)

pub set_valid_range-mark : (n i : ℕ) (v : BitVector) → set_valid_range n i v ≡ mark (trues n) i v
unfolding set_valid_range
set_valid_range-mark zero i v = refl
set_valid_range-mark (suc n) i v = set_valid_range-mark n (i + 1) (set_valid i v)

pub apply_validity-mark :
    (n i start : ℕ) (span : BitSpan) (v : BitVector)
    → apply_validity n i start span v ≡ mark (span_flags n i span) (start + i) v
unfolding apply_validity
apply_validity-mark zero i start span v = refl
apply_validity-mark (suc n) i start span v =
    let e : start + i + 1 ≡ start + (i + 1) = omega arith in
    let w = put (test i span) (start + i) v in
    apply_validity-mark n (i + 1) start span w
    ∙ ap (λ (k : ℕ). mark (span_flags n (i + 1) span) k w) (sym e)

is_valid-put :
    (b : Bool) (i j : ℕ) (v : BitVector)
    → IsBytes v.bytes
    → i < 8 * length v.bytes
    → is_valid j (put b i v) ≡ (if i == j then b else is_valid j v)
is_valid-put true i j v h r = is_valid-set_valid v i j h (omega arith)
is_valid-put false i j v h r = is_valid-set_null v i j h (omega arith)

put-IsBytes : (b : Bool) (i : ℕ) (v : BitVector) → IsBytes v.bytes → IsBytes (put b i v).bytes
put-IsBytes true i v h = set_valid-IsBytes v i h
put-IsBytes false i v h = set_null-IsBytes v i h

length-put : (b : Bool) (i : ℕ) (v : BitVector) → length (put b i v).bytes ≡ length v.bytes
unfolding set_valid set_null
length-put true i v = length-set v.bytes (i / 8) _
length-put false i v = length-set v.bytes (i / 8) _

bit_count-put : (b : Bool) (i : ℕ) (v : BitVector) → (put b i v).bit_count ≡ v.bit_count
unfolding set_valid set_null
bit_count-put true i v = refl
bit_count-put false i v = refl

row_flags-put :
    (b : Bool) (i : ℕ) (v : BitVector)
    → IsBytes v.bytes
    → i < 8 * length v.bytes
    → row_flags (suc i) (put b i v) ≡ row_flags i v ++ b ∷ []
row_flags-put b i v h r =
    ap₂ ◌++◌ (row_flags_cong i (put b i v) v (λ j lt. is_valid-put b i j v h r ∙ ground arith))
      (ap (λ (c : Bool). c ∷ []) (is_valid-put b i i v h r ∙ ground arith))

-- The bitmap `w` after the flags `bs` are written behind the first `i` rows of `v`.
record Marked (i : ℕ) (bs : List Bool) (v w : BitVector) : Type 0 where
  marked_small : IsBytes w.bytes
  marked_length : length w.bytes ≡ length v.bytes
  marked_count : w.bit_count ≡ v.bit_count
  marked_flags : row_flags (i + length bs) w ≡ row_flags i v ++ bs

mark-Marked :
    (bs : List Bool) (i : ℕ) (v : BitVector)
    → IsBytes v.bytes
    → i + length bs ≤ 8 * length v.bytes
    → Marked i bs v (mark bs i v)
mark-Marked [] i v h r =
    let z : i + 0 ≡ i = omega arith in
    record {
      marked_small = h;
      marked_length = refl;
      marked_count = refl;
      marked_flags = rw (z, append-nil (row_flags i v));
    }
mark-Marked (b ∷ bs) i v h r =
    let lp = length-put b i v in
    let rest : Marked (i + 1) bs (put b i v) (mark bs (i + 1) (put b i v)) =
      mark-Marked bs (i + 1) (put b i v) (put-IsBytes b i v h) (rw lp (omega arith)) in
    let s : i + suc (length bs) ≡ i + 1 + length bs = omega arith in
    let t : i + 1 ≡ suc i = omega arith in
    record {
      marked_small = rest.marked_small;
      marked_length = rest.marked_length ∙ lp;
      marked_count = rest.marked_count ∙ bit_count-put b i v;
      marked_flags = rw s (
          rest.marked_flags
          ∙ ap (λ (n : ℕ). row_flags n (put b i v) ++ bs) t
          ∙ ap (λ (fs : List Bool). fs ++ bs) (row_flags-put b i v h (omega arith))
          ∙ append_assoc (row_flags i v) (b ∷ []) bs);
    }

row_flags_front :
    (n k : ℕ) (v : BitVector) → (fs : List Bool) × (row_flags (n + k) v ≡ row_flags n v ++ fs)
row_flags_front n zero v =
    let z : n + 0 ≡ n = omega arith in ([], rw (z, append-nil (row_flags n v)))
row_flags_front n (suc k) v =
    let s : n + suc k ≡ suc (n + k) = omega arith in
    let p = row_flags_front n k v in
    (
      p.0 ++ is_valid (n + k) v ∷ [],
      rw s (
          ap (λ (fs : List Bool). fs ++ is_valid (n + k) v ∷ []) p.1
          ∙ append_assoc (row_flags n v) p.0 (is_valid (n + k) v ∷ [])),
    )

append_front : (xs ys zs bs : List Bool) → length xs ≡ length zs → xs ++ ys ≡ zs ++ bs → xs ≡ zs
append_front [] ys [] bs h e = refl
append_front [] ys (a ∷ zs) bs h e = absurd (omega arith)
append_front (x ∷ xs) ys [] bs h e = absurd (omega arith)
append_front (x ∷ xs) ys (a ∷ zs) bs h e =
    let first : x ≡ a = ground arith in
    let rest : xs ++ ys ≡ zs ++ bs = ground arith in
    ap₂ ◌∷◌ first (append_front xs ys zs bs (omega arith) rest)

-- The rows behind `front` are new or overwritten; those of `front` stay.
pub mark-Tracks :
    (v : BitVector) (front old bs : List Bool)
    → Tracks v (front ++ old)
    → length old ≤ length bs
    → Tracks (mark bs (length front) (ensure_size (length front + length bs) v)) (front ++ bs)
mark-Tracks v front old bs t le =
    let n = length front in
    let lo : length (front ++ old) ≡ n + length old = length-append front old in
    let lb : length (front ++ bs) ≡ n + length bs = length-append front bs in
    let g = ensure_size-Grown (n + length bs) v t.bytes_small in
    let w = ensure_size (n + length bs) v in
    let m = mark-Marked bs n w g.grown_small g.grown_room in
    let split = row_flags_front n (length old) v in
    let whole : row_flags n v ++ split.0 ≡ front ++ old =
      sym split.1 ∙ ap (λ (k : ℕ). row_flags k v) (sym lo) ∙ t.agree in
    let kept : row_flags n v ≡ front =
      append_front (row_flags n v) split.0 front old (length-row_flags n v) whole in
    record {
      bytes_small = m.marked_small;
      room = omega (arith, lb, m.marked_length, g.grown_room);
      bit_count = m.marked_count ∙ g.grown_count ∙ ground (arith, t.bit_count, lo, lb);
      agree =
          ap (λ (k : ℕ). row_flags k (mark bs n w)) lb
          ∙ m.marked_flags
          ∙ ap (λ (fs : List Bool). fs ++ bs) (row_flags_cong n w v (λ j lt. g.same j) ∙ kept);
    }
