-- ===== src/Wire/Total.antt =====
-- `parseFields` ends: every round takes at least one byte.
use plotjuggler_core.Prelude.{
  ℕ, zero, suc, ◌+◌, ◌*◌, ◌%◌, ◌^◌, ◌<◌, ◌≤◌, ◌≡◌, refl, some, none, List, [], ◌∷◌, arith, length,
  drop, Bool, true, false, Bool-cases, inl, inr,
}
use plotjuggler_core.Wire.Format.{
  WireType, varint, fixed64, length_delimited, fixed32, unknown, Tag, Read,
}
use plotjuggler_core.Wire.Reader.{
  varint_from, read_varint, read_tag, read_bytes, bytes_of_length, skip, skip_bytes, succeeded,
  parse_fields, parse_field, or_skip, FieldHandler,
}

length-drop : (n : ℕ) (xs : List ℕ) → length (drop n xs) ≤ length xs
length-drop zero xs = omega arith
length-drop (suc n) [] = omega arith
length-drop (suc n) (x ∷ xs) = omega (arith, length-drop n xs)

varint_from-le : (n s out : ℕ) (bs : List ℕ) → length (varint_from n s out bs).1 ≤ length bs
unfolding varint_from
varint_from-le zero s out bs = omega arith
varint_from-le (suc n) s out [] = omega arith
varint_from-le (suc n) s out (b ∷ bs) =
    ground (arith, varint_from-le n (s + 7) (out + b % 128 * 2 ^ s) bs)

read_varint-lt : (b : ℕ) (bs : List ℕ) → length (read_varint (b ∷ bs)).1 < suc (length bs)
unfolding read_varint varint_from
read_varint-lt b bs = ground (arith, varint_from-le 9 7 (b % 128 * 2 ^ 0) bs)

read_tag-lt : (b : ℕ) (bs : List ℕ) → length (read_tag (b ∷ bs)).1 < suc (length bs)
unfolding read_tag
read_tag-lt b bs = ground (arith, read_varint-lt b bs)

succeeded-1 {ℓ} : {A : Type ℓ} (r : Read A) → (succeeded r).1 ≡ r.1
succeeded-1 (none, bs) = refl
succeeded-1 (some a, bs) = refl

bytes_of_length-le : (r : Read ℕ) → length (bytes_of_length r).1 ≤ length r.1
bytes_of_length-le (none, bs) = omega arith
bytes_of_length-le (some n, bs) = ground (arith, length-drop n bs)

read_bytes-le : (bs : List ℕ) → length (read_bytes bs).1 ≤ length bs
unfolding read_bytes read_varint
read_bytes-le bs = omega (arith, bytes_of_length-le (read_varint bs), varint_from-le 10 0 0 bs)

read_varint-le : (bs : List ℕ) → length (read_varint bs).1 ≤ length bs
unfolding read_varint
read_varint-le bs = varint_from-le 10 0 0 bs

skip-le : (t : WireType) (bs : List ℕ) → length (skip t bs).1 ≤ length bs
unfolding skip skip_bytes
skip-le varint bs = rw (succeeded-1 (read_varint bs)) (read_varint-le bs)
skip-le fixed64 bs = ground (arith, length-drop 8 bs)
skip-le length_delimited bs = rw (succeeded-1 (read_bytes bs)) (read_bytes-le bs)
skip-le fixed32 bs = ground (arith, length-drop 4 bs)
skip-le (unknown n) bs = omega arith

module _ {ℓ} {S : Type ℓ} (handler : FieldHandler S)
    (forward : (tag : Tag) (s : S) (bs : List ℕ) → length (handler tag s bs).2 ≤ length bs) where
  or_skip-le :
      (type : WireType) (r : Bool × S × List ℕ) → length (or_skip handler type r).2 ≤ length r.2
  or_skip-le type (true, s, bs) = omega arith
  or_skip-le type (false, s, bs) = skip-le type bs

  parse_field-le : (s : S) (r : Read Tag) → length (parse_field handler s r).2 ≤ length r.1
  parse_field-le s (none, bs) = omega arith
  parse_field-le s (some tag, bs) =
      omega (arith, or_skip-le tag.type (handler tag s bs), forward tag s bs)

  parse_field-lt :
      (s : S) (b : ℕ) (bs : List ℕ)
      → length (parse_field handler s (read_tag (b ∷ bs))).2 < suc (length bs)
  parse_field-lt s b bs = omega (arith, parse_field-le s (read_tag (b ∷ bs)), read_tag-lt b bs)

  -- With a handler that never moves the reader back, `parseFields` ends on any bytes, malformed
  -- ones too: as much fuel as there are bytes is enough for a result.
  pub parse_fields-total :
      (fuel : ℕ) (s : S) (bs : List ℕ)
      → length bs ≤ fuel
      → (r : Bool × S) × (parse_fields handler fuel s bs ≡ some r)
  unfolding parse_fields
  parse_fields-total zero s [] h = ((true, s), refl)
  parse_fields-total zero s (b ∷ bs) h = absurd (omega arith)
  parse_fields-total (suc fuel) s [] h = ((true, s), refl)
  parse_fields-total (suc fuel) s (b ∷ bs) h =
      let step = parse_field handler s (read_tag (b ∷ bs)) in
      let (r, e) = parse_fields-total fuel step.1 step.2 (omega (arith, parse_field-lt s b bs)) in
      elim (Bool-cases step.0) [ inl t ↦ (r, rw (t, e)) | inr f ↦ ((false, step.1), rw f) ]
