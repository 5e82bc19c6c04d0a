-- ===== src/Wire/Parse.antt =====
-- `parseFields` over a message that `Writer` wrote.
use plotjuggler_core.Prelude.{
  ℕ, zero, suc, ◌+◌, ◌*◌, ◌^◌, ◌<◌, ◌≤◌, ◌≡◌, refl, some, List, [], ◌∷◌, ◌++◌, arith, Bool, true,
  false, length, All, append_assoc, Bool-cases, inl, inr,
}
use plotjuggler_core.Bytes.{le_bytes, length-le_bytes}
use plotjuggler_core.Wire.Format.{
  WireType, varint, fixed64, length_delimited, fixed32, Tag, wire_number,
}
use plotjuggler_core.Wire.Writer.{
  append_varint, append_fixed64, append_fixed32, tag, write_varint, write_fixed64, write_fixed32,
  write_bytes, varint_bytes,
}
use plotjuggler_core.Wire.Reader.{eof, read_tag, skip, parse_fields, parse_field, FieldHandler}
use plotjuggler_core.Wire.Varint.{read_varint-append_varint}
use plotjuggler_core.Wire.Fields.{
  IsField, read_tag-tag, read_bytes-append_varint, skip_bytes-append,
}

-- One call of a `Writer`.
pub data Field : Type 0 where
  varint_field : ℕ → ℕ → Field
  fixed64_field : ℕ → ℕ → Field
  bytes_field : ℕ → List ℕ → Field
  fixed32_field : ℕ → ℕ → Field

abbrev pub number : Field → ℕ
number (varint_field n v) = n
number (fixed64_field n v) = n
number (bytes_field n xs) = n
number (fixed32_field n v) = n

abbrev pub type_of : Field → WireType
type_of (varint_field n v) = varint
type_of (fixed64_field n v) = fixed64
type_of (bytes_field n xs) = length_delimited
type_of (fixed32_field n v) = fixed32

-- What stands behind the tag.
abbrev pub body : Field → List ℕ
body (varint_field n v) = append_varint v
body (fixed64_field n v) = append_fixed64 v
body (bytes_field n xs) = append_varint (length xs) ++ xs
body (fixed32_field n v) = append_fixed32 v

abbrev pub write_field : Field → List ℕ
write_field (varint_field n v) = write_varint n v
write_field (fixed64_field n v) = write_fixed64 n v
write_field (bytes_field n xs) = write_bytes n xs
write_field (fixed32_field n v) = write_fixed32 n v

abbrev pub write_fields : List Field → List ℕ
write_fields [] = []
write_fields (f ∷ fs) = write_field f ++ write_fields fs

-- Values and lengths are 64-bit words.
abbrev ValueFits : Field → Type 0
ValueFits (varint_field n v) = v < 2 ^ 64
ValueFits (fixed64_field n v) = v < 2 ^ 64
ValueFits (bytes_field n xs) = length xs < 2 ^ 64
ValueFits (fixed32_field n v) = v < 2 ^ 32

abbrev pub Fits : Field → Type 0
Fits f = IsField (number f) × ValueFits f

abbrev pub tag_for : Field → Tag
tag_for f = record { field = number f; type = type_of f }

write_field_parts : (f : Field) → write_field f ≡ tag (number f) (type_of f) ++ body f
unfolding write_varint write_fixed64 write_bytes write_fixed32
write_field_parts (varint_field n v) = refl
write_field_parts (fixed64_field n v) = refl
write_field_parts (bytes_field n xs) = refl
write_field_parts (fixed32_field n v) = refl

read_tag-write_field :
    (f : Field) (rest : List ℕ)
    → Fits f
    → read_tag (write_field f ++ rest) ≡ (some (tag_for f), body f ++ rest)
read_tag-write_field f rest h =
    rw (write_field_parts f, append_assoc (tag (number f) (type_of f)) (body f) rest) (go f h)
  where
    go :
        (g : Field)
        → Fits g
        → read_tag (tag (number g) (type_of g) ++ (body f ++ rest))
          ≡ (some (tag_for g), body f ++ rest)
    go (varint_field n v) k = read_tag-tag n varint (body f ++ rest) k.0 tt
    go (fixed64_field n v) k = read_tag-tag n fixed64 (body f ++ rest) k.0 tt
    go (bytes_field n xs) k = read_tag-tag n length_delimited (body f ++ rest) k.0 tt
    go (fixed32_field n v) k = read_tag-tag n fixed32 (body f ++ rest) k.0 tt

-- `skip` passes over exactly the body of a field that was written.
pub skip-body :
    (f : Field) (rest : List ℕ) → Fits f → skip (type_of f) (body f ++ rest) ≡ (true, rest)
unfolding skip append_fixed64 append_fixed32
skip-body (varint_field n v) rest h = rw (read_varint-append_varint v rest h.1)
skip-body (fixed64_field n v) rest h = skip_bytes-append 8 (le_bytes 8 v) rest (length-le_bytes 8 v)
skip-body (bytes_field n xs) rest h =
    rw (append_assoc (append_varint (length xs)) xs rest, read_bytes-append_varint xs rest h.1)
skip-body (fixed32_field n v) rest h = skip_bytes-append 4 (le_bytes 4 v) rest (length-le_bytes 4 v)

append_varint-cons : (v : ℕ) (rest : List ℕ) → eof (append_varint v ++ rest) ≡ false
unfolding append_varint varint_bytes
append_varint-cons v rest = ground arith

write_field-cons : (f : Field) (rest : List ℕ) → eof (write_field f ++ rest) ≡ false
unfolding tag
write_field-cons f rest =
    rw (write_field_parts f, append_assoc (tag (number f) (type_of f)) (body f) rest)
      (append_varint-cons (number f * 8 + wire_number (type_of f)) (body f ++ rest))

module _ {ℓ} {S : Type ℓ} (handler : FieldHandler S) (wants : Field → Bool)
    (take_in : Field → S → S) where
  -- The handler's state after the fields: those it does not want leave it as it is.
  abbrev pub after_fields : List Field → S → S
  after_fields [] s = s
  after_fields (f ∷ fs) s = after_fields fs (elim (wants f) [ true ↦ take_in f s | false ↦ s ])

  module _
      (accepts : (f : Field) (s : S) (rest : List ℕ)
        → Fits f
        → wants f ≡ true
        → handler (tag_for f) s (body f ++ rest) ≡ (true, take_in f s, rest))
      (declines : (f : Field) (s : S) (rest : List ℕ)
        → Fits f
        → wants f ≡ false
        → handler (tag_for f) s (body f ++ rest) ≡ (false, s, body f ++ rest)) where
    parse_field-write_field :
        (f : Field) (s : S) (rest : List ℕ)
        → Fits f
        → parse_field handler s (read_tag (write_field f ++ rest))
          ≡ (true, elim (wants f) [ true ↦ take_in f s | false ↦ s ], rest)
    parse_field-write_field f s rest h = elim (Bool-cases (wants f)) [
      | inl e ↦ rw (read_tag-write_field f rest h, accepts f s rest h e, e)
      | inr e ↦ rw (read_tag-write_field f rest h, declines f s rest h e, skip-body f rest h, e)
    ]

    -- A handler that reads the fields it wants and declines the others without moving sees, of a
    -- message that was written, exactly the fields it wants, in order; the others are skipped,
    -- and `parseFields` succeeds. One unit of fuel for each field is enough.
    pub parse_fields-write_fields :
        (fs : List Field) (fuel : ℕ) (s : S)
        → All Fits fs
        → length fs ≤ fuel
        → parse_fields handler fuel s (write_fields fs) ≡ some (true, after_fields fs s)
    unfolding parse_fields
    parse_fields-write_fields [] zero s h l = refl
    parse_fields-write_fields [] (suc fuel) s h l = refl
    parse_fields-write_fields (f ∷ fs) zero s h l = absurd (omega arith)
    parse_fields-write_fields (f ∷ fs) (suc fuel) s h l =
        rw (write_field-cons f (write_fields fs), parse_field-write_field f s (write_fields fs) h.0)
          (parse_fields-write_fields fs fuel _ h.1 (omega arith))
