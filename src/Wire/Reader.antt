-- ===== src/Wire/Reader.antt =====
-- `Reader`, the loop over the fields of a message, and packed arrays.
use plotjuggler_core.Prelude.{
  ℕ, zero, suc, ◌+◌, ◌*◌, ◌/◌, ◌%◌, ◌^◌, Bool, true, false, ◌&&◌, ◌||◌, Option, none, some, List,
  [], ◌∷◌, ◌++◌, length, take, drop, ltb, ◌==◌, if◌then◌else◌,
}
use plotjuggler_core.Bytes.{le_value}
use plotjuggler_core.Wire.Format.{
  WireType, varint, fixed64, length_delimited, fixed32, unknown, Tag, wire_type_of, Read,
}

abbrev pub eof : List ℕ → Bool
eof [] = true
eof (b ∷ bs) = false

-- The loop of `readVarint`: the rounds that are left, the shift and the bits so far.
unfoldable pub varint_from : ℕ → ℕ → ℕ → List ℕ → Read ℕ
varint_from zero shift out bs = (none, bs)
varint_from (suc rounds) shift out [] = (none, [])
varint_from (suc rounds) shift out (b ∷ bs) =
    let payload = b % 128 in
    let rest = varint_from rounds (shift + 7) (out + payload * 2 ^ shift) bs in
    if (shift == 63) && ltb 1 payload
    then (none, bs)
    else (if ltb b 128 then (some (out + payload * 2 ^ shift), bs) else rest)

unfoldable pub read_varint : List ℕ → Read ℕ
unfolding varint_from
read_varint bs = varint_from 10 0 0 bs

abbrev pub tag_of : ℕ → Option Tag
tag_of raw =
    if (raw == 0) || (raw / 8 % 2 ^ 32 == 0)
    then none
    else some (record { field = raw / 8 % 2 ^ 32; type = wire_type_of (raw % 8) })

abbrev pub tag_of_varint : Read ℕ → Read Tag
tag_of_varint (none, bs) = (none, bs)
tag_of_varint (some raw, bs) = (tag_of raw, bs)

unfoldable pub read_tag : List ℕ → Read Tag
read_tag bs = tag_of_varint (read_varint bs)

unfoldable pub read_fixed : ℕ → List ℕ → Read ℕ
read_fixed n bs = if ltb (length bs) n then (none, bs) else (some (le_value (take n bs)), drop n bs)

abbrev pub read_fixed64 : List ℕ → Read ℕ
read_fixed64 = read_fixed 8

abbrev pub read_fixed32 : List ℕ → Read ℕ
read_fixed32 = read_fixed 4

abbrev pub bytes_of_length : Read ℕ → Read (List ℕ)
bytes_of_length (none, bs) = (none, bs)
bytes_of_length (some len, bs) =
    if ltb (length bs) len then (none, bs) else (some (take len bs), drop len bs)

unfoldable pub read_bytes : List ℕ → Read (List ℕ)
read_bytes bs = bytes_of_length (read_varint bs)

unfoldable pub skip_bytes : ℕ → List ℕ → Bool × List ℕ
skip_bytes n bs = if ltb (length bs) n then (false, bs) else (true, drop n bs)

abbrev pub succeeded {ℓ} : {A : Type ℓ} → Read A → Bool × List ℕ
succeeded (none, bs) = (false, bs)
succeeded (some a, bs) = (true, bs)

unfoldable pub skip : WireType → List ℕ → Bool × List ℕ
skip varint bs = succeeded (read_varint bs)
skip fixed64 bs = skip_bytes 8 bs
skip length_delimited bs = succeeded (read_bytes bs)
skip fixed32 bs = skip_bytes 4 bs
skip (unknown n) bs = (false, bs)

-- A handler sees the tag, its own state and the reader, and says whether it took the field.
abbrev pub FieldHandler {ℓ} : Type ℓ → Type ℓ
FieldHandler S = Tag → S → List ℕ → Bool × S × List ℕ

module _ {ℓ} {S : Type ℓ} (handler : FieldHandler S) where
  -- After the handler: whether the loop goes on, and from where.
  abbrev pub skipped : S → Bool × List ℕ → Bool × S × List ℕ
  skipped s (done, bs) = (done, s, bs)

  abbrev pub or_skip : WireType → Bool × S × List ℕ → Bool × S × List ℕ
  or_skip type (true, s, bs) = (true, s, bs)
  or_skip type (false, s, bs) = skipped s (skip type bs)

  abbrev pub parse_field : S → Read Tag → Bool × S × List ℕ
  parse_field s (none, bs) = (false, s, bs)
  parse_field s (some tag, bs) = or_skip tag.type (handler tag s bs)

  -- `parseFields`, on fuel; nothing where the fuel runs out. The result is what it returns and
  -- the handler's state.
  unfoldable pub parse_fields : ℕ → S → List ℕ → Option (Bool × S)
  parse_fields zero s bs = if eof bs then some (true, s) else none
  parse_fields (suc fuel) s bs =
      let step = parse_field s (read_tag bs) in
      let rest = parse_fields fuel step.1 step.2 in
      if eof bs then some (true, s) else (if step.0 then rest else some (false, step.1))

-- The loop `while (!sub.eof())` over words of `n` bytes, on fuel.
unfoldable pub read_words : ℕ → ℕ → List ℕ → List ℕ → Option (Bool × List ℕ)
read_words n zero out bs = if eof bs then some (true, out) else none
read_words n (suc fuel) out bs =
    let rest = read_words n fuel (out ++ le_value (take n bs) ∷ []) (drop n bs) in
    if eof bs then some (true, out) else (if ltb (length bs) n then some (false, out) else rest)

-- The result and the values, and the reader behind the payload.
abbrev pub packed_of_bytes : ℕ → List ℕ → Read (List ℕ) → Option (Bool × List ℕ) × List ℕ
packed_of_bytes n out (none, bs) = (some (false, out), bs)
packed_of_bytes n out (some payload, bs) =
    let words = read_words n (length payload) out payload in
    (if length payload % n == 0 then words else some (false, out), bs)

unfoldable pub read_packed_fixed32 : List ℕ → List ℕ → Option (Bool × List ℕ) × List ℕ
unfolding read_words
read_packed_fixed32 out bs = packed_of_bytes 4 out (read_bytes bs)

-- A double is its 64-bit pattern.
unfoldable pub read_packed_double : List ℕ → List ℕ → Option (Bool × List ℕ) × List ℕ
unfolding read_words
read_packed_double out bs = packed_of_bytes 8 out (read_bytes bs)
