-- ===== src/Wire/Fields.antt =====
-- What `Writer` writes for one field, `Reader` reads back, whatever follows it.
use plotjuggler_core.Prelude.{
  ℕ, ◌+◌, ◌*◌, ◌/◌, ◌%◌, ◌^◌, ◌<◌, ◌≡◌, refl, ap, some, List, ◌++◌, arith, ltb, ◌==◌, ◌||◌, true,
  false, length, length-append,
}
use plotjuggler_core.Bytes.{
  le_bytes, le_value-le_bytes, length-le_bytes, take-append_length, drop-append_exact,
}
use plotjuggler_core.Wire.Format.{
  WireType, varint, fixed64, length_delimited, fixed32, unknown, wire_number, wire_type_of,
}
use plotjuggler_core.Wire.Writer.{append_varint, tag}
use plotjuggler_core.Wire.Reader.{read_tag, tag_of, read_fixed, read_bytes, skip_bytes}
use plotjuggler_core.Wire.Varint.{read_varint-append_varint}

-- A field number of a tag is a nonzero `uint32_t`.
abbrev pub IsField : ℕ → Type 0
IsField field = (0 < field) × (field < 2 ^ 32)

-- The four wire types that are written.
abbrev pub IsKnown : WireType → Type 0
IsKnown (unknown n) = ⊥
IsKnown t = Unit {0}

pub read_fixed-le_bytes :
    (n v : ℕ) (rest : List ℕ) → v < 256 ^ n → read_fixed n (le_bytes n v ++ rest) ≡ (some v, rest)
unfolding read_fixed
read_fixed-le_bytes n v rest h =
    let enough : ltb (length (le_bytes n v ++ rest)) n ≡ false =
      (let l = length-append (le_bytes n v) rest in let m = length-le_bytes n v in ground arith) in
    rw
      (
        enough,
        take-append_length n (le_bytes n v) rest (length-le_bytes n v),
        le_value-le_bytes n v h,
      )
      (ap (λ (bs : List ℕ). (some v, bs))
        (drop-append_exact n (le_bytes n v) rest (length-le_bytes n v)))

pub skip_bytes-append :
    (n : ℕ) (xs rest : List ℕ) → length xs ≡ n → skip_bytes n (xs ++ rest) ≡ (true, rest)
unfolding skip_bytes
skip_bytes-append n xs rest e =
    let enough : ltb (length (xs ++ rest)) n ≡ false =
      (let l = length-append xs rest in ground arith) in
    rw enough (ap (λ (bs : List ℕ). (true, bs)) (drop-append_exact n xs rest e))

wire_number-lt : (type : WireType) → IsKnown type → wire_number type < 8
wire_number-lt varint k = omega arith
wire_number-lt fixed64 k = omega arith
wire_number-lt length_delimited k = omega arith
wire_number-lt fixed32 k = omega arith
wire_number-lt (unknown n) k = absurd k

wire_type_of-wire_number : (type : WireType) → IsKnown type → wire_type_of (wire_number type) ≡ type
wire_type_of-wire_number varint k = refl
wire_type_of-wire_number fixed64 k = refl
wire_type_of-wire_number length_delimited k = refl
wire_type_of-wire_number fixed32 k = refl
wire_type_of-wire_number (unknown n) k = absurd k

tag_of-number :
    (field : ℕ) (type : WireType)
    → IsField field
    → IsKnown type
    → tag_of (field * 8 + wire_number type) ≡ some (record { field = field; type = type })
tag_of-number field type h k =
    let small : wire_number type < 8 = wire_number-lt type k in
    let high : (field * 8 + wire_number type) / 8 % 2 ^ 32 ≡ field = omega arith in
    let low : (field * 8 + wire_number type) % 8 ≡ wire_number type = omega arith in
    let nonzero : ((field * 8 + wire_number type == 0) || (field == 0)) ≡ false = ground arith in
    rw (high, low, nonzero, wire_type_of-wire_number type k)

-- A tag that `Writer` wrote is read back, its field number and its wire type.
pub read_tag-tag :
    (field : ℕ) (type : WireType) (rest : List ℕ)
    → IsField field
    → IsKnown type
    → read_tag (tag field type ++ rest) ≡ (some (record { field = field; type = type }), rest)
unfolding read_tag tag
read_tag-tag field type rest h k =
    let fits : field * 8 + wire_number type < 2 ^ 64 = omega (arith, wire_number-lt type k) in
    rw (
      read_varint-append_varint (field * 8 + wire_number type) rest fits,
      tag_of-number field type h k,
    )

-- The bytes of a length-delimited field are read back.
pub read_bytes-append_varint :
    (payload rest : List ℕ)
    → length payload < 2 ^ 64
    → read_bytes (append_varint (length payload) ++ (payload ++ rest)) ≡ (some payload, rest)
unfolding read_bytes
read_bytes-append_varint payload rest h =
    let enough : ltb (length (payload ++ rest)) (length payload) ≡ false =
      (let l = length-append payload rest in ground arith) in
    rw
      (
        read_varint-append_varint (length payload) (payload ++ rest) h,
        enough,
        take-append_length (length payload) payload rest refl,
      )
      (ap (λ (bs : List ℕ). (some payload, bs))
        (drop-append_exact (length payload) payload rest refl))
