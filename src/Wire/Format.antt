-- ===== src/Wire/Format.antt =====
-- `WireType`, `Tag`, and what a read returns.
use plotjuggler_core.Prelude.{ℕ, Option, List, ◌==◌, if◌then◌else◌}

-- The enumeration has an underlying `uint32_t`, so other values occur as well.
pub data WireType : Type 0 where
  varint : WireType
  fixed64 : WireType
  length_delimited : WireType
  fixed32 : WireType
  unknown : ℕ → WireType

pub record Tag : Type 0 where
  pub field : ℕ
  pub type : WireType

abbrev pub wire_number : WireType → ℕ
wire_number varint = 0
wire_number fixed64 = 1
wire_number length_delimited = 2
wire_number fixed32 = 5
wire_number (unknown n) = n

abbrev pub wire_type_of : ℕ → WireType
wire_type_of n =
    if n == 0
    then varint
    else (if n == 1
        then fixed64
        else (if n == 2 then length_delimited else (if n == 5 then fixed32 else unknown n)))

-- What a read returns, and the reader behind it.
abbrev pub Read {ℓ} : Type ℓ → Type ℓ
Read A = Option A × List ℕ
