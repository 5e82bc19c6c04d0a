-- ===== src/ChunkBuilder/Nulls.antt =====
-- The nulls of a sealed column are those of its buffer.
use plotjuggler_core.Prelude.{
  ℕ, zero, suc, ◌≡◌, ap, ◌∙◌, subst, inl, inr, Bool, true, false, not, Bool-cases, some, List, [],
  ◌∷◌, length, get_elem?, ◌==◌, if◌then◌else◌, arith,
}
use plotjuggler_core.Buffer.{is_valid, assign_bytes}
use plotjuggler_core.ColumnBuffer
use plotjuggler_core.ColumnBuffer.{TypedColumnBuffer, has_nulls}
use plotjuggler_core.ColumnBuffer.Validity.{Tracks, trues}
use plotjuggler_core.ColumnBuffer.Flags.{
  KnownFlags, FlagsOf, nulls_in, nulls_in-trues, is_null-FlagsOf, get_elem?-lt,
}
use plotjuggler_core.Chunk
use plotjuggler_core.Chunk.{Column}
use plotjuggler_core.ChunkBuilder.{Doubles, BuilderColumn, seal_column}

get_elem?-no_nulls :
    (flags : List Bool) (i : ℕ) (b : Bool)
    → nulls_in flags ≡ 0
    → get_elem? flags i ≡ some b
    → b ≡ true
get_elem?-no_nulls [] i b h e = absurd (cc)
get_elem?-no_nulls (true ∷ flags) zero b h e = ground arith
get_elem?-no_nulls (false ∷ flags) i b h e = absurd (omega arith)
get_elem?-no_nulls (true ∷ flags) (suc i) b h e = get_elem?-no_nulls flags i b (omega (arith, h)) e

-- A column that has nulls has its bitmap.
initialized :
    (c : TypedColumnBuffer) (flags : List Bool)
    → FlagsOf c flags
    → has_nulls c ≡ true
    → c.validity_initialized ≡ true
unfolding has_nulls
initialized c flags f h = elim (Bool-cases c.validity_initialized) [
  | inl e ↦ e
  | inr e ↦
      let k : flags ≡ trues (length flags) =
        subst (λ (b : Bool). KnownFlags b c.validity flags) e f.known in
      let none_null : nulls_in flags ≡ 0 = ap nulls_in k ∙ nulls_in-trues (length flags) in
      absurd (ground (arith, f.nulls, none_null))
]

bitmap_null :
    (c : TypedColumnBuffer) (flags : List Bool) (i : ℕ) (b : Bool)
    → FlagsOf c flags
    → has_nulls c ≡ true
    → get_elem? flags i ≡ some b
    → (if c.validity.bit_count == 0 then false else not (is_valid i c.validity)) ≡ not b
unfolding ColumnBuffer.is_null
bitmap_null c flags i b f h e =
    let t = initialized c flags f h in
    let k : Tracks c.validity flags =
      subst (λ (x : Bool). KnownFlags x c.validity flags) t f.known in
    let some_bits : (c.validity.bit_count == 0) ≡ false =
      ground (arith, k.bit_count, get_elem?-lt flags i b e) in
    let valid : not (is_valid i c.validity) ≡ not b =
      subst (λ (x : Bool). (if x then not (is_valid i c.validity) else false) ≡ not b) t
        (is_null-FlagsOf c flags i b f e) in
    rw some_bits valid

no_nulls :
    (c : TypedColumnBuffer) (flags : List Bool)
    → FlagsOf c flags
    → has_nulls c ≡ false
    → nulls_in flags ≡ 0
unfolding has_nulls
no_nulls c flags f h = ground (arith, f.nulls)

-- A row of a sealed column is null exactly when its flag is clear.
pub is_null-seal_column :
    (d : Doubles) (c : BuilderColumn d) (flags : List Bool) (i : ℕ) (b : Bool)
    → FlagsOf c.buffer flags
    → get_elem? flags i ≡ some b
    → Chunk.is_null (seal_column d c) i ≡ not b
unfolding Chunk.is_null seal_column assign_bytes
is_null-seal_column d c flags i b f e = elim (Bool-cases (has_nulls c.buffer)) [
  | inl h ↦ rw h (bitmap_null c.buffer flags i b f h e)
  | inr h ↦ rw (h, get_elem?-no_nulls flags i b (no_nulls c.buffer flags f h) e)
]
