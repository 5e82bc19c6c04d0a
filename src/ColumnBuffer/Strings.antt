-- ===== src/ColumnBuffer/Strings.antt =====
-- A string column refines the list of its strings: any sequence of appends, and the reads behind it.
use plotjuggler_core.Prelude.{
  ℕ, suc, ◌+◌, ◌%◌, ◌^◌, ◌<◌, ◌≡◌, refl, ap, ap₂, ◌∙◌, sym, subst, true, false, List, [], ◌∷◌, ◌++◌,
  length, get_or, take, drop, ◌==◌, arith, append_assoc, append-nil, length-append,
}
use plotjuggler_core.Bytes.{le_bytes, packed, packed-append, take-append_length, drop-append_exact}
use plotjuggler_core.Buffer.{ensure_size, set_null}
use plotjuggler_core.Chunk.{ColumnDescriptor}
use plotjuggler_core.Encoding.{k_string}
use plotjuggler_core.ColumnBuffer.{
  TypedColumnBuffer, new_column, ensure_validity_initialized, first_offset, append_string,
  append_null, append_strings_from, rebase, sub_u32, storage_kind,
}
use plotjuggler_core.ColumnBuffer.Validity.{trues}
use plotjuggler_core.ColumnBuffer.Flags.{
  Slot, valid_slot, null_slot, slot_values, slot_flags, nulls_in-append, FlagsOf, FlagsOf-extended,
  FlagsOf-marked, length-slot_values,
}
use plotjuggler_core.ColumnBuffer.Rows.{
  valid_slots, slot_values-valid_slots, slot_values-append, slot_flags-append,
  slot_flags-valid_slots, extend_validity-extended,
}

abbrev pub concat : List (List ℕ) → List ℕ
concat [] = []
concat (s ∷ ss) = s ++ concat ss

-- Where each string ends, when the first one starts at `at`.
abbrev pub ends : ℕ → List (List ℕ) → List ℕ
ends at [] = []
ends at (s ∷ ss) = (at + length s) ∷ ends (at + length s) ss

pub concat-append : (ss ts : List (List ℕ)) → concat (ss ++ ts) ≡ concat ss ++ concat ts
concat-append [] ts = refl
concat-append (s ∷ ss) ts =
    ap (◌++◌ s) (concat-append ss ts) ∙ sym (append_assoc s (concat ss) (concat ts))

ends-append :
    (at : ℕ) (ss ts : List (List ℕ))
    → ends at (ss ++ ts) ≡ ends at ss ++ ends (at + length (concat ss)) ts
ends-append at [] ts = let z : at ≡ at + 0 = omega arith in ap (λ (n : ℕ). ends n ts) z
ends-append at (s ∷ ss) ts =
    let e : at + length s + length (concat ss) ≡ at + length (s ++ concat ss) =
      omega (arith, length-append s (concat ss)) in
    ap (◌∷◌ (at + length s))
      (ends-append (at + length s) ss ts ∙ ap (λ (n : ℕ). ends (at + length s) ss ++ ends n ts) e)

pub length-ends : (at : ℕ) (ss : List (List ℕ)) → length (ends at ss) ≡ length ss
length-ends at [] = refl
length-ends at (s ∷ ss) = ap suc (length-ends (at + length s) ss)

-- The offsets of a column: none for an empty one, and otherwise a zero and the ends.
abbrev pub offsets_of : List (List ℕ) → List ℕ
offsets_of [] = []
offsets_of (s ∷ ss) = packed 4 (0 ∷ ends 0 (s ∷ ss))

-- The column `c` of strings holds `rows`.
pub record HoldsStrings (c : TypedColumnBuffer) (rows : List (Slot (List ℕ))) : Type 0 where
  pub flags : FlagsOf c (slot_flags rows)
  pub bytes : c.values ≡ concat (slot_values rows)
  pub ends_at : c.offsets ≡ offsets_of (slot_values rows)

pub new_column-HoldsStrings : (d : ColumnDescriptor) → HoldsStrings (new_column d) []
unfolding new_column
new_column-HoldsStrings d = record {
  flags = record { rows = refl; nulls = refl; known = refl };
  bytes = refl;
  ends_at = refl;
}

first_offset-HoldsStrings :
    (c : TypedColumnBuffer) (rows : List (Slot (List ℕ)))
    → HoldsStrings c rows
    → first_offset c ≡ packed 4 (0 ∷ ends 0 (slot_values rows))
unfolding first_offset
first_offset-HoldsStrings c [] h =
    let t : (c.row_count == 0) ≡ true = ground (arith, h.flags.rows) in rw (t, h.ends_at)
first_offset-HoldsStrings c (r ∷ rows) h =
    let t : (c.row_count == 0) ≡ false = ground (arith, h.flags.rows) in rw (t, h.ends_at)

offsets_of_some : (ss : List (List ℕ)) → 0 < length ss → offsets_of ss ≡ packed 4 (0 ∷ ends 0 ss)
offsets_of_some [] h = absurd (omega arith)
offsets_of_some (s ∷ ss) h = refl

offsets_join :
    (at : ℕ) (ss ts : List (List ℕ))
    → 0 < length ts
    → at ≡ length (concat ss)
    → packed 4 (0 ∷ ends 0 ss) ++ packed 4 (ends at ts) ≡ offsets_of (ss ++ ts)
offsets_join at ss ts some_more e =
    let z : at ≡ 0 + length (concat ss) = omega (arith, e) in
    sym (packed-append 4 (0 ∷ ends 0 ss) (ends at ts))
    ∙ ap (λ (n : ℕ). packed 4 (0 ∷ (ends 0 ss ++ ends n ts))) z
    ∙ ap (λ (os : List ℕ). packed 4 (0 ∷ os)) (sym (ends-append 0 ss ts))
    ∙ sym (offsets_of_some (ss ++ ts) (omega (arith, length-append ss ts)))

-- `more` are the strings of the added rows, and `tail` the offsets written for them.
HoldsStrings-extended :
    (c d : TypedColumnBuffer) (rows more : List (Slot (List ℕ))) (tail : List ℕ)
    → HoldsStrings c rows
    → 0 < length more
    → FlagsOf d (slot_flags (rows ++ more))
    → d.values ≡ c.values ++ concat (slot_values more)
    → d.offsets ≡ first_offset c ++ packed 4 tail
    → tail ≡ ends (length c.values) (slot_values more)
    → HoldsStrings d (rows ++ more)
HoldsStrings-extended c d rows more tail h some_more f ev eo et =
    let sv = slot_values-append rows more in
    record {
      flags = f;
      bytes =
          ev
          ∙ ap (λ (b : List ℕ). b ++ concat (slot_values more)) h.bytes
          ∙ sym (concat-append (slot_values rows) (slot_values more))
          ∙ ap concat (sym sv);
      ends_at =
          eo
          ∙ ap₂ ◌++◌ (first_offset-HoldsStrings c rows h) (ap (packed 4) et)
          ∙ offsets_join (length c.values) (slot_values rows) (slot_values more)
              (omega (arith, length-slot_values more)) (ap length h.bytes)
          ∙ ap offsets_of (sym sv);
    }

pub append_string-HoldsStrings :
    (s : List ℕ) (c : TypedColumnBuffer) (rows : List (Slot (List ℕ)))
    → length c.values + length s < 2 ^ 32
    → HoldsStrings c rows
    → HoldsStrings (append_string s c) (rows ++ valid_slot s ∷ [])
unfolding append_string
append_string-HoldsStrings s c rows lt h =
    let more : List (Slot (List ℕ)) = valid_slot s ∷ [] in
    let la = length-append c.values s in
    let at : length (c.values ++ s) % 2 ^ 32 ≡ length c.values + length s = omega (arith, la) in
    HoldsStrings-extended c (append_string s c) rows more (length (c.values ++ s) % 2 ^ 32 ∷ []) h
      (omega arith)
      (subst (FlagsOf (append_string s c)) (sym (slot_flags-append rows more))
        (FlagsOf-extended 1 c (append_string s c) (slot_flags rows) h.flags refl refl refl refl))
      (ap (◌++◌ c.values) (sym (append-nil s))) (ap (◌++◌ (first_offset c)) (sym (append-nil _)))
      (ap (λ (n : ℕ). n ∷ []) at)

-- The null of a string column is an empty string whose flag is clear.
unfoldable pub null_string : TypedColumnBuffer → TypedColumnBuffer
null_string c = record c {
  offsets = first_offset c ++ le_bytes 4 (length c.values % 2 ^ 32);
  validity = set_null c.row_count (ensure_size (c.row_count + 1) (ensure_validity_initialized c));
  validity_initialized = true;
  row_count = c.row_count + 1;
  null_count = c.null_count + 1;
}

pub append_null-null_string :
    (c : TypedColumnBuffer) → storage_kind c ≡ k_string → append_null c ≡ null_string c
unfolding append_null null_string
append_null-null_string c k = rw (k, append-nil c.values)

pub null_string-HoldsStrings :
    (c : TypedColumnBuffer) (rows : List (Slot (List ℕ)))
    → length c.values < 2 ^ 32
    → HoldsStrings c rows
    → HoldsStrings (null_string c) (rows ++ null_slot [] ∷ [])
unfolding null_string
null_string-HoldsStrings c rows lt h =
    let more : List (Slot (List ℕ)) = null_slot [] ∷ [] in
    let at : length c.values % 2 ^ 32 ≡ length c.values + 0 = omega arith in
    let f = h.flags in
    let fl = slot_flags rows in
    HoldsStrings-extended c (null_string c) rows more (length c.values % 2 ^ 32 ∷ []) h
      (omega arith)
      (subst (FlagsOf (null_string c)) (sym (slot_flags-append rows more)) (
        FlagsOf-marked c (null_string c) fl [] (false ∷ [])
          (subst (FlagsOf c) (sym (append-nil fl)) f) (omega arith) (omega (arith, f.rows))
          (omega (arith, f.nulls, nulls_in-append fl (false ∷ []))) refl
          (ap (λ (n : ℕ). set_null n (ensure_size (n + 1) (ensure_validity_initialized c)))
            f.rows)))
      (sym (append-nil c.values)) (ap (◌++◌ (first_offset c)) (sym (append-nil _)))
      (ap (λ (n : ℕ). n ∷ []) at)

-- The 32-bit difference of two offsets that fit.
pub sub_u32_fits : (a k : ℕ) → a + k < 2 ^ 32 → sub_u32 (a + k) a ≡ k
sub_u32_fits a k h = omega arith

rebase-ends :
    (base src k : ℕ) (ts : List (List ℕ))
    → base + k + length (concat ts) < 2 ^ 32
    → src + k + length (concat ts) < 2 ^ 32
    → rebase base src (ends (src + k) ts) ≡ ends (base + k) ts
unfolding rebase
rebase-ends base src k [] hb hs = refl
rebase-ends base src k (t ∷ ts) hb hs =
    let lt = length-append t (concat ts) in
    let a : src + k + length t ≡ src + (k + length t) = omega arith in
    let b : base + (k + length t) ≡ base + k + length t = omega arith in
    let now : (base + sub_u32 (src + (k + length t)) src) % 2 ^ 32 ≡ base + k + length t =
      omega (arith, lt) in
    rw a (
      ap₂ ◌∷◌ now (
        rebase-ends base src (k + length t) ts (omega (arith, lt)) (omega (arith, lt))
        ∙ ap (λ (n : ℕ). ends n ts) b))

rebase-ends_all :
    (base src : ℕ) (ts : List (List ℕ))
    → base + length (concat ts) < 2 ^ 32
    → src + length (concat ts) < 2 ^ 32
    → rebase base src (ends src ts) ≡ ends base ts
rebase-ends_all base src ts hb hs =
    let a : src ≡ src + 0 = omega arith in
    let b : base + 0 ≡ base = omega arith in
    ap (λ (n : ℕ). rebase base src (ends n ts)) a
    ∙ rebase-ends base src 0 ts (omega arith) (omega arith)
    ∙ ap (λ (n : ℕ). ends n ts) b

get_or_last_end :
    (front : ℕ) (ts : List (List ℕ))
    → get_or (front ∷ ends front ts) (length ts) 0 ≡ front + length (concat ts)
get_or_last_end front [] = omega arith
get_or_last_end front (t ∷ ts) =
    get_or_last_end (front + length t) ts ∙ omega (arith, length-append t (concat ts))

-- The strings `t ∷ ts` behind the first bytes of a source buffer.
pub append_strings_from-HoldsStrings :
    (front back : List ℕ) (t : List ℕ) (ts : List (List ℕ)) (c : TypedColumnBuffer)
    (rows : List (Slot (List ℕ)))
    → length c.values + length (concat (t ∷ ts)) < 2 ^ 32
    → length front + length (concat (t ∷ ts)) < 2 ^ 32
    → HoldsStrings c rows
    → HoldsStrings
        (append_strings_from
          (length front)
          (ends (length front) (t ∷ ts))
          (front ++ (concat (t ∷ ts) ++ back))
          c)
        (rows ++ valid_slots (t ∷ ts))
unfolding append_strings_from
append_strings_from-HoldsStrings front back t ts c rows hc hf h =
    let all : List (List ℕ) = t ∷ ts in
    let os = ends (length front) all in
    let d = append_strings_from (length front) os (front ++ (concat all ++ back)) c in
    let lo : length os ≡ length all = length-ends (length front) all in
    let sv = slot_values-valid_slots all in
    let count : sub_u32 (get_or (length front ∷ os) (length os) 0) (length front)
        ≡ length (concat all) =
      ap (λ (n : ℕ). sub_u32 (get_or (length front ∷ os) n 0) (length front)) lo
      ∙ ap (λ (n : ℕ). sub_u32 n (length front)) (get_or_last_end (length front) all)
      ∙ sub_u32_fits (length front) (length (concat all)) hf in
    let u : length c.values % 2 ^ 32 ≡ length c.values = omega arith in
    let fs : slot_flags (rows ++ valid_slots all) ≡ slot_flags rows ++ trues (length os) =
      slot_flags-append rows (valid_slots all)
      ∙ ap (◌++◌ (slot_flags rows)) (slot_flags-valid_slots all ∙ ap trues (sym lo)) in
    HoldsStrings-extended c d rows (valid_slots all)
      (rebase (length c.values % 2 ^ 32) (length front) os) h (omega arith)
      (subst (FlagsOf d) (sym fs) (
        FlagsOf-extended (length os) c d (slot_flags rows) h.flags refl refl refl
          (extend_validity-extended (length os) c)))
      (ap (◌++◌ c.values) (
        ap (λ (n : ℕ). take n (drop (length front) (front ++ (concat all ++ back)))) count
        ∙ ap (take (length (concat all)))
            (drop-append_exact (length front) front (concat all ++ back) refl)
        ∙ take-append_length (length (concat all)) (concat all) back refl
        ∙ ap concat (sym sv)))
      refl
      (ap (λ (n : ℕ). rebase n (length front) os) u
        ∙ rebase-ends_all (length c.values) (length front) all hc hf
        ∙ ap (ends (length c.values)) (sym sv))
