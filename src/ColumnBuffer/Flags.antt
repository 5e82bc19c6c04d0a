-- ===== src/ColumnBuffer/Flags.antt =====
-- The rows of a column, each a value and whether it is valid, and the flags of a column's rows.
use plotjuggler_core.Prelude.{
  ℕ, zero, suc, ◌+◌, ◌<◌, ◌≤◌, ◌≡◌, refl, ap, ◌∙◌, sym, subst, inl, inr, Bool, true, false, not,
  Bool-cases, some, List, [], ◌∷◌, ◌++◌, length, get_elem?, ◌==◌, if◌then◌else◌, arith, append-nil,
  length-append,
}
use plotjuggler_core.Buffer.{BitVector, init_valid, ensure_size, is_valid}
use plotjuggler_core.ColumnBuffer.{TypedColumnBuffer, is_null, ensure_validity_initialized}
use plotjuggler_core.ColumnBuffer.Validity.{
  Tracks, row_flags, length-row_flags, trues, length-trues,
}
use plotjuggler_core.ColumnBuffer.Marks.{mark, mark-Tracks}
use plotjuggler_core.ColumnBuffer.FirstNull.{init_valid-Tracks}

pub record Slot {ℓ} (A : Type ℓ) : Type ℓ where
  pub value : A
  pub valid : Bool

abbrev pub valid_slot {ℓ} : {A : Type ℓ} → A → Slot A
valid_slot value = record { value = value; valid = true }

abbrev pub null_slot {ℓ} : {A : Type ℓ} → A → Slot A
null_slot value = record { value = value; valid = false }

abbrev pub slot_values {ℓ} : {A : Type ℓ} → List (Slot A) → List A
slot_values [] = []
slot_values (s ∷ ss) = s.value ∷ slot_values ss

abbrev pub slot_flags {ℓ} : {A : Type ℓ} → List (Slot A) → List Bool
slot_flags [] = []
slot_flags (s ∷ ss) = s.valid ∷ slot_flags ss

-- A bitmap that is not there yet says that every row is valid.
abbrev pub KnownFlags : Bool → BitVector → List Bool → Type 0
KnownFlags true v flags = Tracks v flags
KnownFlags false v flags = flags ≡ trues (length flags)

abbrev pub nulls_in : List Bool → ℕ
nulls_in [] = 0
nulls_in (b ∷ bs) = (if b then 0 else 1) + nulls_in bs

-- The row count, the null count and the bitmap of `c` agree with the flags of its rows.
pub record FlagsOf (c : TypedColumnBuffer) (flags : List Bool) : Type 0 where
  pub rows : c.row_count ≡ length flags
  pub nulls : c.null_count ≡ nulls_in flags
  pub known : KnownFlags c.validity_initialized c.validity flags

pub nulls_in-append : (xs ys : List Bool) → nulls_in (xs ++ ys) ≡ nulls_in xs + nulls_in ys
nulls_in-append [] ys = omega arith
nulls_in-append (x ∷ xs) ys = ground (arith, nulls_in-append xs ys)

pub nulls_in-trues : (n : ℕ) → nulls_in (trues n) ≡ 0
nulls_in-trues zero = refl
nulls_in-trues (suc n) = omega (arith, nulls_in-trues n)

trues-add : (m n : ℕ) → trues m ++ trues n ≡ trues (m + n)
trues-add zero n = let z : n ≡ 0 + n = omega arith in ap trues z
trues-add (suc m) n =
    let s : suc (m + n) ≡ suc m + n = omega arith in ap (◌∷◌ true) (trues-add m n) ∙ ap trues s

-- What an append of `n` valid rows does to the bitmap.
abbrev pub extended : ℕ → TypedColumnBuffer → BitVector
extended n c =
    if c.validity_initialized
    then mark (trues n) c.row_count (ensure_size (c.row_count + n) c.validity)
    else c.validity

KnownFlags-extended :
    (b : Bool) (v : BitVector) (rows n : ℕ) (flags : List Bool)
    → rows ≡ length flags
    → KnownFlags b v flags
    → KnownFlags b
        (if b then mark (trues n) rows (ensure_size (rows + n) v) else v)
        (flags ++ trues n)
KnownFlags-extended true v rows n flags e k =
    let m =
      mark-Tracks v flags [] (trues n) (subst (Tracks v) (sym (append-nil flags)) k)
        (omega arith) in
    rw e (
      subst
        (λ (l : ℕ).
          Tracks (mark (trues n) (length flags) (ensure_size (length flags + l) v))
            (flags ++ trues n))
        (length-trues n) m)
KnownFlags-extended false v rows n flags e k =
    let lt : length (flags ++ trues n) ≡ length flags + n =
      length-append flags (trues n) ∙ ap (◌+◌ (length flags)) (length-trues n) in
    ap (λ (fs : List Bool). fs ++ trues n) k ∙ trues-add (length flags) n ∙ ap trues (sym lt)

-- `n` valid rows are added.
pub FlagsOf-extended :
    (n : ℕ) (c d : TypedColumnBuffer) (flags : List Bool)
    → FlagsOf c flags
    → d.row_count ≡ c.row_count + n
    → d.null_count ≡ c.null_count
    → d.validity_initialized ≡ c.validity_initialized
    → d.validity ≡ extended n c
    → FlagsOf d (flags ++ trues n)
FlagsOf-extended n c d flags f er en ei ev = record {
  rows = omega (arith, er, f.rows, length-append flags (trues n), length-trues n);
  nulls = omega (arith, en, f.nulls, nulls_in-append flags (trues n), nulls_in-trues n);
  known =
      rw (ei, ev)
        (KnownFlags-extended c.validity_initialized c.validity c.row_count n flags f.rows f.known);
}

pub Tracks-ensure :
    (c : TypedColumnBuffer) (flags : List Bool)
    → FlagsOf c flags
    → Tracks (ensure_validity_initialized c) flags
unfolding ensure_validity_initialized
Tracks-ensure c flags f = elim (Bool-cases c.validity_initialized) [
  | inl e ↦
      let k : KnownFlags true c.validity flags =
        subst (λ (b : Bool). KnownFlags b c.validity flags) e f.known in
      rw e k
  | inr e ↦
      let k : KnownFlags false c.validity flags =
        subst (λ (b : Bool). KnownFlags b c.validity flags) e f.known in
      rw (e, f.rows)
        (subst (Tracks (init_valid (length flags) c.validity)) (sym k)
          (init_valid-Tracks (length flags) c.validity))
]

-- The last rows' flags are written again, or rows with given flags are added.
pub FlagsOf-marked :
    (c d : TypedColumnBuffer) (front old bs : List Bool)
    → FlagsOf c (front ++ old)
    → length old ≤ length bs
    → d.row_count ≡ length front + length bs
    → d.null_count ≡ nulls_in (front ++ bs)
    → d.validity_initialized ≡ true
    → d.validity
      ≡ mark bs
          (length front)
          (ensure_size (length front + length bs) (ensure_validity_initialized c))
    → FlagsOf d (front ++ bs)
FlagsOf-marked c d front old bs f le er en ei ev = record {
  rows = er ∙ sym (length-append front bs);
  nulls = en;
  known =
      rw (ei, ev)
        (mark-Tracks (ensure_validity_initialized c) front old bs (Tracks-ensure c (front ++ old) f)
          le);
}

some_inj : {x y : Bool} → some x ≡ some y → x ≡ y
some_inj e = ground arith

get_elem?-snoc_front :
    (xs : List Bool) (x : Bool) (i : ℕ)
    → i < length xs
    → get_elem? (xs ++ x ∷ []) i ≡ get_elem? xs i
get_elem?-snoc_front [] x i h = absurd (omega arith)
get_elem?-snoc_front (y ∷ xs) x zero h = refl
get_elem?-snoc_front (y ∷ xs) x (suc i) h = get_elem?-snoc_front xs x i (omega arith)

get_elem?-snoc_last : (xs : List Bool) (x : Bool) → get_elem? (xs ++ x ∷ []) (length xs) ≡ some x
get_elem?-snoc_last [] x = refl
get_elem?-snoc_last (y ∷ xs) x = get_elem?-snoc_last xs x

get_elem?-row_flags :
    (n i : ℕ) (v : BitVector) → i < n → get_elem? (row_flags n v) i ≡ some (is_valid i v)
get_elem?-row_flags zero i v h = absurd (omega arith)
get_elem?-row_flags (suc n) i v h =
    let l = length-row_flags n v in
    elim (Bool-cases (i == n)) [
      | inl e ↦
          let same : i ≡ n = ground arith in
          subst (λ (k : ℕ). get_elem? (row_flags (suc n) v) k ≡ some (is_valid k v)) (sym same)
            (ap (get_elem? (row_flags (suc n) v)) (sym l)
              ∙ get_elem?-snoc_last (row_flags n v) (is_valid n v))
      | inr e ↦
          get_elem?-snoc_front (row_flags n v) (is_valid n v) i (ground (arith, l))
          ∙ get_elem?-row_flags n i v (ground arith)
    ]

pub get_elem?-lt {ℓ} :
    {A : Type ℓ} (xs : List A) (i : ℕ) (x : A) → get_elem? xs i ≡ some x → i < length xs
get_elem?-lt [] i x e = absurd (cc)
get_elem?-lt (y ∷ xs) zero x e = omega arith
get_elem?-lt (y ∷ xs) (suc i) x e = omega (arith, get_elem?-lt xs i x e)

get_elem?-trues : (n i : ℕ) (b : Bool) → get_elem? (trues n) i ≡ some b → b ≡ true
get_elem?-trues zero i b e = absurd (cc)
get_elem?-trues (suc n) zero b e = ground arith
get_elem?-trues (suc n) (suc i) b e = get_elem?-trues n i b e

-- A row's flag is what the column says of it.
pub is_null-FlagsOf :
    (c : TypedColumnBuffer) (flags : List Bool) (i : ℕ) (b : Bool)
    → FlagsOf c flags
    → get_elem? flags i ≡ some b
    → is_null i c ≡ not b
unfolding is_null
is_null-FlagsOf c flags i b f e = elim (Bool-cases c.validity_initialized) [
  | inl t ↦
      let k : Tracks c.validity flags =
        subst (λ (b : Bool). KnownFlags b c.validity flags) t f.known in
      let at = get_elem?-row_flags (length flags) i c.validity (get_elem?-lt flags i b e) in
      let same : is_valid i c.validity ≡ b =
        some_inj (sym at ∙ ap (λ (fs : List Bool). get_elem? fs i) k.agree ∙ e) in
      rw (t, same)
  | inr t ↦
      let k : KnownFlags false c.validity flags =
        subst (λ (b : Bool). KnownFlags b c.validity flags) t f.known in
      let yes =
        get_elem?-trues (length flags) i b (ap (λ (fs : List Bool). get_elem? fs i) (sym k) ∙ e) in
      rw (t, yes)
]

pub length-slot_flags {ℓ} :
    {A : Type ℓ} (rows : List (Slot A)) → length (slot_flags rows) ≡ length rows
length-slot_flags [] = refl
length-slot_flags (r ∷ rows) = ap suc (length-slot_flags rows)

pub length-slot_values {ℓ} :
    {A : Type ℓ} (rows : List (Slot A)) → length (slot_values rows) ≡ length rows
length-slot_values [] = refl
length-slot_values (r ∷ rows) = ap suc (length-slot_values rows)

pub get_elem?-slot_values {ℓ} :
    {A : Type ℓ} (rows : List (Slot A)) (i : ℕ) (s : Slot A)
    → get_elem? rows i ≡ some s
    → get_elem? (slot_values rows) i ≡ some s.value
get_elem?-slot_values [] i s e = absurd (cc)
get_elem?-slot_values (r ∷ rows) zero s e = ground arith
get_elem?-slot_values (r ∷ rows) (suc i) s e = get_elem?-slot_values rows i s e

pub get_elem?-slot_flags {ℓ} :
    {A : Type ℓ} (rows : List (Slot A)) (i : ℕ) (s : Slot A)
    → get_elem? rows i ≡ some s
    → get_elem? (slot_flags rows) i ≡ some s.valid
get_elem?-slot_flags [] i s e = absurd (cc)
get_elem?-slot_flags (r ∷ rows) zero s e = ground arith
get_elem?-slot_flags (r ∷ rows) (suc i) s e = get_elem?-slot_flags rows i s e
