-- ===== src/Query/First.antt =====
-- A range query starts at the first row of its range.
use plotjuggler_core.Prelude.{
  ℕ, zero, suc, ◌≤◌, ◌<◌, ◌≡◌, refl, sym, ap, ◌∙◌, subst, ◌⊎◌, inl, inr, Option-cases, none, some,
  Bool-cases, List, [], ◌∷◌, arith, length, get_elem?, All, IsSorted, IsSorted-last, ℤ, ◌≤ℤ◌, ◌<ℤ◌,
  ltb_ℤ, ltb, true, false, lower_bound, before-lower_bound, after-lower_bound, get_elem?-All,
}
use mathlib.Core.Option.{some-injective}
use plotjuggler_core.Chunk.{TopicChunk}
use plotjuggler_core.Query.{
  RangeCursor, row_times, t_mins, t_maxs, exhausted, first_row, find_first_valid, range_query,
}
use plotjuggler_core.Query.Latest.{get_elem?-t_mins}
use plotjuggler_core.Query.Committed.{
  IsCommitted, InOrder, no_chunks, one_chunk, next_chunk, row_times-timestamps, first-le-get_elem?,
  get_elem?-last, t_min-le-t_max, t_mins-IsSorted, get_elem?-IsCommitted,
}

get_elem?-t_maxs :
    (chunks : List TopicChunk) (i : ℕ) {c : TopicChunk}
    → get_elem? chunks i ≡ some c
    → get_elem? (t_maxs chunks) i ≡ some c.stats.t_max
get_elem?-t_maxs [] i e = absurd (cc)
get_elem?-t_maxs (x ∷ chunks) zero e = ap some (ap (λ c. c.stats.t_max) (some-injective _ _ e))
get_elem?-t_maxs (x ∷ chunks) (suc i) e = get_elem?-t_maxs chunks i e

get_elem?-lt {ℓ} :
    {A : Type ℓ} (xs : List A) (i : ℕ) {x : A} → get_elem? xs i ≡ some x → i < length xs
get_elem?-lt [] i e = absurd (cc)
get_elem?-lt (x ∷ xs) zero e = omega arith
get_elem?-lt (x ∷ xs) (suc i) e = omega (arith, get_elem?-lt xs i e)

get_elem?-none {ℓ} : {A : Type ℓ} (xs : List A) (i : ℕ) → get_elem? xs i ≡ none → length xs ≤ i
get_elem?-none [] i e = omega arith
get_elem?-none (x ∷ xs) zero e = absurd (cc)
get_elem?-none (x ∷ xs) (suc i) e = omega (arith, get_elem?-none xs i e)

length-t_maxs : (chunks : List TopicChunk) → length (t_maxs chunks) ≡ length chunks
length-t_maxs [] = refl
length-t_maxs (c ∷ chunks) = ap suc (length-t_maxs chunks)

row-le-t_max :
    (c : TopicChunk) (j : ℕ) (ts : ℤ)
    → IsCommitted c
    → get_elem? c.timestamps j ≡ some ts
    → ts ≤ℤ c.stats.t_max
row-le-t_max c j ts h g =
    get_elem?-All (λ y. y ≤ℤ c.stats.t_max) c.timestamps j
      (IsSorted-last c.timestamps h.sorted h.last) g

-- Chunks further on start where those before them ended, or later.
t_max-le-t_min :
    (chunks : List TopicChunk) (i k : ℕ) (c d : TopicChunk)
    → InOrder chunks
    → get_elem? chunks i ≡ some c
    → get_elem? chunks k ≡ some d
    → i < k
    → c.stats.t_max ≤ℤ d.stats.t_min
t_max-le-t_min [] i k c d o e g l = absurd (cc)
t_max-le-t_min (x ∷ chunks) i zero c d o e g l = absurd (omega arith)
t_max-le-t_min (x ∷ []) i (suc k) c d o e g l = absurd (cc)
t_max-le-t_min (x ∷ y ∷ chunks) zero (suc k) c d (next_chunk _ _ _ h b o) e g l =
    let same : x.stats.t_max ≡ c.stats.t_max = ap (λ z. z.stats.t_max) (some-injective _ _ e) in
    let further =
      first-le-get_elem? (t_mins (y ∷ chunks)) y.stats.t_min d.stats.t_min k (t_mins-IsSorted o)
        refl (get_elem?-t_mins (y ∷ chunks) k g) in
    rw (← same) (omega (arith, b, further))
t_max-le-t_min (x ∷ y ∷ chunks) (suc i) (suc k) c d (next_chunk _ _ _ h b o) e g l =
    t_max-le-t_min (y ∷ chunks) i k c d o e g (omega arith)

t_maxs-from :
    (m : ℤ) {c : TopicChunk} {cs : List TopicChunk}
    → InOrder (c ∷ cs)
    → m ≤ℤ c.stats.t_min
    → All (λ y. m ≤ℤ y) (t_maxs (c ∷ cs))
t_maxs-from m (one_chunk c h) l = (omega (arith, l, t_min-le-t_max c h), tt)
t_maxs-from m (next_chunk c d cs h e o) l = (
  omega (arith, l, t_min-le-t_max c h),
  t_maxs-from m o (omega (arith, l, e, t_min-le-t_max c h)),
)

t_maxs-IsSorted : {chunks : List TopicChunk} → InOrder chunks → IsSorted (t_maxs chunks)
t_maxs-IsSorted no_chunks = tt
t_maxs-IsSorted (one_chunk c h) = (tt, tt)
t_maxs-IsSorted (next_chunk c d cs h e o) = (t_maxs-from c.stats.t_max o e, t_maxs-IsSorted o)

-- Row `row` of chunk `i` is the first one, over all chunks, that is not before `t_min`.
pub record IsFirstRow (chunks : List TopicChunk) (t_min : ℤ) (i row : ℕ) (ts : ℤ) : Type 0 where
  pub chunk : TopicChunk
  pub in_topic : get_elem? chunks i ≡ some chunk
  pub in_chunk : get_elem? chunk.timestamps row ≡ some ts
  pub not_before : t_min ≤ℤ ts
  pub rows_ahead :
      (j : ℕ) (ts' : ℤ) → j < row → get_elem? chunk.timestamps j ≡ some ts' → ts' <ℤ t_min
  pub chunks_ahead :
      (k j : ℕ) (d : TopicChunk) (ts' : ℤ)
      → k < i
      → get_elem? chunks k ≡ some d
      → get_elem? d.timestamps j ≡ some ts'
      → ts' <ℤ t_min

-- No row of any chunk lies in the range.
abbrev pub NoRowIn : List TopicChunk → ℤ → ℤ → Type 0
NoRowIn chunks t_min t_max =
    (k j : ℕ) (d : TopicChunk) (ts : ℤ)
    → get_elem? chunks k ≡ some d
    → get_elem? d.timestamps j ≡ some ts
    → (ts <ℤ t_min) ⊎ (t_max <ℤ ts)

rows_before_chunk :
    (chunks : List TopicChunk) (t_min : ℤ) (k j : ℕ) (d : TopicChunk) (ts : ℤ)
    → InOrder chunks
    → k < lower_bound (t_maxs chunks) t_min
    → get_elem? chunks k ≡ some d
    → get_elem? d.timestamps j ≡ some ts
    → ts <ℤ t_min
rows_before_chunk chunks t_min k j d ts o l e g = omega (
  arith,
  before-lower_bound (t_maxs chunks) t_min k (get_elem?-t_maxs chunks k e) l,
  row-le-t_max d j ts (get_elem?-IsCommitted k o e) g,
)

-- The first row at or after `t_min`, where a chunk reaches that far.
first-IsFirstRow :
    (chunks : List TopicChunk) (t_min : ℤ) (c : TopicChunk)
    → InOrder chunks
    → get_elem? chunks (lower_bound (t_maxs chunks) t_min) ≡ some c
    → (ts : ℤ) × (get_elem? (row_times c) (lower_bound (row_times c) t_min) ≡ some ts)
      × IsFirstRow chunks t_min
          (lower_bound (t_maxs chunks) t_min)
          (lower_bound (row_times c) t_min)
          ts
first-IsFirstRow chunks t_min c o e =
    let i = lower_bound (t_maxs chunks) t_min in
    let h = get_elem?-IsCommitted i o e in
    let reaches =
      after-lower_bound (t_maxs chunks) t_min i (t_maxs-IsSorted o) (get_elem?-t_maxs chunks i e)
        (omega arith) in
    let (n, at_end) = get_elem?-last c.timestamps h.last in
    elim (Option-cases (get_elem? c.timestamps (lower_bound c.timestamps t_min))) [
      | inl none_here ↦
          let short = get_elem?-none c.timestamps (lower_bound c.timestamps t_min) none_here in
          let early =
            before-lower_bound c.timestamps t_min n at_end
              (omega (arith, short, get_elem?-lt c.timestamps n at_end)) in
          absurd (omega (arith, early, reaches))
      | inr (ts, g) ↦ rw (row_times-timestamps c h) (
        ts,
        g,
        record {
          chunk = c;
          in_topic = e;
          in_chunk = g;
          not_before =
              after-lower_bound c.timestamps t_min (lower_bound c.timestamps t_min) h.sorted g
                (omega arith);
          rows_ahead = λ j ts' l g'. before-lower_bound c.timestamps t_min j g' l;
          chunks_ahead = λ k j d ts' l e' g'. rows_before_chunk chunks t_min k j d ts' o l e' g';
        },
      )
    ]

IsSorted-le :
    (xs : List ℤ) (i j : ℕ) {x y : ℤ}
    → IsSorted xs
    → get_elem? xs i ≡ some x
    → get_elem? xs j ≡ some y
    → i ≤ j
    → x ≤ℤ y
IsSorted-le [] i j s e g l = absurd (cc)
IsSorted-le (z ∷ xs) zero j {x} {y} s e g l = first-le-get_elem? (z ∷ xs) x y j s e g
IsSorted-le (z ∷ xs) (suc i) zero s e g l = absurd (omega arith)
IsSorted-le (z ∷ xs) (suc i) (suc j) s e g l = IsSorted-le xs i j s.1 e g (omega arith)

Order-cases : (a b : ℕ) → (a < b) ⊎ ((a ≡ b) ⊎ (b < a))
Order-cases a b = elim (Bool-cases (ltb a b)) [
  | inl e ↦ inl (ground arith)
  | inr e ↦ elim (Bool-cases (ltb b a)) [
    | inl f ↦ inr (inr (ground arith))
    | inr f ↦ inr (inl (ground arith))
  ]
]

-- Where the first row is already after the range, so are all that follow it.
first_after-NoRowIn :
    (chunks : List TopicChunk) (t_min t_max : ℤ) (i row : ℕ) (ts : ℤ)
    → InOrder chunks
    → IsFirstRow chunks t_min i row ts
    → t_max <ℤ ts
    → NoRowIn chunks t_min t_max
first_after-NoRowIn chunks t_min t_max i row ts o f late k j d ts' e g = elim (Order-cases k i) [
  | inl before ↦ inl (f.chunks_ahead k j d ts' before e g)
  | inr (inl same) ↦
      let at_i : get_elem? chunks i ≡ some d = ap (get_elem? chunks) (sym same) ∙ e in
      let this : d ≡ f.chunk = some-injective _ _ (sym at_i ∙ f.in_topic) in
      let g' : get_elem? f.chunk.timestamps j ≡ some ts' =
        ap (λ c. get_elem? c.timestamps j) (sym this) ∙ g in
      elim (Bool-cases (ltb j row)) [
        | inl ahead ↦ inl (f.rows_ahead j ts' (ground arith) g')
        | inr behind ↦
            let further =
              IsSorted-le f.chunk.timestamps row j (get_elem?-IsCommitted i o f.in_topic).sorted
                f.in_chunk g' (ground arith) in
            inr (omega (arith, late, further))
      ]
  | inr (inr behind) ↦
      let h = get_elem?-IsCommitted k o e in
      let apart = t_max-le-t_min chunks i k f.chunk d o f.in_topic e behind in
      let last_here =
        row-le-t_max f.chunk row ts (get_elem?-IsCommitted i o f.in_topic) f.in_chunk in
      let first_there = first-le-get_elem? d.timestamps d.stats.t_min ts' j h.sorted h.first g in
      inr (omega (arith, late, apart, last_here, first_there))
]

module _ (chunks : List TopicChunk) (t_min t_max : ℤ) where
  no_chunk_reaches :
      get_elem? chunks (lower_bound (t_maxs chunks) t_min) ≡ none
      → find_first_valid chunks t_min t_max ≡ exhausted chunks t_min t_max
  unfolding find_first_valid
  no_chunk_reaches e = rw (e, find_first_valid)

  chunk_reaches :
      (c : TopicChunk)
      → get_elem? chunks (lower_bound (t_maxs chunks) t_min) ≡ some c
      → find_first_valid chunks t_min t_max
        ≡ first_row chunks t_min t_max (lower_bound (t_maxs chunks) t_min) c
  unfolding find_first_valid
  chunk_reaches c e = rw (e, find_first_valid)

  first_row-late :
      (i : ℕ) (c : TopicChunk) (ts : ℤ)
      → get_elem? (row_times c) (lower_bound (row_times c) t_min) ≡ some ts
      → ltb_ℤ t_max ts ≡ true
      → first_row chunks t_min t_max i c ≡ exhausted chunks t_min t_max
  first_row-late i c ts g l = rw (g, first_row, l)

  first_row-early :
      (i : ℕ) (c : TopicChunk) (ts : ℤ)
      → get_elem? (row_times c) (lower_bound (row_times c) t_min) ≡ some ts
      → ltb_ℤ t_max ts ≡ false
      → first_row chunks t_min t_max i c ≡ record {
        t_min = t_min;
        t_max = t_max;
        chunk_index = i;
        row_index = lower_bound (row_times c) t_min;
      }
  first_row-early i c ts g l = rw (g, first_row, l)

  -- What the answer to a range query is: the first row in the range, or none.
  abbrev pub StartsAt : RangeCursor → Type 0
  StartsAt q =
      ((q.chunk_index ≡ length chunks) × NoRowIn chunks t_min t_max)
      ⊎ ((ts : ℤ) × (ts ≤ℤ t_max) × IsFirstRow chunks t_min q.chunk_index q.row_index ts)

  -- On committed chunks in order, a range query starts at the first row over all chunks that is
  -- not before the range, and this row is in the range; or it starts exhausted, and no row of any
  -- chunk is in the range.
  pub range_query-StartsAt : InOrder chunks → StartsAt (range_query chunks t_min t_max)
  range_query-StartsAt o =
      elim (Option-cases (get_elem? chunks (lower_bound (t_maxs chunks) t_min))) [
        | inl e ↦ subst StartsAt (sym (no_chunk_reaches e)) (
            inl (
              refl,
              λ k j d ts g g'. inl (
                  rows_before_chunk chunks t_min k j d ts o
                    (omega (
                      arith,
                      get_elem?-lt chunks k g,
                      get_elem?-none chunks (lower_bound (t_maxs chunks) t_min) e,
                    ))
                    g g'),
            ))
        | inr (c, e) ↦
            let (ts, g, f) = first-IsFirstRow chunks t_min c o e in
            elim (Bool-cases (ltb_ℤ t_max ts)) [
              | inl late ↦
                  subst StartsAt (sym (chunk_reaches c e ∙ first_row-late _ c ts g late))
                    (inl (refl, first_after-NoRowIn chunks t_min t_max _ _ ts o f (ground arith)))
              | inr early ↦
                  subst StartsAt (sym (chunk_reaches c e ∙ first_row-early _ c ts g early))
                    (inr (ts, ground arith, f))
            ]
      ]
