-- ===== src/Query/Latest.antt =====
-- `latestAt` finds the last row that is not after the time, over all chunks.
use plotjuggler_core.Prelude.{
  ℕ, zero, suc, ◌≤◌, ◌<◌, ◌≡◌, refl, ap, ◌∙◌, ◌⊎◌, inl, inr, none, some, List, [], ◌∷◌, arith,
  length, get_elem?, get_or, ℤ, pos, ◌≤ℤ◌, ◌<ℤ◌, upper_bound, upper_bound-le-length,
  before-upper_bound, after-upper_bound, get_elem?-eq-get_or,
}
use mathlib.Core.Option.{some-injective}
use plotjuggler_core.Chunk.{TopicChunk, read_timestamp}
use plotjuggler_core.Query.{SampleRow, row_times, t_mins, latest_row, latest_at}
use plotjuggler_core.Query.Committed.{
  IsCommitted, InOrder, row_times-timestamps, first-le-get_elem?, get_elem?-IsCommitted,
  t_mins-IsSorted,
}

pub get_elem?-t_mins :
    (chunks : List TopicChunk) (i : ℕ) {c : TopicChunk}
    → get_elem? chunks i ≡ some c
    → get_elem? (t_mins chunks) i ≡ some c.stats.t_min
get_elem?-t_mins [] i e = absurd (cc)
get_elem?-t_mins (x ∷ chunks) zero e = ap some (ap (λ c. c.stats.t_min) (some-injective _ _ e))
get_elem?-t_mins (x ∷ chunks) (suc i) e = get_elem?-t_mins chunks i e

length-t_mins : (chunks : List TopicChunk) → length (t_mins chunks) ≡ length chunks
length-t_mins [] = refl
length-t_mins (c ∷ chunks) = ap suc (length-t_mins chunks)

-- Row `row` of chunk `i` is the last one, over all chunks, that is not after `t`.
pub record IsLatestRow (chunks : List TopicChunk) (t : ℤ) (i row : ℕ) (ts : ℤ) : Type 0 where
  pub chunk : TopicChunk
  pub in_topic : get_elem? chunks i ≡ some chunk
  pub in_chunk : get_elem? chunk.timestamps row ≡ some ts
  pub not_after : ts ≤ℤ t
  pub rows_behind : (j : ℕ) (ts' : ℤ) → row < j → get_elem? chunk.timestamps j ≡ some ts' → t <ℤ ts'
  pub chunks_behind :
      (k j : ℕ) (d : TopicChunk) (ts' : ℤ)
      → i < k
      → get_elem? chunks k ≡ some d
      → get_elem? d.timestamps j ≡ some ts'
      → t <ℤ ts'

-- Every row of every chunk is after `t`.
abbrev pub AllRowsAfter : List TopicChunk → ℤ → Type 0
AllRowsAfter chunks t =
    (k j : ℕ) (d : TopicChunk) (ts : ℤ)
    → get_elem? chunks k ≡ some d
    → get_elem? d.timestamps j ≡ some ts
    → t <ℤ ts

-- A chunk from the upper bound on starts after `t`, and so do its rows.
rows_after :
    (chunks : List TopicChunk) (t : ℤ) (k j : ℕ) (d : TopicChunk) (ts : ℤ)
    → InOrder chunks
    → upper_bound (t_mins chunks) t ≤ k
    → get_elem? chunks k ≡ some d
    → get_elem? d.timestamps j ≡ some ts
    → t <ℤ ts
rows_after chunks t k j d ts o l e g =
    let h = get_elem?-IsCommitted k o e in
    let starts =
      after-upper_bound (t_mins chunks) t k (t_mins-IsSorted o) (get_elem?-t_mins chunks k e) l in
    omega (arith, starts, first-le-get_elem? d.timestamps d.stats.t_min ts j h.sorted h.first g)

pub ℕ-cases : (n : ℕ) → (n ≡ 0) ⊎ ((m : ℕ) × (n ≡ suc m))
ℕ-cases zero = inl refl
ℕ-cases (suc m) = inr (m, refl)

-- In a committed chunk that starts at or before `t`, the upper bound is behind such a row.
latest_in_chunk :
    (c : TopicChunk) (t : ℤ)
    → IsCommitted c
    → c.stats.t_min ≤ℤ t
    → (row : ℕ) × (upper_bound (row_times c) t ≡ suc row)
      × (get_elem? c.timestamps row ≡ some (get_or c.timestamps row (pos 0)))
latest_in_chunk c t h l =
    rw (row_times-timestamps c h) (elim (ℕ-cases (upper_bound c.timestamps t)) [
      | inl e ↦
          let late = after-upper_bound c.timestamps t 0 h.sorted h.first (omega (arith, e)) in
          absurd (omega (arith, late, l))
      | inr (row, e) ↦ (
        row,
        e,
        get_elem?-eq-get_or c.timestamps row (pos 0)
            (omega (arith, e, upper_bound-le-length c.timestamps t)),
      )
    ])

latest_row-some :
    (t : ℤ) (i : ℕ) (c : TopicChunk) (row : ℕ)
    → upper_bound (row_times c) t ≡ suc row
    → latest_row t i c
      ≡ some (record { timestamp = get_or c.timestamps row (pos 0); chunk = i; row_index = row })
unfolding read_timestamp
latest_row-some t i c row e = rw (e, latest_row)

latest_at-none :
    (chunks : List TopicChunk) (t : ℤ)
    → upper_bound (t_mins chunks) t ≡ 0
    → latest_at chunks t ≡ none
unfolding latest_at
latest_at-none chunks t e = rw (e, latest_at)

latest_at-some :
    (chunks : List TopicChunk) (t : ℤ) (i : ℕ) (c : TopicChunk)
    → upper_bound (t_mins chunks) t ≡ suc i
    → get_elem? chunks i ≡ some c
    → latest_at chunks t ≡ latest_row t i c
unfolding latest_at
latest_at-some chunks t i c e g = rw (e, latest_at, g)

pub get_elem?-some {ℓ} :
    {A : Type ℓ} (xs : List A) (i : ℕ) → i < length xs → (x : A) × (get_elem? xs i ≡ some x)
get_elem?-some [] i h = absurd (omega arith)
get_elem?-some (x ∷ xs) zero h = (x, refl)
get_elem?-some (x ∷ xs) (suc i) h = get_elem?-some xs i (omega arith)

-- On committed chunks in order, `latestAt` answers with the last row over all chunks that is not
-- after the time, and with nothing exactly when every row is after it.
pub latest_at_rows :
    (chunks : List TopicChunk) (t : ℤ)
    → InOrder chunks
    → ((latest_at chunks t ≡ none) × AllRowsAfter chunks t)
      ⊎ ((row : SampleRow) × (latest_at chunks t ≡ some row)
          × IsLatestRow chunks t row.chunk row.row_index row.timestamp)
latest_at_rows chunks t o = elim (ℕ-cases (upper_bound (t_mins chunks) t)) [
  | inl e ↦ inl (
    latest_at-none chunks t e,
    λ k j d ts g g'. rows_after chunks t k j d ts o (omega (arith, e)) g g',
  )
  | inr (i, e) ↦
      let (c, g) =
        get_elem?-some chunks i
          (omega (arith, e, upper_bound-le-length (t_mins chunks) t, length-t_mins chunks)) in
      let h = get_elem?-IsCommitted i o g in
      let starts =
        before-upper_bound (t_mins chunks) t i (get_elem?-t_mins chunks i g) (omega (arith, e)) in
      let (row, u, at_row) = latest_in_chunk c t h starts in
      let u' : upper_bound c.timestamps t ≡ suc row = rw (row_times-timestamps c h) at u in
      inr (
        record { timestamp = get_or c.timestamps row (pos 0); chunk = i; row_index = row },
        latest_at-some chunks t i c e g ∙ latest_row-some t i c row u,
        record {
          chunk = c;
          in_topic = g;
          in_chunk = at_row;
          not_after = before-upper_bound c.timestamps t row at_row (omega (arith, u'));
          rows_behind =
              λ j ts' l g'. after-upper_bound c.timestamps t j h.sorted g' (omega (arith, u'));
          chunks_behind =
              λ k j d ts' l g' g''. rows_after chunks t k j d ts' o (omega (arith, e)) g' g'';
        },
      )
]
