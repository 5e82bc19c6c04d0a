-- ===== src/Query.antt =====
-- Queries over the committed chunks of a topic: pj_datastore/src/query.cpp with its header. A
-- pointer to a chunk is the chunk's index in the deque. The cursor and the reader of one series
-- are in Query/Series.
pub mod Committed
pub mod Latest
pub mod First
pub mod Series
pub mod Reader
mod Tests
use plotjuggler_core.Prelude.{
  ℕ, zero, suc, ◌+◌, ◌-◌, Bool, true, false, not, Option, none, some, List, [], ◌∷◌, ◌++◌, length,
  get_elem?, take, drop, map, ltb, leb, ◌==◌, if◌then◌else◌, ℤ, ltb_ℤ, lower_bound, upper_bound,
}
use plotjuggler_core.Chunk.{TopicChunk, ChunkStats, read_timestamp}

pub record SampleRow : Type 0 where
  pub timestamp : ℤ
  pub chunk : ℕ
  pub row_index : ℕ

pub record ChunkRowRange : Type 0 where
  pub chunk : ℕ
  pub row_start : ℕ
  pub row_end : ℕ

pub record RangeCursor : Type 0 where
  pub t_min : ℤ
  pub t_max : ℤ
  pub chunk_index : ℕ
  pub row_index : ℕ

-- The rows of a chunk that the searches look at.
abbrev pub row_times : TopicChunk → List ℤ
row_times chunk = take chunk.stats.row_count chunk.timestamps

abbrev pub t_mins : List TopicChunk → List ℤ
t_mins chunks = map (λ c. c.stats.t_min) chunks

abbrev pub t_maxs : List TopicChunk → List ℤ
t_maxs chunks = map (λ c. c.stats.t_max) chunks

-- The cursor behind the last chunk.
abbrev pub exhausted : List TopicChunk → ℤ → ℤ → RangeCursor
exhausted chunks t_min t_max = record {
  t_min = t_min;
  t_max = t_max;
  chunk_index = length chunks;
  row_index = 0;
}

-- The first row of the chunk that is not before the range, unless it is already after it.
abbrev pub first_row : List TopicChunk → ℤ → ℤ → ℕ → TopicChunk → RangeCursor
first_row chunks t_min t_max chunk_index chunk =
    elim (get_elem? (row_times chunk) (lower_bound (row_times chunk) t_min)) [
      | none ↦ exhausted chunks t_min t_max
      | some ts ↦ if ltb_ℤ t_max ts then exhausted chunks t_min t_max else record {
        t_min = t_min;
        t_max = t_max;
        chunk_index = chunk_index;
        row_index = lower_bound (row_times chunk) t_min;
      }
    ]

unfoldable pub find_first_valid : List TopicChunk → ℤ → ℤ → RangeCursor
find_first_valid chunks t_min t_max = elim (get_elem? chunks (lower_bound (t_maxs chunks) t_min)) [
  | none ↦ exhausted chunks t_min t_max
  | some chunk ↦ first_row chunks t_min t_max (lower_bound (t_maxs chunks) t_min) chunk
]

-- `rangeQuery` and the constructor of the cursor.
abbrev pub range_query : List TopicChunk → ℤ → ℤ → RangeCursor
range_query = find_first_valid

abbrev pub valid : List TopicChunk → RangeCursor → Bool
valid chunks c = ltb c.chunk_index (length chunks)

unfoldable pub current : List TopicChunk → RangeCursor → Option SampleRow
unfolding read_timestamp
current chunks c = elim (get_elem? chunks c.chunk_index) [
  | none ↦ none
  | some chunk ↦ some (record {
    timestamp = read_timestamp chunk c.row_index;
    chunk = c.chunk_index;
    row_index = c.row_index;
  })
]

unfoldable pub skip_to_valid : List TopicChunk → RangeCursor → RangeCursor
unfolding read_timestamp
skip_to_valid chunks c = elim (get_elem? chunks c.chunk_index) [
  | none ↦ c
  | some chunk ↦
      if ltb_ℤ c.t_max (read_timestamp chunk c.row_index)
      then record c { chunk_index = length chunks }
      else c
]

-- On a valid cursor; on another, which the source's assertion excludes, nothing changes.
unfoldable pub advance : List TopicChunk → RangeCursor → RangeCursor
unfolding skip_to_valid
advance chunks c = elim (get_elem? chunks c.chunk_index) [
  | none ↦ c
  | some chunk ↦ skip_to_valid chunks (
      if leb chunk.stats.row_count (c.row_index + 1)
      then record c { chunk_index = c.chunk_index + 1; row_index = 0 }
      else record c { row_index = c.row_index + 1 })
]

-- `forEach`, on fuel: the rows that the callback sees.
unfoldable pub for_each : ℕ → List TopicChunk → RangeCursor → List SampleRow
unfolding current advance
for_each zero chunks c = []
for_each (suc fuel) chunks c =
    let rest = for_each fuel chunks (advance chunks c) in
    elim (current chunks c) [ none ↦ [] | some row ↦ row ∷ rest ]

-- The two scans of `forEachChunk`, over at most `n` rows from `row` on.
unfoldable pub rows_before : ℤ → TopicChunk → ℕ → ℕ → ℕ
unfolding read_timestamp
rows_before t_min chunk zero row = row
rows_before t_min chunk (suc n) row =
    let further = rows_before t_min chunk n (row + 1) in
    if ltb row chunk.stats.row_count
    then (if ltb_ℤ (read_timestamp chunk row) t_min then further else row)
    else row

unfoldable pub rows_until : ℤ → TopicChunk → ℕ → ℕ → ℕ
unfolding read_timestamp
rows_until t_max chunk zero row = row
rows_until t_max chunk (suc n) row =
    let further = rows_until t_max chunk n (row + 1) in
    if ltb row chunk.stats.row_count
    then (if ltb_ℤ t_max (read_timestamp chunk row) then row else further)
    else row

-- `forEachChunk`: the ranges that the callback sees, of the chunks from index `i` on. The first
-- row is kept over chunks before the range, and reset behind every other.
unfoldable pub chunk_ranges : ℤ → ℤ → List TopicChunk → ℕ → ℕ → List ChunkRowRange
unfolding rows_before rows_until
chunk_ranges t_min t_max [] i row = []
chunk_ranges t_min t_max (chunk ∷ chunks) i row =
    let skipped = chunk_ranges t_min t_max chunks (i + 1) row in
    let rest = chunk_ranges t_min t_max chunks (i + 1) 0 in
    let first = rows_before t_min chunk chunk.stats.row_count row in
    let end = rows_until t_max chunk chunk.stats.row_count first in
    if ltb_ℤ chunk.stats.t_max t_min
    then skipped
    else (if ltb_ℤ t_max chunk.stats.t_min
        then []
        else (if ltb first end
            then record { chunk = i; row_start = first; row_end = end } ∷ rest
            else rest))

-- The row index that the loop leaves: it is reset behind each chunk that the range reaches.
unfoldable pub row_left : ℤ → ℤ → List TopicChunk → ℕ → ℕ
row_left t_min t_max [] row = row
row_left t_min t_max (chunk ∷ chunks) row =
    let skipped = row_left t_min t_max chunks row in
    let rest = row_left t_min t_max chunks 0 in
    if ltb_ℤ chunk.stats.t_max t_min
    then skipped
    else (if ltb_ℤ t_max chunk.stats.t_min then row else rest)

unfoldable pub for_each_chunk : List TopicChunk → RangeCursor → List ChunkRowRange × RangeCursor
unfolding chunk_ranges row_left
for_each_chunk chunks c =
    let ahead = drop c.chunk_index chunks in
    (
      chunk_ranges c.t_min c.t_max ahead c.chunk_index c.row_index,
      record c {
        chunk_index = length chunks;
        row_index = row_left c.t_min c.t_max ahead c.row_index;
      },
    )

-- The last row of the chunk that is not after `t`.
abbrev pub latest_row : ℤ → ℕ → TopicChunk → Option SampleRow
latest_row t chunk_index chunk = elim (upper_bound (row_times chunk) t) [
  | zero ↦ none
  | suc row ↦
      some (record { timestamp = read_timestamp chunk row; chunk = chunk_index; row_index = row })
]

unfoldable pub latest_at : List TopicChunk → ℤ → Option SampleRow
unfolding read_timestamp
latest_at chunks t = elim (upper_bound (t_mins chunks) t) [
  | zero ↦ none
  | suc i ↦ elim (get_elem? chunks i) [ none ↦ none | some chunk ↦ latest_row t i chunk ]
]
