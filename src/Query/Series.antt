-- ===== src/Query/Series.antt =====
-- `SeriesCursor` and `SeriesReader`: one column as a series of its rows that have a value.
use plotjuggler_core.Prelude.{
  ℕ, zero, suc, ◌+◌, Bool, true, false, not, ◌||◌, Option, none, some, List, [], ◌∷◌, length,
  get_elem?, drop, leb, ◌==◌, if◌then◌else◌, ℤ, pos, ltb_ℤ,
}
use plotjuggler_core.Encoding.{bool}
use plotjuggler_core.Encoding.Doubles.{Floats}
use plotjuggler_core.Chunk.{
  TopicChunk, Column, read_timestamp, is_null, read_bool, read_numeric_as_double,
}

pub record TimeRange : Type 0 where
  pub min : ℤ
  pub max : ℤ

unfoldable pub normalized : TimeRange → TimeRange
normalized range =
    if ltb_ℤ range.max range.min then record { min = range.max; max = range.min } else range

abbrev pub is_bool_column : Column → Bool
is_bool_column col = elim col.descriptor.logical_type [ bool ↦ true | _ ↦ false ]

pub record SeriesCursor : Type 0 where
  pub chunk_index : ℕ
  pub row_index : ℕ

-- Where the scan of a chunk's rows stops: at a sample, past the range, or behind the last row.
pub data RowScan : Type 0 where
  at_sample : ℕ → RowScan
  past_range : ℕ → RowScan
  no_more_rows : RowScan

module _ (fl : Floats) where
  pub record SeriesSample : Type 0 where
    pub timestamp : ℤ
    pub value : fl.Double
    pub chunk : ℕ
    pub row_index : ℕ

  unfoldable pub read_series_value : TopicChunk → ℕ → ℕ → Option fl.Double
  unfolding is_null read_bool read_numeric_as_double
  read_series_value chunk column_index row = elim (get_elem? chunk.columns column_index) [
    | none ↦ none
    | some col ↦
        if leb chunk.stats.row_count row || is_null col row
        then none
        else (if is_bool_column col
            then some (fl.of_int (if read_bool col row then pos 1 else pos 0))
            else some (read_numeric_as_double fl col row))
  ]

  abbrev pub has_value : TopicChunk → ℕ → ℕ → Bool
  has_value chunk column_index row = elim (read_series_value chunk column_index row) [
    | none ↦ false
    | some v ↦ true
  ]

  unfoldable pub make_series_sample : TopicChunk → ℕ → ℕ → ℕ → Option SeriesSample
  unfolding read_series_value read_timestamp
  make_series_sample chunk chunk_index column_index row =
      elim (read_series_value chunk column_index row) [
        | none ↦ none
        | some v ↦ some (record {
          timestamp = read_timestamp chunk row;
          value = v;
          chunk = chunk_index;
          row_index = row;
        })
      ]

  -- The inner loop of `skipToSample`, over at most `n` rows from `row` on.
  unfoldable pub scan_chunk : TimeRange → TopicChunk → ℕ → ℕ → ℕ → RowScan
  unfolding read_timestamp read_series_value
  scan_chunk range chunk column_index zero row = no_more_rows
  scan_chunk range chunk column_index (suc n) row =
      let further = scan_chunk range chunk column_index n (row + 1) in
      if leb chunk.stats.row_count row
      then no_more_rows
      else (if ltb_ℤ (read_timestamp chunk row) range.min
          then further
          else (if ltb_ℤ range.max (read_timestamp chunk row)
              then past_range row
              else (if has_value chunk column_index row then at_sample row else further)))

  abbrev pub column_missing : TopicChunk → ℕ → Bool
  column_missing chunk column_index = leb (length chunk.columns) column_index

  -- `skipToSample` over the chunks from index `i` on, of `total` chunks.
  unfoldable pub skip_from : TimeRange → ℕ → ℕ → List TopicChunk → ℕ → ℕ → SeriesCursor
  unfolding scan_chunk
  skip_from range column_index total [] i row = record { chunk_index = i; row_index = row }
  skip_from range column_index total (chunk ∷ chunks) i row =
      let next = skip_from range column_index total chunks (i + 1) 0 in
      if (chunk.stats.row_count == 0)
        || (ltb_ℤ chunk.stats.t_max range.min || column_missing chunk column_index)
      then next
      else (if ltb_ℤ range.max chunk.stats.t_min
          then record { chunk_index = total; row_index = row }
          else elim (scan_chunk range chunk column_index chunk.stats.row_count row) [
            | at_sample r ↦ record { chunk_index = i; row_index = r }
            | past_range r ↦ record { chunk_index = total; row_index = r }
            | no_more_rows ↦ next
          ])

  unfoldable pub skip_to_sample : List TopicChunk → ℕ → TimeRange → SeriesCursor → SeriesCursor
  unfolding skip_from
  skip_to_sample chunks column_index range c =
      skip_from range column_index (length chunks) (drop c.chunk_index chunks) c.chunk_index
        c.row_index

  unfoldable pub series_cursor : List TopicChunk → ℕ → TimeRange → SeriesCursor
  unfolding skip_to_sample normalized
  series_cursor chunks column_index range =
      skip_to_sample chunks column_index (normalized range)
        (record { chunk_index = 0; row_index = 0 })

  unfoldable pub current_sample : List TopicChunk → ℕ → SeriesCursor → Option SeriesSample
  unfolding make_series_sample
  current_sample chunks column_index c = elim (get_elem? chunks c.chunk_index) [
    | none ↦ none
    | some chunk ↦ make_series_sample chunk c.chunk_index column_index c.row_index
  ]

  unfoldable pub advance_sample : List TopicChunk → ℕ → TimeRange → SeriesCursor → SeriesCursor
  unfolding skip_to_sample
  advance_sample chunks column_index range c =
      skip_to_sample chunks column_index range record c { row_index = c.row_index + 1 }

  -- `SeriesReader`. The loops run over the rows from `row` on, `n` of them, and over the chunks.
  unfoldable pub count_rows : TopicChunk → ℕ → ℕ → ℕ → ℕ
  unfolding read_series_value
  count_rows chunk column_index zero row = 0
  count_rows chunk column_index (suc n) row =
      (if has_value chunk column_index row then 1 else 0)
      + count_rows chunk column_index n (row + 1)

  unfoldable pub size : List TopicChunk → ℕ → ℕ
  unfolding count_rows
  size [] column_index = 0
  size (chunk ∷ chunks) column_index =
      (if column_missing chunk column_index
        then 0
        else count_rows chunk column_index chunk.stats.row_count 0)
      + size chunks column_index

  -- The rows of one chunk: the sample, or the series index behind them.
  pub data SampleScan : Type 0 where
    sample : Option SeriesSample → SampleScan
    seen : ℕ → SampleScan

  unfoldable pub find_row : TopicChunk → ℕ → ℕ → ℕ → ℕ → ℕ → ℕ → SampleScan
  unfolding read_series_value make_series_sample
  find_row chunk chunk_index column_index index zero row series_index = seen series_index
  find_row chunk chunk_index column_index index (suc n) row series_index =
      let without = find_row chunk chunk_index column_index index n (row + 1) series_index in
      let behind = find_row chunk chunk_index column_index index n (row + 1) (series_index + 1) in
      if not (has_value chunk column_index row)
      then without
      else (if series_index == index
          then sample (make_series_sample chunk chunk_index column_index row)
          else behind)

  unfoldable pub sample_at_from : List TopicChunk → ℕ → ℕ → ℕ → ℕ → Option SeriesSample
  unfolding find_row
  sample_at_from [] i column_index index series_index = none
  sample_at_from (chunk ∷ chunks) i column_index index series_index =
      let skipped = sample_at_from chunks (i + 1) column_index index series_index in
      if column_missing chunk column_index
      then skipped
      else elim (find_row chunk i column_index index chunk.stats.row_count 0 series_index) [
        | sample s ↦ s
        | seen k ↦ sample_at_from chunks (i + 1) column_index index k
      ]

  unfoldable pub sample_at : List TopicChunk → ℕ → ℕ → Option SeriesSample
  unfolding sample_at_from
  sample_at chunks column_index index = sample_at_from chunks 0 column_index index 0
