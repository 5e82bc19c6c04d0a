-- ===== src/Query/Reader.antt =====
-- `SeriesReader` by time, and the bounds of a series: the rest of pj_datastore/src/query.cpp.
use plotjuggler_core.Prelude.{
  ℕ, zero, suc, ◌+◌, ◌-◌, ◌^◌, Bool, true, false, not, ◌||◌, Option, none, some, List, [], ◌∷◌,
  ◌==◌, if◌then◌else◌, ℤ, pos, negsuc, ltb_ℤ,
}
use plotjuggler_core.Encoding.Doubles.{Floats}
use plotjuggler_core.Chunk.{TopicChunk, read_timestamp, min_ℤ, max_ℤ}
use plotjuggler_core.Query.Series.{
  TimeRange, SeriesSample, SeriesCursor, read_series_value, has_value, column_missing, count_rows,
  sample_at, series_cursor, current_sample, advance_sample, normalized,
}

-- The latest index so far and the next one, and whether a row after the time was met.
pub record BeforeScan : Type 0 where
  pub latest : Option ℕ
  pub series_index : ℕ
  pub stopped : Bool

-- A row that is found, or the series index behind the chunk.
pub data AfterScan : Type 0 where
  found : ℕ → AfterScan
  passed : ℕ → AfterScan

module _ (fl : Floats) where
  unfoldable pub before_rows : TopicChunk → ℕ → ℤ → ℕ → ℕ → BeforeScan → BeforeScan
  unfolding read_timestamp read_series_value
  before_rows chunk column_index t zero row s = s
  before_rows chunk column_index t (suc n) row s =
      let counted : BeforeScan = record {
        latest = some s.series_index;
        series_index = s.series_index + 1;
        stopped = s.stopped;
      } in
      let here = if has_value fl chunk column_index row then counted else s in
      let rest = before_rows chunk column_index t n (row + 1) here in
      if ltb_ℤ t (read_timestamp chunk row) then record s { stopped = true } else rest

  unfoldable pub before_chunks : List TopicChunk → ℕ → ℤ → BeforeScan → Option ℕ
  unfolding before_rows
  before_chunks [] column_index t s = s.latest
  before_chunks (chunk ∷ chunks) column_index t s =
      let skipped = before_chunks chunks column_index t s in
      let s' = before_rows chunk column_index t chunk.stats.row_count 0 s in
      let rest = before_chunks chunks column_index t s' in
      if (chunk.stats.row_count == 0) || column_missing fl chunk column_index
      then skipped
      else (if ltb_ℤ t chunk.stats.t_min
          then s.latest
          else (if s'.stopped then s'.latest else rest))

  unfoldable pub index_at_or_before_time : List TopicChunk → ℕ → ℤ → Option ℕ
  unfolding before_chunks
  index_at_or_before_time chunks column_index t =
      before_chunks chunks column_index t
        (record { latest = none; series_index = 0; stopped = false })

  unfoldable pub after_rows : TopicChunk → ℕ → ℤ → ℕ → ℕ → ℕ → AfterScan
  unfolding read_timestamp read_series_value
  after_rows chunk column_index t zero row series_index = passed series_index
  after_rows chunk column_index t (suc n) row series_index =
      let without = after_rows chunk column_index t n (row + 1) series_index in
      let behind = after_rows chunk column_index t n (row + 1) (series_index + 1) in
      if not (has_value fl chunk column_index row)
      then without
      else (if ltb_ℤ (read_timestamp chunk row) t then behind else found series_index)

  unfoldable pub after_chunks : List TopicChunk → ℕ → ℤ → ℕ → Option ℕ
  unfolding after_rows count_rows
  after_chunks [] column_index t series_index = none
  after_chunks (chunk ∷ chunks) column_index t series_index =
      let skipped = after_chunks chunks column_index t series_index in
      let counted =
        after_chunks chunks column_index t
          (series_index + count_rows fl chunk column_index chunk.stats.row_count 0) in
      if (chunk.stats.row_count == 0) || column_missing fl chunk column_index
      then skipped
      else (if ltb_ℤ chunk.stats.t_max t
          then counted
          else elim (after_rows chunk column_index t chunk.stats.row_count 0 series_index) [
            | found i ↦ some i
            | passed k ↦ after_chunks chunks column_index t k
          ])

  unfoldable pub index_at_or_after_time : List TopicChunk → ℕ → ℤ → Option ℕ
  unfolding after_chunks
  index_at_or_after_time chunks column_index t = after_chunks chunks column_index t 0

  unfoldable pub sample_at_or_before_time : List TopicChunk → ℕ → ℤ → Option (SeriesSample fl)
  unfolding index_at_or_before_time sample_at
  sample_at_or_before_time chunks column_index t =
      elim (index_at_or_before_time chunks column_index t) [
        | none ↦ none
        | some i ↦ sample_at fl chunks column_index i
      ]

  unfoldable pub sample_at_or_after_time : List TopicChunk → ℕ → ℤ → Option (SeriesSample fl)
  unfolding index_at_or_after_time sample_at
  sample_at_or_after_time chunks column_index t =
      elim (index_at_or_after_time chunks column_index t) [
        | none ↦ none
        | some i ↦ sample_at fl chunks column_index i
      ]

  -- `SeriesCursor::forEach`, on fuel: the samples that the callback sees.
  unfoldable pub for_each_sample :
      ℕ → List TopicChunk → ℕ → TimeRange → SeriesCursor → List (SeriesSample fl)
  unfolding current_sample advance_sample
  for_each_sample zero chunks column_index range c = []
  for_each_sample (suc fuel) chunks column_index range c =
      let rest =
        for_each_sample fuel chunks column_index range
          (advance_sample fl chunks column_index range c) in
      elim (current_sample fl chunks column_index c) [ none ↦ [] | some s ↦ s ∷ rest ]

  abbrev pub total_rows : List TopicChunk → ℕ
  total_rows [] = 0
  total_rows (chunk ∷ chunks) = chunk.stats.row_count + total_rows chunks

  pub record SeriesBounds : Type 0 where
    pub time : Option TimeRange
    pub value : Option (fl.Double × fl.Double)
    pub sample_count : ℕ

  -- `std::isfinite`, `std::min` and `std::max` on doubles.
  module _ (is_finite : fl.Double → Bool)
      (min_double max_double : fl.Double → fl.Double → fl.Double) where
    unfoldable pub widen : SeriesBounds → SeriesSample fl → SeriesBounds
    widen b s = record {
      time = elim b.time [
        | none ↦ some (record { min = s.timestamp; max = s.timestamp })
        | some r ↦ some (record { min = min_ℤ r.min s.timestamp; max = max_ℤ r.max s.timestamp })
      ];
      value =
          if is_finite s.value
          then elim b.value [
            | none ↦ some (s.value, s.value)
            | some (low, high) ↦ some (min_double low s.value, max_double high s.value)
          ]
          else b.value;
      sample_count = b.sample_count + 1;
    }

    abbrev pub widen_all : List (SeriesSample fl) → SeriesBounds → SeriesBounds
    widen_all [] b = b
    widen_all (s ∷ ss) b = widen_all ss (widen b s)

    abbrev pub found_both : SeriesBounds → Option SeriesBounds
    found_both b = elim b.time [
      | none ↦ none
      | some r ↦ elim b.value [ none ↦ none | some v ↦ some b ]
    ]

    -- Every row gives at most one sample, so that the rows are fuel enough.
    unfoldable pub bounds : List TopicChunk → ℕ → TimeRange → Option SeriesBounds
    unfolding for_each_sample series_cursor widen normalized
    bounds chunks column_index range = found_both (
        widen_all
          (for_each_sample (total_rows chunks) chunks column_index (normalized range)
            (series_cursor fl chunks column_index range))
          (record { time = none; value = none; sample_count = 0 }))

    abbrev pub all_time : TimeRange
    all_time = record { min = negsuc (2 ^ 63 - 1); max = pos (2 ^ 63 - 1) }
