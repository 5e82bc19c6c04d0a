-- ===== src/Query/Tests.antt =====
-- Two committed chunks that meet at time 20, and what queries find in them.
use plotjuggler_core.Prelude.{
  ℕ, ◌≡◌, refl, ◌⊎◌, some, none, List, [], ◌∷◌, arith, ℤ, pos, lower_bound, upper_bound,
}
use plotjuggler_core.Chunk.{TopicChunk}
use plotjuggler_core.Query.{
  SampleRow, range_query, find_first_valid, for_each, for_each_chunk, latest_at,
}
use plotjuggler_core.Query.Committed.{InOrder, one_chunk, next_chunk}
use plotjuggler_core.Query.Latest.{latest_at_rows, AllRowsAfter, IsLatestRow}
use plotjuggler_core.Query.First.{range_query-StartsAt, StartsAt}

abbrev chunk_of : ℤ → ℤ → List ℤ → ℕ → TopicChunk
chunk_of first last times count = record {
  id = 0;
  topic_id = 1;
  schema_version = 0;
  stats = record { t_min = first; t_max = last; row_count = count };
  timestamps = times;
  columns = [];
}

abbrev early_chunk : TopicChunk
early_chunk = chunk_of (pos 10) (pos 20) (pos 10 ∷ pos 15 ∷ pos 20 ∷ []) 3

abbrev late_chunk : TopicChunk
late_chunk = chunk_of (pos 20) (pos 30) (pos 20 ∷ pos 30 ∷ []) 2

abbrev chunks : List TopicChunk
chunks = early_chunk ∷ late_chunk ∷ []

in_order : InOrder chunks
in_order =
    next_chunk early_chunk late_chunk []
      record {
        counted = refl;
        nonempty = omega arith;
        sorted = ((omega arith, (omega arith, tt)), ((omega arith, tt), (tt, tt)));
        first = refl;
        last = refl;
      }
      (omega arith)
      (one_chunk late_chunk record {
        counted = refl;
        nonempty = omega arith;
        sorted = ((omega arith, tt), (tt, tt));
        first = refl;
        last = refl;
      })

rows_in_range :
    for_each 10 chunks (range_query chunks (pos 15) (pos 20))
    ≡ record { timestamp = pos 15; chunk = 0; row_index = 1 }
      ∷ record { timestamp = pos 20; chunk = 0; row_index = 2 }
      ∷ record { timestamp = pos 20; chunk = 1; row_index = 0 }
      ∷ []
unfolding for_each find_first_valid lower_bound
rows_in_range = refl

ranges_in_range :
    (for_each_chunk chunks (range_query chunks (pos 15) (pos 20))).0
    ≡ record { chunk = 0; row_start = 1; row_end = 3 }
      ∷ record { chunk = 1; row_start = 0; row_end = 1 }
      ∷ []
unfolding for_each_chunk find_first_valid lower_bound
ranges_in_range = refl

-- At a shared boundary the later chunk answers.
shared_boundary :
    latest_at chunks (pos 20) ≡ some (record { timestamp = pos 20; chunk = 1; row_index = 0 })
unfolding latest_at upper_bound
shared_boundary = refl

latest_at_rows_example :
    ((latest_at chunks (pos 25) ≡ none) × AllRowsAfter chunks (pos 25))
    ⊎ ((row : SampleRow) × (latest_at chunks (pos 25) ≡ some row)
        × IsLatestRow chunks (pos 25) row.chunk row.row_index row.timestamp)
latest_at_rows_example = latest_at_rows chunks (pos 25) in_order

range_query-StartsAt_example :
    StartsAt chunks (pos 15) (pos 20) (range_query chunks (pos 15) (pos 20))
range_query-StartsAt_example = range_query-StartsAt chunks (pos 15) (pos 20) in_order
