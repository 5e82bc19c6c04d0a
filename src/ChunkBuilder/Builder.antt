-- ===== src/ChunkBuilder/Builder.antt =====
-- The builder of a chunk, row by row and in bulk, over its columns.
use plotjuggler_core.Prelude.{
  ℕ, zero, suc, ◌+◌, ◌-◌, ◌^◌, Bool, true, false, Option, none, some, List, [], ◌∷◌, ◌++◌, length,
  last?, ltb, leb, ◌==◌, if◌then◌else◌, ℤ, pos, negsuc,
}
use plotjuggler_core.Buffer.{BitSpan}
use plotjuggler_core.Encoding.{StorageKind, k_string, storage_kind_size}
use plotjuggler_core.ColumnBuffer.{
  storage_kind, append_fixed_bulk, append_strings_bulk, append_validity_bulk,
}
use plotjuggler_core.Chunk.{ColumnDescriptor, Column, TopicChunk, min_ℤ, max_ℤ}
use plotjuggler_core.ChunkBuilder.{
  Doubles, BuilderColumn, u32, new_builder_column, set_null, compute_bulk_numeric_stats,
  compute_bulk_string_stats, seal_column,
}

module _ (d : Doubles) where
  pub record TopicChunkBuilder : Type 0 where
    pub topic_id : ℕ
    pub schema_id : ℕ
    pub max_rows : ℕ
    pub timestamps : List ℤ
    pub columns : List (BuilderColumn d)
    pub t_min : ℤ
    pub t_max : ℤ
    pub row_count : ℕ
    pub row_in_progress : Bool
    pub current_timestamp : ℤ
    pub last_timestamp : ℤ
    pub bulk_pending_rows : ℕ

  new_columns : List ColumnDescriptor → List (BuilderColumn d)
  new_columns [] = []
  new_columns (descriptor ∷ rest) = new_builder_column d descriptor ∷ new_columns rest

  unfoldable pub new_builder : ℕ → ℕ → List ColumnDescriptor → ℕ → TopicChunkBuilder
  unfolding new_columns
  new_builder topic_id schema_id columns max_rows = record {
    topic_id = topic_id;
    schema_id = schema_id;
    max_rows = max_rows;
    timestamps = [];
    columns = new_columns columns;
    t_min = pos (2 ^ 63 - 1);
    t_max = negsuc (2 ^ 63 - 1);
    row_count = 0;
    row_in_progress = false;
    current_timestamp = pos 0;
    last_timestamp = negsuc (2 ^ 63 - 1);
    bulk_pending_rows = 0;
  }

  abbrev pub begin_row : ℤ → TopicChunkBuilder → TopicChunkBuilder
  begin_row timestamp b = record b {
    row_in_progress = true;
    current_timestamp = timestamp;
    last_timestamp = timestamp;
  }

  -- A call on the column at an index.
  unfoldable pub at_column :
      ℕ → (BuilderColumn d → BuilderColumn d) → List (BuilderColumn d) → List (BuilderColumn d)
  at_column i change [] = []
  at_column zero change (c ∷ cs) = change c ∷ cs
  at_column (suc i) change (c ∷ cs) = c ∷ at_column i change cs

  abbrev pub on_column :
      ℕ → (BuilderColumn d → BuilderColumn d) → TopicChunkBuilder → TopicChunkBuilder
  on_column i change b = record b { columns = at_column i change b.columns }

  -- The columns that have no value for the current row get a null.
  unfoldable pub fill_columns : ℕ → List (BuilderColumn d) → List (BuilderColumn d)
  unfolding set_null
  fill_columns expected [] = []
  fill_columns expected (c ∷ cs) =
      (if ltb c.buffer.row_count expected then set_null d c else c) ∷ fill_columns expected cs

  unfoldable pub finish_row : TopicChunkBuilder → TopicChunkBuilder
  unfolding fill_columns
  finish_row b = record b {
    columns = fill_columns (u32 (b.row_count + 1)) b.columns;
    timestamps = b.timestamps ++ b.current_timestamp ∷ [];
    t_min = min_ℤ b.t_min b.current_timestamp;
    t_max = max_ℤ b.t_max b.current_timestamp;
    row_count = u32 (b.row_count + 1);
    row_in_progress = false;
  }

  abbrev last_of : Option ℤ → ℤ
  last_of none = pos 0
  last_of (some t) = t

  unfoldable pub append_timestamps : List ℤ → TopicChunkBuilder → TopicChunkBuilder
  append_timestamps [] b = b
  append_timestamps (t ∷ ts) b = record b {
    timestamps = b.timestamps ++ (t ∷ ts);
    t_min = min_ℤ b.t_min t;
    t_max = max_ℤ b.t_max (last_of (last? (t ∷ ts)));
    last_timestamp = last_of (last? (t ∷ ts));
    bulk_pending_rows = length (t ∷ ts);
  }

  -- `appendColumn`, `appendColumnStrings` and `appendColumnValidity` on a column.
  abbrev pub append_column : List ℕ → BuilderColumn d → BuilderColumn d
  append_column words c = record c {
    buffer = append_fixed_bulk (storage_kind_size (storage_kind c.buffer)) words c.buffer;
  }

  abbrev pub append_column_strings : List ℕ → List ℕ → BuilderColumn d → BuilderColumn d
  append_column_strings offsets bytes c = record c {
    buffer = append_strings_bulk offsets bytes c.buffer;
  }

  abbrev pub append_column_validity : BitSpan → BuilderColumn d → BuilderColumn d
  append_column_validity span c = record c { buffer = append_validity_bulk span c.buffer }

  abbrev is_string : StorageKind → Bool
  is_string k_string = true
  is_string _ = false

  unfoldable pub finish_bulk_columns : ℕ → List (BuilderColumn d) → List (BuilderColumn d)
  unfolding compute_bulk_numeric_stats compute_bulk_string_stats
  finish_bulk_columns count [] = []
  finish_bulk_columns count (c ∷ cs) =
      let first_row = c.buffer.row_count - count in
      (if is_string (storage_kind c.buffer)
        then compute_bulk_string_stats d first_row count c
        else compute_bulk_numeric_stats d first_row count c)
      ∷ finish_bulk_columns count cs

  unfoldable pub finish_bulk_append : TopicChunkBuilder → TopicChunkBuilder
  unfolding finish_bulk_columns
  finish_bulk_append b = if b.bulk_pending_rows == 0 then b else record b {
    columns = finish_bulk_columns b.bulk_pending_rows b.columns;
    row_count = u32 (b.row_count + b.bulk_pending_rows);
    bulk_pending_rows = 0;
  }

  abbrev pub remaining_capacity : TopicChunkBuilder → ℕ
  remaining_capacity b = u32 (b.max_rows + 2 ^ 32 - b.row_count)

  abbrev pub is_full : TopicChunkBuilder → Bool
  is_full b = leb b.max_rows b.row_count

  unfoldable pub seal_columns : List (BuilderColumn d) → List Column
  unfolding seal_column
  seal_columns [] = []
  seal_columns (c ∷ cs) = seal_column d c ∷ seal_columns cs

  -- The chunk with the id that the counter gives. The statistics of the columns, which the code
  -- copies along, stay with the builder.
  unfoldable pub seal : ℕ → TopicChunkBuilder → TopicChunk
  unfolding seal_columns
  seal next_chunk_id b = record {
    id = next_chunk_id;
    topic_id = b.topic_id;
    schema_version = b.schema_id;
    stats = record { t_min = b.t_min; t_max = b.t_max; row_count = b.row_count };
    timestamps = b.timestamps;
    columns = seal_columns b.columns;
  }
