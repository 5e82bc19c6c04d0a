-- ===== src/TopicStorage/Tests.antt =====
-- A chunk that follows another, one that overlaps it, and an eviction.
use plotjuggler_core.Prelude.{◌≡◌, refl, [], ◌∷◌, arith, ℤ, pos}
use plotjuggler_core.Chunk.{TopicChunk}
use plotjuggler_core.Query.Committed.{IsCommitted, one_chunk}
use plotjuggler_core.TopicStorage.{overlapping_chunk, append_sealed_chunk, evict_chunks_before}
use plotjuggler_core.TopicStorage.Order.{Appended, append_sealed_chunk-Appended}

abbrev chunk_at : ℤ → TopicChunk
chunk_at t = record {
  id = 0;
  topic_id = 1;
  schema_version = 0;
  stats = record { t_min = t; t_max = t; row_count = 1 };
  timestamps = t ∷ [];
  columns = [];
}

chunk_at-IsCommitted : (t : ℤ) → IsCommitted (chunk_at t)
chunk_at-IsCommitted t = record {
  counted = refl;
  nonempty = omega arith;
  sorted = (tt, tt);
  first = refl;
  last = refl;
}

refused :
    append_sealed_chunk (chunk_at (pos 5)) (chunk_at (pos 10) ∷ [])
    ≡ (chunk_at (pos 10) ∷ [], overlapping_chunk (pos 5) (pos 10))
unfolding append_sealed_chunk
refused = refl

evicted :
    evict_chunks_before (pos 10) (chunk_at (pos 5) ∷ chunk_at (pos 10) ∷ [])
    ≡ chunk_at (pos 10) ∷ []
unfolding evict_chunks_before
evicted = refl

append_sealed_chunk-Appended_example :
    Appended
      (chunk_at (pos 20))
      (chunk_at (pos 10) ∷ [])
      (append_sealed_chunk (chunk_at (pos 20)) (chunk_at (pos 10) ∷ []))
append_sealed_chunk-Appended_example =
    append_sealed_chunk-Appended (chunk_at (pos 20)) (chunk_at (pos 10) ∷ [])
      (one_chunk (chunk_at (pos 10)) (chunk_at-IsCommitted (pos 10)))
      (chunk_at-IsCommitted (pos 20))
