-- ===== src/TopicStorage/Order.antt =====
-- The chunks of a topic stay committed and in order.
use plotjuggler_core.Prelude.{
  ◌≡◌, refl, false, Bool-cases, ◌⊎◌, inl, inr, List, [], ◌∷◌, ◌++◌, Option, none, some, last?,
  arith, ℤ, ltb_ℤ, ◌<ℤ◌,
}
use plotjuggler_core.Chunk.{TopicChunk}
use plotjuggler_core.Query.Committed.{IsCommitted, InOrder, no_chunks, one_chunk, next_chunk}
use plotjuggler_core.TopicStorage.{
  Status, ok_status, overlapping_chunk, overlaps, append_sealed_chunk, end_to_remove,
  evict_chunks_before,
}

snoc-InOrder :
    (chunks : List TopicChunk) (chunk : TopicChunk)
    → InOrder chunks
    → IsCommitted chunk
    → overlaps (last? chunks) chunk ≡ false
    → InOrder (chunks ++ chunk ∷ [])
snoc-InOrder [] chunk o h e = one_chunk chunk h
snoc-InOrder (c ∷ []) chunk (one_chunk _ k) h e =
    next_chunk c chunk [] k (ground arith) (one_chunk chunk h)
snoc-InOrder (c ∷ d ∷ cs) chunk (next_chunk _ _ _ k l o) h e =
    next_chunk c d (cs ++ chunk ∷ []) k l (snoc-InOrder (d ∷ cs) chunk o h e)

-- What an append does: it refuses a chunk that starts before the last one ends, and changes
-- nothing; or it puts the chunk behind the others.
abbrev pub Appended : TopicChunk → List TopicChunk → List TopicChunk × Status → Type 0
Appended chunk chunks r =
    ((back : TopicChunk) × (last? chunks ≡ some back)
      × (chunk.stats.t_min <ℤ back.stats.t_max)
      × (r ≡ (chunks, overlapping_chunk chunk.stats.t_min back.stats.t_max)))
    ⊎ ((r ≡ (chunks ++ chunk ∷ [], ok_status)) × InOrder (chunks ++ chunk ∷ []))

-- Appending a committed chunk to committed chunks in order either refuses it, because it starts
-- before the last one ends, and changes nothing, or puts it behind the others, which then are
-- still in order.
pub append_sealed_chunk-Appended :
    (chunk : TopicChunk) (chunks : List TopicChunk)
    → InOrder chunks
    → IsCommitted chunk
    → Appended chunk chunks (append_sealed_chunk chunk chunks)
unfolding append_sealed_chunk
append_sealed_chunk-Appended chunk chunks o h = go (last? chunks) refl
  where
    go :
        (l : Option TopicChunk)
        → last? chunks ≡ l
        → Appended chunk chunks (append_sealed_chunk chunk chunks)
    go none e = inr (rw e, snoc-InOrder chunks chunk o h (rw e))
    go (some back) e = elim (Bool-cases (ltb_ℤ chunk.stats.t_min back.stats.t_max)) [
      | inl early ↦ inl (back, e, ground arith, rw (e, early))
      | inr late ↦ inr (rw (e, late), snoc-InOrder chunks chunk o h (rw (e, late)))
    ]

tail-InOrder : (c : TopicChunk) (cs : List TopicChunk) → InOrder (c ∷ cs) → InOrder cs
tail-InOrder c [] o = no_chunks
tail-InOrder c (d ∷ cs) (next_chunk _ _ _ k l o) = o

-- Evicting before a time keeps committed chunks in order.
evict_chunks_before-InOrder :
    (t : ℤ) (chunks : List TopicChunk) → InOrder chunks → InOrder (evict_chunks_before t chunks)
unfolding evict_chunks_before
evict_chunks_before-InOrder t [] o = no_chunks
evict_chunks_before-InOrder t (c ∷ cs) o = elim (Bool-cases (ltb_ℤ c.stats.t_max t)) [
  | inl e ↦ rw (e, end_to_remove) (evict_chunks_before-InOrder t cs (tail-InOrder c cs o))
  | inr e ↦ rw (e, end_to_remove) o
]
