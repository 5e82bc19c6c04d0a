-- ===== src/ObjectSeries/Invariant.antt =====
-- The representation invariant of a series, and that every operation on a series keeps it.
use plotjuggler_core.Prelude.{
  ℕ, zero, suc, ◌+◌, ◌%◌, ◌^◌, ◌≡◌, refl, ap, Bool, Bool-cases, inl, inr, none, some, List, [], ◌∷◌,
  ◌++◌, map, arith, length, IsSorted, ℤ, ltb_ℤ, ltb, pos,
}
use plotjuggler_core.ObjectSeries.{
  Payload, shared_buffer, lazy_callback, ObjectEntry, ObjectSeries, ObjectTopicDescriptor,
  new_series, evict_entries, evict_front, evict_while, evict_before, evict_over_memory,
  apply_time_window, apply_memory_limit, apply_retention, released_bytes,
}

module _ {Callback : Type 0} where
  -- The bytes that an entry counts against the budget: those of an eager, non-null buffer.
  abbrev pub owned_bytes : Payload Callback → ℕ
  owned_bytes (shared_buffer (some bytes)) = length bytes
  owned_bytes (shared_buffer none) = 0
  owned_bytes (lazy_callback f) = 0

  abbrev pub total_owned : List (ObjectEntry Callback) → ℕ
  total_owned [] = 0
  total_owned (e ∷ es) = owned_bytes e.payload + total_owned es

  abbrev pub stamps : List (ObjectEntry Callback) → List ℤ
  stamps = map (λ e. e.timestamp)

  pub record IsValid (s : ObjectSeries Callback) : Type 0 where
    pub mirrored : s.entry_timestamps ≡ stamps s.entries
    pub sorted : IsSorted s.entry_timestamps
    pub counted : s.memory_bytes ≡ total_owned s.entries % 2 ^ 64

  pub stamps-append :
      (xs ys : List (ObjectEntry Callback)) → stamps (xs ++ ys) ≡ stamps xs ++ stamps ys
  stamps-append [] ys = refl
  stamps-append (x ∷ xs) ys = ap (◌∷◌ x.timestamp) (stamps-append xs ys)

  pub total_owned-append :
      (xs ys : List (ObjectEntry Callback))
      → total_owned (xs ++ ys) ≡ total_owned xs + total_owned ys
  total_owned-append [] ys = omega arith
  total_owned-append (x ∷ xs) ys = omega (arith, total_owned-append xs ys)

  pub new_series-IsValid : (d : ObjectTopicDescriptor) → IsValid (new_series d)
  unfolding new_series
  new_series-IsValid d = record { mirrored = refl; sorted = tt; counted = refl }

  -- Releasing the front entry's bytes undoes its share of the count, also across a wrap.
  released_bytes_lem :
      (p : Payload Callback) (rest memory : ℕ)
      → memory ≡ (owned_bytes p + rest) % 2 ^ 64
      → released_bytes p memory ≡ rest % 2 ^ 64
  unfolding released_bytes
  released_bytes_lem (shared_buffer (some bytes)) rest memory h = omega arith
  released_bytes_lem (shared_buffer none) rest memory h = omega arith
  released_bytes_lem (lazy_callback f) rest memory h = omega arith

  evict_front_nil : (s : ObjectSeries Callback) → s.entries ≡ [] → evict_front s ≡ s
  unfolding evict_front evict_entries
  evict_front_nil s h = ground arith

  -- What one eviction does to a valid series.
  pub evict_front_cons :
      (s : ObjectSeries Callback) (e : ObjectEntry Callback) (es : List (ObjectEntry Callback))
      → s.entries ≡ e ∷ es
      → IsValid s
      → ((evict_front s).entries ≡ es)
        × IsValid (evict_front s)
        × ((evict_front s).budget ≡ s.budget)
        × ((evict_front s).descriptor ≡ s.descriptor)
  unfolding evict_front evict_entries
  evict_front_cons s e es h v =
      ground (arith, released_bytes_lem e.payload (total_owned es) s.memory_bytes)

  pub evict_front-IsValid : (s : ObjectSeries Callback) → IsValid s → IsValid (evict_front s)
  evict_front-IsValid s v = go s.entries refl
    where
      go : (es : List (ObjectEntry Callback)) → s.entries ≡ es → IsValid (evict_front s)
      go [] h = rw (evict_front_nil s h) v
      go (e ∷ es) h = (evict_front_cons s e es h v).1

  pub evict_while-IsValid :
      (fuel : ℕ) (test : ObjectSeries Callback → Bool) (s : ObjectSeries Callback)
      → IsValid s
      → IsValid (evict_while fuel test s)
  unfolding evict_while
  evict_while-IsValid zero test s v = v
  evict_while-IsValid (suc fuel) test s v = elim (Bool-cases (test s)) [
    | inl e ↦
        rw (e, evict_while)
          (evict_while-IsValid fuel test (evict_front s) (evict_front-IsValid s v))
    | inr e ↦ rw (e, evict_while) v
  ]

  pub evict_before-IsValid :
      (threshold : ℤ) (s : ObjectSeries Callback) → IsValid s → IsValid (evict_before threshold s)
  unfolding evict_before
  evict_before-IsValid threshold s v = evict_while-IsValid (length s.entries) _ s v

  apply_time_window-IsValid :
      (t : ℤ) (s : ObjectSeries Callback) → IsValid s → IsValid (apply_time_window t s)
  unfolding apply_time_window
  apply_time_window-IsValid t s v = elim (Bool-cases (ltb_ℤ (pos 0) s.budget.time_window_ns)) [
    | inl e ↦ rw e (evict_before-IsValid _ s v)
    | inr e ↦ rw e v
  ]

  -- Retention keeps the invariant, also where the count of bytes has wrapped.
  pub apply_retention-IsValid :
      (t : ℤ) (s : ObjectSeries Callback) → IsValid s → IsValid (apply_retention t s)
  unfolding apply_retention apply_memory_limit evict_over_memory
  apply_retention-IsValid t s v =
      let w = apply_time_window-IsValid t s v in
      elim (Bool-cases (ltb 0 (apply_time_window t s).budget.max_memory_bytes)) [
        | inl e ↦ rw e (evict_while-IsValid _ _ (apply_time_window t s) w)
        | inr e ↦ rw e w
      ]
