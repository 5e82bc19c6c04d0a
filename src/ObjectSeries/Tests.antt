-- ===== src/ObjectSeries/Tests.antt =====
-- Runs of a series on a small example, and the theorems at that example.
use plotjuggler_core.Prelude.{
  ℕ, ◌≡◌, ◌≤◌, refl, [], ◌∷◌, none, some, arith, pos, ◌⊎◌, sub_i64, length,
}
use plotjuggler_core.ObjectSeries.{
  shared_buffer, lazy_callback, PayloadView, ObjectEntry, ObjectSeries, ObjectTopicDescriptor,
  unexpected, timestamp_not_monotonic, push_owned, push_lazy, evict_before, evict_over_memory,
  apply_retention, index_at, latest_at, evict_front, evict_while, front_before, over_memory,
  apply_time_window, apply_memory_limit, append_entry, resolve_entry,
}
use plotjuggler_core.ObjectSeries.Invariant.{IsValid, total_owned}
use plotjuggler_core.ObjectSeries.Eviction.{
  Leaves, since, within, evict_before-Leaves, evict_over_memory-Leaves, retained,
  apply_retention-Leaves,
}
use plotjuggler_core.ObjectSeries.Push.{
  Pushed, entry_of, push_owned-Pushed, push_lazy-Pushed, Pushed-within_cap,
}
use plotjuggler_core.ObjectSeries.Search.{IsLatest, AllAfter, index_at_cases, latest_at_cases}

abbrev camera : ObjectTopicDescriptor
camera = record { dataset_id = 1; topic_name = "camera"; metadata_json = "{}" }

-- Three entries, 3 + 1 eager bytes; at most 3 bytes and 15 ns are to be kept.
abbrev frames : ObjectSeries ℕ
frames = record {
  descriptor = camera;
  entries =
      entry_of (pos 10) (shared_buffer (some (1 ∷ 2 ∷ 3 ∷ [])))
      ∷ entry_of (pos 20) (lazy_callback 5)
      ∷ entry_of (pos 20) (shared_buffer (some (4 ∷ [])))
      ∷ [];
  entry_timestamps = pos 10 ∷ pos 20 ∷ pos 20 ∷ [];
  budget = record { time_window_ns = pos 15; max_memory_bytes = 3 };
  memory_bytes = 4;
}

frames-IsValid : IsValid frames
frames-IsValid = record { mirrored = refl; sorted = omega arith; counted = refl }

-- The new entry brings the threshold to 17 and 3 bytes, so that only the first entry goes.
push_keeps_three :
    (push_owned (pos 32) (7 ∷ 8 ∷ []) frames).0.entry_timestamps ≡ pos 20 ∷ pos 20 ∷ pos 32 ∷ []
unfolding push_owned apply_retention apply_time_window apply_memory_limit evict_before
    evict_over_memory evict_while evict_front front_before over_memory append_entry sub_i64
push_keeps_three = refl

push_back_in_time : (push_owned (pos 19) [] frames).1 ≡ unexpected timestamp_not_monotonic
unfolding push_owned
push_back_in_time = refl

-- An eager payload that is larger than the cap by itself is accepted and dropped at once.
push_oversized : (push_owned (pos 32) (1 ∷ 2 ∷ 3 ∷ 4 ∷ []) frames).0.entries ≡ []
unfolding push_owned apply_retention apply_time_window apply_memory_limit evict_before
    evict_over_memory evict_while evict_front front_before over_memory append_entry sub_i64
push_oversized = refl

evict_before-Leaves_example :
    Leaves frames (evict_before (pos 15) frames) (since (pos 15) frames.entries)
evict_before-Leaves_example = evict_before-Leaves (pos 15) frames frames-IsValid

evict_over_memory-Leaves_example :
    Leaves frames (evict_over_memory frames) (within 3 frames.entries)
evict_over_memory-Leaves_example = evict_over_memory-Leaves frames frames-IsValid (omega arith)

apply_retention-Leaves_example :
    Leaves frames (apply_retention (pos 20) frames) (retained frames.budget (pos 20) frames.entries)
apply_retention-Leaves_example = apply_retention-Leaves (pos 20) frames frames-IsValid (omega arith)

push_owned-Pushed_example :
    Pushed frames
      (entry_of (pos 32) (shared_buffer (some (7 ∷ []))))
      (push_owned (pos 32) (7 ∷ []) frames)
push_owned-Pushed_example = push_owned-Pushed (pos 32) (7 ∷ []) frames frames-IsValid (omega arith)

push_lazy-Pushed_example :
    Pushed frames (entry_of (pos 32) (lazy_callback 9)) (push_lazy (pos 32) 9 frames)
push_lazy-Pushed_example = push_lazy-Pushed (pos 32) 9 frames frames-IsValid (omega arith)

Pushed-within_cap_example : total_owned (push_owned (pos 32) (7 ∷ []) frames).0.entries ≤ 3
Pushed-within_cap_example =
    Pushed-within_cap frames (entry_of (pos 32) (shared_buffer (some (7 ∷ []))))
      (push_owned (pos 32) (7 ∷ []) frames) push_owned-Pushed_example (unfold push_owned in refl)
      (omega arith)

index_at_cases_example :
    ((index_at (pos 25) frames ≡ none) × AllAfter frames.entries (pos 25))
    ⊎ ((i : ℕ) × (e : ObjectEntry ℕ) × (index_at (pos 25) frames ≡ some i)
        × IsLatest frames.entries (pos 25) i e)
index_at_cases_example = index_at_cases (pos 25) frames frames-IsValid

abbrev fetched : ℕ → PayloadView ℕ
fetched n = record { bytes = n ∷ []; anchor = some n }

latest_at_cases_example :
    ((latest_at fetched length (pos 5) frames ≡ none) × AllAfter frames.entries (pos 5))
    ⊎ ((i : ℕ) × (e : ObjectEntry ℕ) × (latest_at fetched length (pos 5) frames
          ≡ some (resolve_entry fetched length e))
        × IsLatest frames.entries (pos 5) i e)
latest_at_cases_example = latest_at_cases fetched length (pos 5) frames frames-IsValid
