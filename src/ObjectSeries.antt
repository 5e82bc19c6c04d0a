-- ===== src/ObjectSeries.antt =====
-- One series of the object store: pj_datastore/include/pj_datastore/object_store.hpp and the
-- per-series part of pj_datastore/src/object_store.cpp. Each function is the code that runs under
-- the series' mutex, from the state before it to the state after it.
pub mod Invariant
pub mod Eviction
pub mod Search
pub mod Push
mod Tests
use Prim.Native.String.{String}
use plotjuggler_core.Prelude.{
  ℕ, zero, suc, ◌+◌, ◌-◌, ◌%◌, ◌^◌, ◌≡◌, Bool, true, false, not, ◌&&◌, Option, none, some, List, [],
  ◌∷◌, ◌++◌, length, get_elem?, last?, ltb, leb, ◌==◌, if◌then◌else◌, ℤ, pos, ltb_ℤ, sub_i64,
  upper_bound,
}

-- `Expected<T>` and `Status`: a value or the reason of the failure.
pub data Error : Type 0 where
  topic_already_registered : String → Error
  unknown_topic : Error
  timestamp_not_monotonic : Error
  flush_same_store : Error
  flush_no_topic : String → ℕ → Error
  flush_monotonicity : String → Error

pub data Expected {ℓ} (A : Type ℓ) : Type ℓ where
  ok : A → Expected A
  unexpected : Error → Expected A

abbrev pub Status : Type 0
Status = Expected (Unit {0})

-- `sdk::PayloadView`: bytes and an opaque ownership anchor. An eager entry's anchor is its buffer;
-- the anchor of a lazy entry is whatever its callback returns.
pub record PayloadView (Anchor : Type 0) : Type 0 where
  pub bytes : List ℕ
  pub anchor : Option Anchor

-- `std::variant<SharedBuffer, LazyCallback>`. A `SharedBuffer` may be null. `Callback` is the type
-- of the closures that producers hand over.
pub data Payload (Callback : Type 0) : Type 0 where
  shared_buffer : Option (List ℕ) → Payload Callback
  lazy_callback : Callback → Payload Callback

pub record ObjectEntry (Callback : Type 0) : Type 0 where
  pub timestamp : ℤ
  pub payload : Payload Callback

pub record ObjectTopicDescriptor : Type 0 where
  pub dataset_id : ℕ
  pub topic_name : String
  pub metadata_json : String

pub record RetentionBudget : Type 0 where
  pub time_window_ns : ℤ
  pub max_memory_bytes : ℕ

pub record ObjectSeries (Callback : Type 0) : Type 0 where
  pub descriptor : ObjectTopicDescriptor
  pub entries : List (ObjectEntry Callback)
  pub entry_timestamps : List ℤ
  pub budget : RetentionBudget
  pub memory_bytes : ℕ

abbrev pub default_budget : RetentionBudget
default_budget = record { time_window_ns = pos 0; max_memory_bytes = 0 }

-- `size_t` addition and subtraction.
abbrev pub add_size : ℕ → ℕ → ℕ
add_size a b = (a + b) % 2 ^ 64

abbrev pub sub_size : ℕ → ℕ → ℕ
sub_size a b = (a + 2 ^ 64 - b % 2 ^ 64) % 2 ^ 64

-- `entry_timestamps.erase(begin())`; the invariant rules the empty vector out.
abbrev pub drop_first : List ℤ → List ℤ
drop_first [] = []
drop_first (t ∷ ts) = ts

-- `!entry_timestamps.empty() && timestamp < entry_timestamps.back()`.
unfoldable pub is_stale : ℤ → Option ℤ → Bool
is_stale timestamp none = false
is_stale timestamp (some back) = ltb_ℤ timestamp back

-- `std::upper_bound` and a step back: the index of the last timestamp that is not after the given
-- one, as `latestAt` and `indexAt` look it up.
unfoldable pub position_at : List ℤ → ℤ → Option ℕ
unfolding upper_bound
position_at [] timestamp = none
position_at (t ∷ ts) timestamp =
    let n = upper_bound (t ∷ ts) timestamp in if n == 0 then none else some (n - 1)

-- `timeRange`: the first and the last timestamp, or zeros.
unfoldable pub time_range : List ℤ → ℤ × ℤ
time_range [] = (pos 0, pos 0)
time_range (t ∷ ts) = elim (last? (t ∷ ts)) [ none ↦ (t, t) | some back ↦ (t, back) ]

module _ {Callback : Type 0} where
  -- A freshly made series, as `registerTopic` leaves it.
  unfoldable pub new_series : ObjectTopicDescriptor → ObjectSeries Callback
  new_series d = record {
    descriptor = d;
    entries = [];
    entry_timestamps = [];
    budget = default_budget;
    memory_bytes = 0;
  }

  -- `std::get_if<SharedBuffer>` of a non-null buffer: the bytes that count against the budget.
  unfoldable pub released_bytes : Payload Callback → ℕ → ℕ
  released_bytes (shared_buffer (some bytes)) memory = sub_size memory (length bytes)
  released_bytes (shared_buffer none) memory = memory
  released_bytes (lazy_callback f) memory = memory

  evict_entries : List (ObjectEntry Callback) → ObjectSeries Callback → ObjectSeries Callback
  evict_entries [] s = s
  evict_entries (e ∷ es) s = record s {
    entries = es;
    entry_timestamps = drop_first s.entry_timestamps;
    memory_bytes = released_bytes e.payload s.memory_bytes;
  }

  unfoldable pub evict_front : ObjectSeries Callback → ObjectSeries Callback
  unfolding evict_entries released_bytes
  evict_front s = evict_entries s.entries s

  -- The loop test `!entries.empty() && entry_timestamps.front() < threshold`.
  unfoldable pub front_before : ℤ → List (ObjectEntry Callback) → List ℤ → Bool
  front_before threshold [] ts = false
  front_before threshold (e ∷ es) [] = false
  front_before threshold (e ∷ es) (t ∷ ts) = ltb_ℤ t threshold

  -- The loop test `!entries.empty() && memory_bytes > budget.max_memory_bytes`.
  unfoldable pub over_memory : List (ObjectEntry Callback) → ℕ → ℕ → Bool
  over_memory [] memory limit = false
  over_memory (e ∷ es) memory limit = ltb limit memory

  -- A loop that evicts from the front while a test holds. A round removes one entry, so as many
  -- rounds as there are entries are enough.
  unfoldable pub evict_while :
      ℕ → (ObjectSeries Callback → Bool) → ObjectSeries Callback → ObjectSeries Callback
  evict_while zero test s = s
  evict_while (suc fuel) test s = elim (test s) [
    | true ↦ evict_while fuel test (evict_front s)
    | false ↦ s
  ]

  abbrev pub is_front_before : ℤ → ObjectSeries Callback → Bool
  is_front_before threshold s = front_before threshold s.entries s.entry_timestamps

  abbrev pub is_over_memory : ObjectSeries Callback → Bool
  is_over_memory s = over_memory s.entries s.memory_bytes s.budget.max_memory_bytes

  -- The body of `evictBefore`, and of one round of `evictAllBefore`.
  unfoldable pub evict_before : ℤ → ObjectSeries Callback → ObjectSeries Callback
  evict_before threshold s = evict_while (length s.entries) (is_front_before threshold) s

  unfoldable pub evict_over_memory : ObjectSeries Callback → ObjectSeries Callback
  evict_over_memory s = evict_while (length s.entries) is_over_memory s

  unfoldable pub apply_time_window : ℤ → ObjectSeries Callback → ObjectSeries Callback
  apply_time_window newest_ts s =
      if ltb_ℤ (pos 0) s.budget.time_window_ns
      then evict_before (sub_i64 newest_ts s.budget.time_window_ns) s
      else s

  unfoldable pub apply_memory_limit : ObjectSeries Callback → ObjectSeries Callback
  apply_memory_limit s = if ltb 0 s.budget.max_memory_bytes then evict_over_memory s else s

  unfoldable pub apply_retention : ℤ → ObjectSeries Callback → ObjectSeries Callback
  apply_retention newest_ts s = apply_memory_limit (apply_time_window newest_ts s)

  unfoldable pub append_entry :
      ℤ → Payload Callback → ℕ → ObjectSeries Callback → ObjectSeries Callback
  append_entry timestamp payload size s = record s {
    entries = s.entries ++ record { timestamp = timestamp; payload = payload } ∷ [];
    entry_timestamps = s.entry_timestamps ++ timestamp ∷ [];
    memory_bytes = add_size s.memory_bytes size;
  }

  unfoldable pub push_owned : ℤ → List ℕ → ObjectSeries Callback → ObjectSeries Callback × Status
  unfolding is_stale
  push_owned timestamp payload s =
      if is_stale timestamp (last? s.entry_timestamps)
      then (s, unexpected timestamp_not_monotonic)
      else (
        apply_retention timestamp
            (append_entry timestamp (shared_buffer (some payload)) (length payload) s),
        ok tt,
      )

  -- A lazy entry counts nothing against the memory budget.
  unfoldable pub append_lazy : ℤ → Callback → ObjectSeries Callback → ObjectSeries Callback
  append_lazy timestamp fetch s = record s {
    entries = s.entries ++ record { timestamp = timestamp; payload = lazy_callback fetch } ∷ [];
    entry_timestamps = s.entry_timestamps ++ timestamp ∷ [];
  }

  unfoldable pub push_lazy : ℤ → Callback → ObjectSeries Callback → ObjectSeries Callback × Status
  unfolding is_stale
  push_lazy timestamp fetch s =
      if is_stale timestamp (last? s.entry_timestamps)
      then (s, unexpected timestamp_not_monotonic)
      else (apply_retention timestamp (append_lazy timestamp fetch s), ok tt)

  unfoldable pub index_at : ℤ → ObjectSeries Callback → Option ℕ
  index_at timestamp s = position_at s.entry_timestamps timestamp

  unfoldable pub entry_count : ObjectSeries Callback → ℕ
  entry_count s = length s.entries

-- Reading an entry. `fetch` runs a producer's callback, and `own` makes a buffer its own anchor.
module _ {Callback Anchor : Type 0} (fetch : Callback → PayloadView Anchor)
    (own : List ℕ → Anchor) where
  unfoldable pub resolve_payload : Payload Callback → PayloadView Anchor
  resolve_payload (shared_buffer (some bytes)) = record { bytes = bytes; anchor = some (own bytes) }
  resolve_payload (shared_buffer none) = record { bytes = []; anchor = none }
  resolve_payload (lazy_callback f) = fetch f

  unfoldable pub resolve_entry : ObjectEntry Callback → ℤ × PayloadView Anchor
  unfolding resolve_payload
  resolve_entry e = (e.timestamp, resolve_payload e.payload)

  -- `index` comes from the timestamps, and the entry is read from the deque.
  unfoldable pub resolve_at : Option (ObjectEntry Callback) → Option (ℤ × PayloadView Anchor)
  unfolding resolve_entry
  resolve_at none = none
  resolve_at (some e) = some (resolve_entry e)

  unfoldable pub at : ℕ → ObjectSeries Callback → Option (ℤ × PayloadView Anchor)
  at index s = if leb (length s.entries) index then none else resolve_at (get_elem? s.entries index)

  unfoldable pub latest_at : ℤ → ObjectSeries Callback → Option (ℤ × PayloadView Anchor)
  latest_at timestamp s = elim (position_at s.entry_timestamps timestamp) [
    | none ↦ none
    | some index ↦ resolve_at (get_elem? s.entries index)
  ]
