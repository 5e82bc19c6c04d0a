-- ===== src/ObjectStore.antt =====
-- The object store: the topic table of pj_datastore/src/object_store.cpp over the series of
-- `ObjectSeries`. A call is one step from the state before it to the state after it: the store
-- mutex and the series mutex make each call atomic, so they leave no trace in the state.
pub mod Keys
pub mod Registry
pub mod WellFormed
pub mod Runs
pub mod Flush
mod Tests
use Prim.Native.String.{String}
use text.Mathlib.Text.{◌==◌ as str_eq}
use plotjuggler_core.Prelude.{
  ℕ, zero, suc, ◌+◌, ◌%◌, ◌^◌, Bool, true, false, ◌&&◌, Option, none, some, List, [], ◌∷◌, ◌++◌,
  map, length, get_elem?, last?, ltb, ◌==◌, if◌then◌else◌, ℤ, pos, ltb_ℤ,
}
use plotjuggler_core.ObjectSeries.{
  Error, topic_already_registered, unknown_topic, flush_same_store, flush_no_topic,
  flush_monotonicity, Expected, ok, unexpected, Status, PayloadView, ObjectTopicDescriptor,
  RetentionBudget, ObjectSeries, default_budget, new_series, push_owned, push_lazy, evict_before,
  apply_retention, index_at, latest_at, at, time_range, entry_count, add_size,
}

abbrev pub Topics : Type 0 → Type 0
Topics Callback = List (ℕ × ObjectSeries Callback)

pub record ObjectStore (Callback : Type 0) : Type 0 where
  pub topics : Topics Callback
  pub next_id : ℕ

-- A topic is known by its dataset and its name.
unfoldable pub same_key : ℕ → String → ObjectTopicDescriptor → Bool
same_key dataset_id topic_name d = dataset_id == d.dataset_id && str_eq d.topic_name topic_name

module _ {Callback : Type 0} where
  unfoldable pub find_key : ℕ → String → Topics Callback → Option ℕ
  unfolding same_key
  find_key dataset_id topic_name [] = none
  find_key dataset_id topic_name ((tid, series) ∷ rest) =
      if same_key dataset_id topic_name series.descriptor
      then some tid
      else find_key dataset_id topic_name rest

  unfoldable pub find_topic : ℕ → String → ObjectStore Callback → Option ℕ
  find_topic dataset_id topic_name s = find_key dataset_id topic_name s.topics

  unfoldable pub find_series : ℕ → Topics Callback → Option (ObjectSeries Callback)
  find_series id [] = none
  find_series id ((tid, series) ∷ rest) = if tid == id then some series else find_series id rest

  -- The loop of `registerTopic` looks for the key; `next_id_` is a `uint32_t`.
  unfoldable pub register_topic :
      ObjectTopicDescriptor → ObjectStore Callback → ObjectStore Callback × Expected ℕ
  register_topic d s = elim (find_key d.dataset_id d.topic_name s.topics) [
    | some tid ↦ (s, unexpected (topic_already_registered d.topic_name))
    | none ↦ (
      record {
        topics = s.topics ++ (s.next_id, new_series d) ∷ [];
        next_id = (s.next_id + 1) % 2 ^ 32;
      },
      ok s.next_id,
    )
  ]

  -- The series that `findSeries` points to, replaced.
  unfoldable pub set_series : ℕ → ObjectSeries Callback → Topics Callback → Topics Callback
  set_series id series [] = []
  set_series id series ((tid, old) ∷ rest) =
      if tid == id then (tid, series) ∷ rest else (tid, old) ∷ set_series id series rest

  -- A write: find the series, change it, and report.
  unfoldable pub write_series :
      ℕ
      → (ObjectSeries Callback → ObjectSeries Callback × Status)
      → ObjectStore Callback
      → ObjectStore Callback × Status
  write_series id change s = elim (find_series id s.topics) [
    | none ↦ (s, unexpected unknown_topic)
    | some series ↦
        let (series', status) = change series in
        (record s { topics = set_series id series' s.topics }, status)
  ]

  unfoldable pub push_owned_to :
      ℕ → ℤ → List ℕ → ObjectStore Callback → ObjectStore Callback × Status
  push_owned_to id timestamp payload = write_series id (push_owned timestamp payload)

  unfoldable pub push_lazy_to :
      ℕ → ℤ → Callback → ObjectStore Callback → ObjectStore Callback × Status
  push_lazy_to id timestamp fetch = write_series id (push_lazy timestamp fetch)

  -- A void write: nothing happens on an unknown topic.
  unfoldable pub update_series :
      ℕ
      → (ObjectSeries Callback → ObjectSeries Callback)
      → ObjectStore Callback
      → ObjectStore Callback
  update_series id change s = elim (find_series id s.topics) [
    | none ↦ s
    | some series ↦ record s { topics = set_series id (change series) s.topics }
  ]

  unfoldable pub set_retention_budget :
      ℕ → RetentionBudget → ObjectStore Callback → ObjectStore Callback
  set_retention_budget id budget = update_series id (λ series. record series { budget = budget })

  unfoldable pub evict_before_in : ℕ → ℤ → ObjectStore Callback → ObjectStore Callback
  evict_before_in id threshold = update_series id (evict_before threshold)

  unfoldable pub evict_all_topics : ℤ → Topics Callback → Topics Callback
  evict_all_topics threshold [] = []
  evict_all_topics threshold ((tid, series) ∷ rest) =
      (tid, evict_before threshold series) ∷ evict_all_topics threshold rest

  unfoldable pub evict_all_before : ℤ → ObjectStore Callback → ObjectStore Callback
  evict_all_before threshold s = record s { topics = evict_all_topics threshold s.topics }

  unfoldable pub erase_topic : ℕ → Topics Callback → Topics Callback
  erase_topic id [] = []
  erase_topic id ((tid, series) ∷ rest) =
      if tid == id then rest else (tid, series) ∷ erase_topic id rest

  unfoldable pub remove_topic : ℕ → ObjectStore Callback → ObjectStore Callback
  remove_topic id s = record s { topics = erase_topic id s.topics }

  unfoldable pub clear : ObjectStore Callback → ObjectStore Callback
  clear s = record { topics = []; next_id = 1 }

  abbrev pub empty_store : ObjectStore Callback
  empty_store = record { topics = []; next_id = 1 }

  unfoldable pub list_topics : Topics Callback → List ℕ
  list_topics [] = []
  list_topics ((tid, series) ∷ rest) = tid ∷ list_topics rest

  unfoldable pub list_topics_of : ℕ → Topics Callback → List ℕ
  list_topics_of dataset_id [] = []
  list_topics_of dataset_id ((tid, series) ∷ rest) =
      if series.descriptor.dataset_id == dataset_id
      then tid ∷ list_topics_of dataset_id rest
      else list_topics_of dataset_id rest

  -- The read accessors, with what each answers for an unknown topic.
  unfoldable pub read_series {ℓ} :
      {A : Type ℓ} → ℕ → A → (ObjectSeries Callback → A) → ObjectStore Callback → A
  read_series id missing read s = elim (find_series id s.topics) [
    | none ↦ missing
    | some series ↦ read series
  ]

  unfoldable pub index_in : ℕ → ℤ → ObjectStore Callback → Option ℕ
  index_in id timestamp = read_series id none (index_at timestamp)

  unfoldable pub entry_count_of : ℕ → ObjectStore Callback → ℕ
  entry_count_of id = read_series id 0 entry_count

  unfoldable pub time_range_of : ℕ → ObjectStore Callback → ℤ × ℤ
  time_range_of id = read_series id (pos 0, pos 0) (λ series. time_range series.entry_timestamps)

  unfoldable pub entry_timestamps_of : ℕ → ObjectStore Callback → List ℤ
  entry_timestamps_of id = read_series id [] (λ series. series.entry_timestamps)

  unfoldable pub retention_budget : ℕ → ObjectStore Callback → RetentionBudget
  retention_budget id = read_series id default_budget (λ series. series.budget)

  unfoldable pub memory_usage : ℕ → ObjectStore Callback → ℕ
  memory_usage id = read_series id 0 (λ series. series.memory_bytes)

  unfoldable pub descriptor_of : ℕ → ObjectStore Callback → ObjectTopicDescriptor
  descriptor_of id =
      read_series id (record { dataset_id = 0; topic_name = ""; metadata_json = "" })
        (λ series. series.descriptor)

module _ {Callback Anchor : Type 0} (fetch : Callback → PayloadView Anchor)
    (own : List ℕ → Anchor) where
  unfoldable pub latest_in : ℕ → ℤ → ObjectStore Callback → Option (ℤ × PayloadView Anchor)
  latest_in id timestamp = read_series id none (latest_at fetch own timestamp)

  unfoldable pub entry_in : ℕ → ℕ → ObjectStore Callback → Option (ℤ × PayloadView Anchor)
  entry_in id index = read_series id none (at fetch own index)
