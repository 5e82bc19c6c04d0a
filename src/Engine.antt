-- ===== src/Engine.antt =====
-- The data engine: pj_datastore/src/engine.cpp. Its hash maps are association lists. A call is one
-- step from the engine before it to the engine after it.
pub mod Ids
pub mod Accepted
pub mod Commit
pub mod Flush
mod Tests
use Prim.Native.String.{String}
use text.Mathlib.Text.{◌==◌ as str_eq}
use plotjuggler_core.Prelude.{
  ℕ, zero, suc, ◌+◌, ◌%◌, ◌^◌, Bool, true, false, not, ◌&&◌, ◌||◌, Option, none, some, List, [],
  ◌∷◌, ◌++◌, last?, ltb, leb, ◌==◌, if◌then◌else◌, ℤ, pos, ltb_ℤ, sub_i64,
}
use plotjuggler_core.Chunk.{TopicChunk}
use plotjuggler_core.TopicStorage.{
  Status, ok_status, overlapping_chunk, TopicDescriptor, TopicStorage, new_storage, append_chunk,
  evict_before, is_empty, time_min, time_max,
}
use plotjuggler_core.TypeTree.{TypeTreeNode}
use plotjuggler_core.TypeRegistry.{TypeRegistry, find_id, emplace_id, assign_id, lookup}

pub record TimeDomain : Type 0 where
  pub id : ℕ
  pub name : String
  pub display_offset : ℤ

pub record DatasetDescriptor : Type 0 where
  pub source_name : String
  pub time_domain_id : ℕ

pub record DatasetInfo : Type 0 where
  pub id : ℕ
  pub source_name : String
  pub time_domain : TimeDomain
  pub topic_ids : List ℕ

pub record DataEngine : Type 0 where
  pub type_registry : TypeRegistry
  pub next_dataset_id : ℕ
  pub next_topic_id : ℕ
  pub next_time_domain_id : ℕ
  pub datasets : List (ℕ × DatasetInfo)
  pub topics : List (ℕ × TopicStorage)
  pub time_domains : List (ℕ × TimeDomain)

pub data EngineError : Type 0 where
  time_domain_not_found : ℕ → EngineError
  dataset_not_found : ℕ → EngineError
  schema_not_found : ℕ → EngineError
  flush_same_engine : EngineError
  flush_no_topic : String → ℕ → EngineError
  flush_monotonicity : String → EngineError

pub data Expected (A : Type 0) : Type 0 where
  ok : A → Expected A
  unexpected : EngineError → Expected A

-- An id is a `uint32_t`.
abbrev next_id : ℕ → ℕ
next_id id = (id + 1) % 2 ^ 32

abbrev pub no_time_domain : TimeDomain
no_time_domain = record { id = 0; name = ""; display_offset = pos 0 }

add_dataset : String → TimeDomain → DataEngine → DataEngine × Expected ℕ
add_dataset source_name domain e = (
  record e {
    next_dataset_id = next_id e.next_dataset_id;
    datasets =
        emplace_id e.next_dataset_id
          (record {
            id = e.next_dataset_id;
            source_name = source_name;
            time_domain = domain;
            topic_ids = [];
          })
          e.datasets;
  },
  ok e.next_dataset_id,
)

-- The id is taken before the time domain is looked up, so that a refused call uses it up.
unfoldable pub create_dataset : DatasetDescriptor → DataEngine → DataEngine × Expected ℕ
unfolding add_dataset
create_dataset d e =
    if d.time_domain_id == 0
    then add_dataset d.source_name no_time_domain e
    else elim (find_id d.time_domain_id e.time_domains) [
      | none ↦ (
        record e { next_dataset_id = next_id e.next_dataset_id },
        unexpected (time_domain_not_found d.time_domain_id),
      )
      | some domain ↦ add_dataset d.source_name domain e
    ]

unfoldable pub get_dataset : ℕ → DataEngine → Option DatasetInfo
get_dataset id e = find_id id e.datasets

unfoldable add_topic : ℕ → DatasetInfo → TopicDescriptor → DataEngine → DataEngine × Expected ℕ
add_topic dataset_id info d e = (
  record e {
    next_topic_id = next_id e.next_topic_id;
    topics =
        emplace_id e.next_topic_id
          (new_storage e.next_topic_id (record d { dataset_id = dataset_id })) e.topics;
    datasets =
        assign_id dataset_id (record info { topic_ids = info.topic_ids ++ e.next_topic_id ∷ [] })
          e.datasets;
  },
  ok e.next_topic_id,
)

abbrev has_schema : Option TypeTreeNode → Bool
has_schema none = false
has_schema (some tree) = true

unfoldable pub create_topic : ℕ → TopicDescriptor → DataEngine → DataEngine × Expected ℕ
unfolding add_topic
create_topic dataset_id d e = elim (find_id dataset_id e.datasets) [
  | none ↦ (e, unexpected (dataset_not_found dataset_id))
  | some info ↦
      if d.schema_id == 0 || has_schema (lookup d.schema_id e.type_registry)
      then add_topic dataset_id info d e
      else (e, unexpected (schema_not_found d.schema_id))
]

unfoldable pub get_topic_storage : ℕ → DataEngine → Option TopicStorage
get_topic_storage id e = find_id id e.topics

unfoldable pub create_time_domain : String → DataEngine → DataEngine × Expected ℕ
create_time_domain name e = (
  record e {
    next_time_domain_id = next_id e.next_time_domain_id;
    time_domains =
        emplace_id e.next_time_domain_id
          (record { id = e.next_time_domain_id; name = name; display_offset = pos 0 })
          e.time_domains;
  },
  ok e.next_time_domain_id,
)

unfoldable pub get_time_domain : ℕ → DataEngine → Option TimeDomain
get_time_domain id e = find_id id e.time_domains

unfoldable pub set_display_offset : ℕ → ℤ → DataEngine → DataEngine
set_display_offset id offset e = elim (find_id id e.time_domains) [
  | none ↦ e
  | some domain ↦ record e {
    time_domains = assign_id id (record domain { display_offset = offset }) e.time_domains;
  }
]

abbrev pub back_is : Option ℕ → ℕ → Bool
back_is none id = false
back_is (some back) id = back == id

-- The topics and the ids of the changed ones, after one chunk.
unfoldable pub commit_chunk :
    ℕ → TopicChunk → List (ℕ × TopicStorage) → List ℕ → List (ℕ × TopicStorage) × List ℕ
commit_chunk topic_id chunk topics changed = elim (find_id topic_id topics) [
  | none ↦ (topics, changed)
  | some storage ↦ elim ((append_chunk chunk storage).1) [
    | overlapping_chunk _ _ ↦ (topics, changed)
    | ok_status ↦ (
      assign_id topic_id (append_chunk chunk storage).0 topics,
      if back_is (last? changed) topic_id then changed else changed ++ topic_id ∷ [],
    )
  ]
]

unfoldable pub commit_loop :
    List (ℕ × TopicChunk) → List (ℕ × TopicStorage) → List ℕ → List (ℕ × TopicStorage) × List ℕ
commit_loop [] topics changed = (topics, changed)
commit_loop ((topic_id, chunk) ∷ chunks) topics changed =
    let (topics', changed') = commit_chunk topic_id chunk topics changed in
    commit_loop chunks topics' changed'

-- `std::sort` and `std::unique` on ids.
unfoldable pub insert : ℕ → List ℕ → List ℕ
insert a [] = a ∷ []
insert a (b ∷ bs) = let rest = insert a bs in if leb a b then a ∷ b ∷ bs else b ∷ rest

unfoldable pub sort : List ℕ → List ℕ
sort [] = []
sort (a ∷ rest) = insert a (sort rest)

unfoldable pub unique : List ℕ → List ℕ
unique [] = []
unique (a ∷ []) = a ∷ []
unique (a ∷ b ∷ bs) = let rest = unique (b ∷ bs) in if a == b then rest else a ∷ rest

unfoldable pub commit_chunks : List (ℕ × TopicChunk) → DataEngine → DataEngine × List ℕ
commit_chunks chunks e =
    let (topics, changed) = commit_loop chunks e.topics [] in
    (record e { topics = topics }, unique (sort changed))

-- A difference of two timestamps that does not fit is undefined behaviour in the source; here it
-- wraps around.
unfoldable pub retain : ℤ → TopicStorage → TopicStorage
retain retention_window_ns s =
    if is_empty s
    then s
    else evict_before (sub_i64 (time_max s.sealed_chunks) retention_window_ns) s

unfoldable pub retain_all : ℤ → List (ℕ × TopicStorage) → List (ℕ × TopicStorage)
retain_all retention_window_ns [] = []
retain_all retention_window_ns ((id, s) ∷ rest) =
    (id, retain retention_window_ns s) ∷ retain_all retention_window_ns rest

unfoldable pub enforce_retention : ℤ → DataEngine → DataEngine
enforce_retention retention_window_ns e = record e {
  topics = retain_all retention_window_ns e.topics;
}

unfoldable pub list_datasets : List (ℕ × DatasetInfo) → List ℕ
list_datasets [] = []
list_datasets ((id, info) ∷ rest) = id ∷ list_datasets rest

abbrev topic_ids_of : Option DatasetInfo → List ℕ
topic_ids_of none = []
topic_ids_of (some info) = info.topic_ids

unfoldable pub list_topics : ℕ → DataEngine → List ℕ
list_topics dataset_id e = topic_ids_of (find_id dataset_id e.datasets)
