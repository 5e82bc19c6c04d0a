-- ===== src/Engine/Tests.antt =====
-- An engine with two topics, and flushes into it.
use plotjuggler_core.Prelude.{
  ℕ, ◌≡◌, refl, inl, inr, false, Bool-cases, List, [], ◌∷◌, ◌==◌, arith, ℤ, pos,
}
use plotjuggler_core.Chunk.{TopicChunk}
use plotjuggler_core.Query.Committed.{IsCommitted, no_chunks, one_chunk}
use plotjuggler_core.TopicStorage.{
  TopicDescriptor, TopicStorage, new_storage, append_chunk, append_sealed_chunk,
}
use plotjuggler_core.TypeRegistry.{find_id, assign_id}
use plotjuggler_core.Engine.{
  DataEngine, no_time_domain, commit_chunk, commit_loop, commit_chunks, insert, sort, unique, ok,
  create_topic, add_topic,
}
use plotjuggler_core.Engine.Flush.{plan_flush, find_destination, execute_plan, flush_to}
use plotjuggler_core.Engine.Ids.{elem, Increasing}
use plotjuggler_core.Engine.Accepted.{offered_to}
use plotjuggler_core.Engine.Commit.{Grows, AllTopicsInOrder, commit_chunks-Grows}

abbrev at_time : ℤ → TopicChunk
at_time t = record {
  id = 0;
  topic_id = 1;
  schema_version = 0;
  stats = record { t_min = t; t_max = t; row_count = 1 };
  timestamps = t ∷ [];
  columns = [];
}

at_time-IsCommitted : (t : ℤ) → IsCommitted (at_time t)
at_time-IsCommitted t = record {
  counted = refl;
  nonempty = omega arith;
  sorted = (tt, tt);
  first = refl;
  last = refl;
}

abbrev speed : TopicDescriptor
speed = record {
  name = "speed";
  schema_id = 0;
  dataset_id = 1;
  max_chunk_rows = 1024;
  array_expansion_limit = 64;
}

abbrev speed_at : ℕ → List TopicChunk → TopicStorage
speed_at id chunks = record (new_storage id speed) { sealed_chunks = chunks }

abbrev engine_with : List (ℕ × TopicStorage) → DataEngine
engine_with topics = record {
  type_registry = record { next_id = 1; schemas = []; name_to_id = [] };
  next_dataset_id = 2;
  next_topic_id = 3;
  next_time_domain_id = 1;
  datasets =
      (
        1,
        record {
          id = 1;
          source_name = "log";
          time_domain = no_time_domain;
          topic_ids = 1 ∷ 2 ∷ [];
        },
      )
      ∷ [];
  topics = topics;
  time_domains = [];
}

abbrev two_topics : List (ℕ × TopicStorage)
two_topics = (1, speed_at 1 (at_time (pos 10) ∷ [])) ∷ (2, speed_at 2 []) ∷ []

abbrev committed : List (ℕ × TopicChunk)
committed =
    (2, at_time (pos 5)) ∷ (1, at_time (pos 20)) ∷ (9, at_time (pos 3)) ∷ (1, at_time (pos 15)) ∷ []

two_topics-InOrder : AllTopicsInOrder two_topics
unfolding find_id
two_topics-InOrder tid = elim (Bool-cases (1 == tid)) [
  | inl e ↦ rw e (one_chunk (at_time (pos 10)) (at_time-IsCommitted (pos 10)))
  | inr e ↦ rw e (elim (Bool-cases (2 == tid)) [ inl f ↦ rw f no_chunks | inr f ↦ rw f tt ])
]

commit_chunks-Grows_example :
    Increasing (commit_chunks committed (engine_with two_topics)).1
    × ((tid : ℕ)
        → Grows
            (offered_to tid committed)
            (find_id tid two_topics)
            (find_id tid (commit_chunks committed (engine_with two_topics)).0.topics)
            false
            (elem tid (commit_chunks committed (engine_with two_topics)).1))
commit_chunks-Grows_example =
    commit_chunks-Grows committed (engine_with two_topics) two_topics-InOrder (
      at_time-IsCommitted (pos 5),
      (
        at_time-IsCommitted (pos 20),
        (at_time-IsCommitted (pos 3), (at_time-IsCommitted (pos 15), tt)),
      ),
    )

both_reported : (commit_chunks committed (engine_with two_topics)).1 ≡ 1 ∷ 2 ∷ []
unfolding commit_chunks commit_loop commit_chunk append_chunk append_sealed_chunk find_id assign_id
    insert sort unique
both_reported = refl

-- A name that the dataset already has is accepted again.
same_name_twice : (create_topic 1 speed (engine_with two_topics)).1 ≡ ok 3
unfolding create_topic add_topic find_id
same_name_twice = refl

-- Two topics of one name pass the check of `flushTo` one by one, and leave their chunks out of
-- order in the one topic they go to.
abbrev same_names : DataEngine
same_names =
    engine_with
      ((1, speed_at 1 (at_time (pos 20) ∷ [])) ∷ (2, speed_at 2 (at_time (pos 5) ∷ [])) ∷ [])

flushed_out_of_order :
    (flush_to same_names (engine_with ((7, speed_at 7 []) ∷ []))).1.topics
    ≡ (7, speed_at 7 (at_time (pos 20) ∷ at_time (pos 5) ∷ [])) ∷ []
unfolding flush_to plan_flush find_destination execute_plan find_id assign_id
flushed_out_of_order = refl
