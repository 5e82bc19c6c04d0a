-- ===== src/Engine/Flush.antt =====
-- `flushTo`: the chunks of an engine's topics go to the topics of the same name in another engine.
use text.Mathlib.Text.{◌==◌ as str_eq}
use plotjuggler_core.Prelude.{
  ℕ, not, ◌&&◌, Option, none, some, List, [], ◌∷◌, ◌++◌, ◌==◌, if◌then◌else◌, ltb_ℤ,
}
use plotjuggler_core.Chunk.{TopicChunk}
use plotjuggler_core.TopicStorage.{TopicDescriptor, TopicStorage, is_empty, time_min, time_max}
use plotjuggler_core.TypeRegistry.{find_id, assign_id}
use plotjuggler_core.Engine.{
  DataEngine, flush_same_engine, flush_no_topic, flush_monotonicity, Expected, ok, unexpected,
}

-- A step of the plan: the ids of a topic with chunks and of the one they go to.
abbrev pub Step : Type 0
Step = ℕ × ℕ

unfoldable pub find_destination :
    TopicDescriptor → List (ℕ × TopicStorage) → Option (ℕ × TopicStorage)
find_destination d [] = none
find_destination d ((id, s) ∷ rest) =
    if s.descriptor.dataset_id == d.dataset_id && str_eq s.descriptor.name d.name
    then some (id, s)
    else find_destination d rest

abbrev add_step : Step → Expected (List Step) → Expected (List Step)
add_step step (ok plan) = ok (step ∷ plan)
add_step step (unexpected e) = unexpected e

unfoldable pub plan_flush : List (ℕ × TopicStorage) → List (ℕ × TopicStorage) → Expected (List Step)
plan_flush [] dst = ok []
plan_flush ((id, s) ∷ src) dst =
    let rest = plan_flush src dst in
    if is_empty s then rest else elim (find_destination s.descriptor dst) [
      | none ↦ unexpected (flush_no_topic s.descriptor.name s.descriptor.dataset_id)
      | some (dst_id, d) ↦
          if not (is_empty d) && ltb_ℤ (time_min s.sealed_chunks) (time_max d.sealed_chunks)
          then unexpected (flush_monotonicity s.descriptor.name)
          else add_step (id, dst_id) rest
    ]

abbrev drain : Option TopicStorage → List TopicChunk
drain none = []
drain (some s) = s.sealed_chunks

abbrev set_chunks :
    ℕ → (List TopicChunk → List TopicChunk) → List (ℕ × TopicStorage) → List (ℕ × TopicStorage)
set_chunks id change topics = elim (find_id id topics) [
  | none ↦ topics
  | some s ↦ assign_id id (record s { sealed_chunks = change s.sealed_chunks }) topics
]

-- The source's topics and the destination's after the plan.
unfoldable pub execute_plan :
    List Step
    → List (ℕ × TopicStorage)
    → List (ℕ × TopicStorage)
    → List (ℕ × TopicStorage) × List (ℕ × TopicStorage)
execute_plan [] src dst = (src, dst)
execute_plan ((src_id, dst_id) ∷ plan) src dst =
    let drained = drain (find_id src_id src) in
    execute_plan plan (set_chunks src_id (λ chunks. []) src)
      (set_chunks dst_id (λ chunks. chunks ++ drained) dst)

-- `flushTo` into an engine that is not the same object.
unfoldable pub flush_to : DataEngine → DataEngine → DataEngine × DataEngine × Expected Unit
flush_to src dst = elim (plan_flush src.topics dst.topics) [
  | unexpected e ↦ (src, dst, unexpected e)
  | ok plan ↦
      let (src_topics, dst_topics) = execute_plan plan src.topics dst.topics in
      (record src { topics = src_topics }, record dst { topics = dst_topics }, ok tt)
]

-- And into itself.
unfoldable pub flush_to_self : DataEngine → DataEngine × Expected Unit
flush_to_self e = (e, unexpected flush_same_engine)
