-- ===== src/ObjectStore/Registry.antt =====
-- Registering topics: `registerTopic` against `findTopic`, and the invariant of the topic table.
use Prim.Native.String.{String}
use plotjuggler_core.Prelude.{
  ℕ, ◌≡◌, refl, ◌∙◌, Bool-cases, inl, inr, Option, none, some, [], ◌∷◌, ◌++◌, if◌then◌else◌,
}
use plotjuggler_core.ObjectSeries.{
  ObjectTopicDescriptor, ObjectSeries, topic_already_registered, ok, unexpected, new_series,
}
use plotjuggler_core.ObjectStore.Keys.{OtherKey, same_key_self, same_key-false}
use plotjuggler_core.ObjectStore.{
  Topics, ObjectStore, same_key, find_key, find_topic, register_topic,
}

-- The first answer, or else the second.
abbrev or_else : Option ℕ → Option ℕ → Option ℕ
or_else (some a) b = some a
or_else none b = b

or_else-none : (o : Option ℕ) → or_else o none ≡ o
or_else-none none = refl
or_else-none (some a) = refl

module _ {Callback : Type 0} where
  find_key-snoc :
      (dataset_id : ℕ) (name : String) (ts : Topics Callback) (id : ℕ) (x : ObjectSeries Callback)
      → find_key dataset_id name (ts ++ (id, x) ∷ [])
        ≡ or_else
            (find_key dataset_id name ts)
            (if same_key dataset_id name x.descriptor then some id else none)
  unfolding find_key
  find_key-snoc dataset_id name [] id x = refl
  find_key-snoc dataset_id name ((tid, y) ∷ ts) id x =
      elim (Bool-cases (same_key dataset_id name y.descriptor)) [
        | inl e ↦ rw (e, find_key)
        | inr e ↦ rw (e, find_key) (find_key-snoc dataset_id name ts id x)
      ]

  -- A key that is taken is refused, and the store stays as it was.
  pub register_topic_taken :
      (d : ObjectTopicDescriptor) (s : ObjectStore Callback) (id : ℕ)
      → find_topic d.dataset_id d.topic_name s ≡ some id
      → register_topic d s ≡ (s, unexpected (topic_already_registered d.topic_name))
  unfolding register_topic find_topic
  register_topic_taken d s id h = rw (h, register_topic)

  -- A free key gets the next id, and from then on that key finds it; a key of another dataset or
  -- another name finds what it found before.
  pub find_topic-register_topic :
      (d : ObjectTopicDescriptor) (s : ObjectStore Callback) (dataset_id : ℕ) (name : String)
      → find_topic d.dataset_id d.topic_name s ≡ none
      → OtherKey dataset_id name d
      → ((register_topic d s).1 ≡ ok s.next_id)
        × (find_topic d.dataset_id d.topic_name (register_topic d s).0 ≡ some s.next_id)
        × (find_topic dataset_id name (register_topic d s).0 ≡ find_topic dataset_id name s)
  unfolding register_topic find_topic new_series
  find_topic-register_topic d s dataset_id name h other =
      rw (h, register_topic)
        (
          refl,
          find_key-snoc d.dataset_id d.topic_name s.topics s.next_id _ ∙ rw (h, same_key_self d),
          find_key-snoc dataset_id name s.topics s.next_id _
              ∙ rw (same_key-false dataset_id name d other)
                  (or_else-none (find_key dataset_id name s.topics)),
        )
