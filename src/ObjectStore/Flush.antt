-- ===== src/ObjectStore/Flush.antt =====
-- `ObjectStore::flushTo` of pj_datastore/src/object_store.cpp: the plan over both topic tables, and
-- the moves that carry it out. The pointers of a step are positions in the two tables.
pub mod Moves
pub mod Plan
pub mod Steps
pub mod Outcome
pub mod Kept
pub mod Admitted
use text.Mathlib.Text.{◌==◌ as str_eq}
use plotjuggler_core.Prelude.{
  ℕ, zero, suc, ◌+◌, Bool, true, false, ◌&&◌, Option, none, some, List, [], ◌∷◌, ◌++◌, get_elem?,
  set, last?, ◌==◌, if◌then◌else◌, ℤ, pos, ltb_ℤ,
}
use plotjuggler_core.ObjectSeries.{
  flush_same_store, flush_no_topic, flush_monotonicity, Error, Expected, ok, unexpected, Status,
  ObjectTopicDescriptor, ObjectSeries, apply_retention, add_size, is_stale,
}
use plotjuggler_core.ObjectStore.{Topics, ObjectStore}

-- The two tests of the matching loop.
unfoldable pub same_topic : ObjectTopicDescriptor → ObjectTopicDescriptor → Bool
same_topic dst src = dst.dataset_id == src.dataset_id && str_eq dst.topic_name src.topic_name

-- `struct Step`.
pub record Step : Type 0 where
  pub src : ℕ
  pub dst : ℕ

-- `return unexpected(...)` leaves the loop at the first failure.
abbrev pub plan_cons : Expected Step → Expected (List Step) → Expected (List Step)
plan_cons (unexpected e) rest = unexpected e
plan_cons (ok step) (unexpected e) = unexpected e
plan_cons (ok step) (ok steps) = ok (step ∷ steps)

-- `dst.entry_timestamps.empty() ? 0 : dst.entry_timestamps.back()`.
abbrev pub newest_of : Option ℤ → ℤ
newest_of none = pos 0
newest_of (some back) = back

module _ {Callback : Type 0} where
  -- The first destination topic with the source's key, and its position from `k` on.
  unfoldable pub find_destination :
      ObjectTopicDescriptor → Topics Callback → ℕ → Option (ℕ × ObjectSeries Callback)
  unfolding same_topic
  find_destination d [] k = none
  find_destination d ((tid, series) ∷ rest) k =
      if same_topic series.descriptor d then some (k, series) else find_destination d rest (k + 1)

  -- What the first phase says of one source series that is not empty.
  unfoldable pub plan_step :
      ObjectSeries Callback → ℤ → ℕ → Option (ℕ × ObjectSeries Callback) → Expected Step
  unfolding is_stale
  plan_step src front i none =
      unexpected (flush_no_topic src.descriptor.topic_name src.descriptor.dataset_id)
  plan_step src front i (some (j, dst)) =
      if is_stale front (last? dst.entry_timestamps)
      then unexpected (flush_monotonicity src.descriptor.topic_name)
      else ok (record { src = i; dst = j })

  -- One round for the source series at position `i`: an empty one is passed over.
  unfoldable pub plan_round :
      Topics Callback
      → ObjectSeries Callback
      → List ℤ
      → ℕ
      → Expected (List Step)
      → Expected (List Step)
  unfolding plan_step find_destination
  plan_round dst series [] i rest = rest
  plan_round dst series (front ∷ ts) i rest =
      plan_cons (plan_step series front i (find_destination series.descriptor dst 0)) rest

  unfoldable pub plan_flush : Topics Callback → Topics Callback → ℕ → Expected (List Step)
  plan_flush dst [] i = ok []
  plan_flush dst ((tid, series) ∷ rest) i =
      plan_round dst series series.entry_timestamps i (plan_flush dst rest (i + 1))

  unfoldable pub joined : ObjectSeries Callback → ObjectSeries Callback → ObjectSeries Callback
  joined src dst = record dst {
    entries = dst.entries ++ src.entries;
    entry_timestamps = dst.entry_timestamps ++ src.entry_timestamps;
    memory_bytes = add_size dst.memory_bytes src.memory_bytes;
  }

  unfoldable pub received : ObjectSeries Callback → ObjectSeries Callback → ObjectSeries Callback
  unfolding joined
  received src dst =
      let j = joined src dst in apply_retention (newest_of (last? j.entry_timestamps)) j

  unfoldable pub emptied : ObjectSeries Callback → ObjectSeries Callback
  emptied src = record src { entries = []; entry_timestamps = []; memory_bytes = 0 }

  abbrev pub put_at : Topics Callback → ℕ → ObjectSeries Callback → Topics Callback
  put_at [] i x = []
  put_at ((tid, y) ∷ ts) zero x = (tid, x) ∷ ts
  put_at ((tid, y) ∷ ts) (suc i) x = (tid, y) ∷ put_at ts i x

  abbrev pub series_at : Topics Callback → ℕ → Option (ObjectSeries Callback)
  series_at [] i = none
  series_at ((tid, y) ∷ ts) zero = some y
  series_at ((tid, y) ∷ ts) (suc i) = series_at ts i

  -- The second phase, one step: a pointer of the plan points into its table.
  unfoldable pub move_at :
      Step
      → Option (ObjectSeries Callback)
      → Option (ObjectSeries Callback)
      → Topics Callback × Topics Callback
      → Topics Callback × Topics Callback
  move_at step none d tables = tables
  move_at step (some s) none tables = tables
  move_at step (some s) (some d) (src, dst) =
      (put_at src step.src (emptied s), put_at dst step.dst (received s d))

  unfoldable pub move_all :
      List Step → Topics Callback × Topics Callback → Topics Callback × Topics Callback
  unfolding move_at
  move_all [] tables = tables
  move_all (step ∷ steps) (src, dst) =
      move_all steps (move_at step (series_at src step.src) (series_at dst step.dst) (src, dst))

  unfoldable pub finish_flush :
      ObjectStore Callback
      → ObjectStore Callback
      → Expected (List Step)
      → ObjectStore Callback × ObjectStore Callback × Status
  finish_flush src dst (unexpected e) = (src, dst, unexpected e)
  finish_flush src dst (ok plan) =
      let (ss, ds) = move_all plan (src.topics, dst.topics) in
      (record src { topics = ss }, record dst { topics = ds }, ok tt)

  -- `flushTo` between two stores, of which `same` says that they are one object.
  unfoldable pub flush_to :
      Bool
      → ObjectStore Callback
      → ObjectStore Callback
      → ObjectStore Callback × ObjectStore Callback × Status
  flush_to same src dst =
      if same
      then (src, dst, unexpected flush_same_store)
      else finish_flush src dst (plan_flush dst.topics src.topics 0)
