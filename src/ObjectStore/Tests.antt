-- ===== src/ObjectStore/Tests.antt =====
-- Runs of a store on a small example, and the theorems at that example.
use mathlib.Core.Option.{some-injective}
use plotjuggler_core.Prelude.{
  ℕ, zero, suc, ◌+◌, ◌<◌, ◌^◌, subst, ap, sym, last?, ◌≡◌, refl, false, List, [], ◌∷◌, some, arith,
  ℤ, pos, ◌≤ℤ◌, ◌∙◌,
}
use plotjuggler_core.ObjectSeries.{
  Error, shared_buffer, ObjectSeries, ObjectTopicDescriptor, default_budget,
  topic_already_registered, ok, unexpected, Status,
}
use plotjuggler_core.ObjectSeries.Invariant.{IsValid, total_owned}
use plotjuggler_core.ObjectSeries.Push.{entry_of}
use plotjuggler_core.ObjectStore.{ObjectStore, find_key, find_topic, register_topic, empty_store}
use plotjuggler_core.ObjectStore.Keys.{str_eq_ne}
use plotjuggler_core.ObjectStore.Registry.{register_topic_taken, find_topic-register_topic}
use plotjuggler_core.ObjectStore.WellFormed.{IsWellFormed}
use plotjuggler_core.ObjectStore.Runs.{
  Action, on, flush, register, push_bytes, evict_all, remove, run, run-empty_store-IsWellFormed,
}
use plotjuggler_core.ObjectStore.Flush.{series_at, flush_to, plan_flush, plan_round, finish_flush}
use plotjuggler_core.ObjectStore.Flush.Admitted.{Admitted, flush_to-Admitted}
use plotjuggler_core.ObjectStore.Flush.Outcome.{
  Flushed, flush_to-Flushed, Blocked, flush_to-Blocked,
}

abbrev camera : ObjectTopicDescriptor
camera = record { dataset_id = 1; topic_name = "camera"; metadata_json = "{}" }

abbrev lidar : ObjectTopicDescriptor
lidar = record { dataset_id = 1; topic_name = "lidar"; metadata_json = "{}" }

abbrev series_of : ObjectTopicDescriptor → ℤ → ObjectSeries ℕ
series_of d t = record {
  descriptor = d;
  entries = entry_of t (shared_buffer (some (1 ∷ 2 ∷ []))) ∷ [];
  entry_timestamps = t ∷ [];
  budget = default_budget;
  memory_bytes = 2;
}

series_of-IsValid : (d : ObjectTopicDescriptor) (t : ℤ) → IsValid (series_of d t)
series_of-IsValid d t = record { mirrored = refl; sorted = (tt, tt); counted = refl }

abbrev recorded : ObjectStore ℕ
recorded = record {
  topics = (1, series_of camera (pos 10)) ∷ (2, series_of lidar (pos 12)) ∷ [];
  next_id = 3;
}

-- The same topics in another order, with an earlier recording.
abbrev archive : ObjectStore ℕ
archive = record {
  topics = (1, series_of lidar (pos 3)) ∷ (2, series_of camera (pos 10)) ∷ [];
  next_id = 3;
}

recorded-IsWellFormed : IsWellFormed recorded
recorded-IsWellFormed = record {
  below = omega arith;
  apart = (((omega arith, λ e n. str_eq_ne _ _ refl n), tt), (tt, tt));
  valid = (series_of-IsValid camera (pos 10), (series_of-IsValid lidar (pos 12), tt));
}

archive-IsWellFormed : IsWellFormed archive
archive-IsWellFormed = record {
  below = omega arith;
  apart = (((omega arith, λ e n. str_eq_ne _ _ refl n), tt), (tt, tt));
  valid = (series_of-IsValid lidar (pos 3), (series_of-IsValid camera (pos 10), tt));
}

register_topic_taken_example :
    register_topic camera recorded ≡ (recorded, unexpected (topic_already_registered "camera"))
register_topic_taken_example =
    register_topic_taken camera recorded 1 (unfold find_topic find_key in refl)

abbrev radar : ObjectTopicDescriptor
radar = record { dataset_id = 2; topic_name = "camera"; metadata_json = "" }

find_topic-register_topic_example :
    ((register_topic radar recorded).1 ≡ ok 3)
    × (find_topic 2 "camera" (register_topic radar recorded).0 ≡ some 3)
    × (find_topic 1 "camera" (register_topic radar recorded).0 ≡ find_topic 1 "camera" recorded)
find_topic-register_topic_example =
    find_topic-register_topic radar recorded 1 "camera" (unfold find_topic find_key in refl)
      (λ e n. omega arith)

abbrev history : List (Action ℕ)
history =
    on 0 (register camera)
    ∷ on 0 (push_bytes 1 (pos 5) (9 ∷ []))
    ∷ on 4 (register lidar)
    ∷ on 4 (register camera)
    ∷ flush 0 4
    ∷ flush 4 4
    ∷ on 4 (evict_all (pos 4))
    ∷ on 0 (remove 1)
    ∷ []

run-empty_store-IsWellFormed_example : IsWellFormed (run (λ i. empty_store) history 4)
run-empty_store-IsWellFormed_example = run-empty_store-IsWellFormed history 4 (omega arith)

flushed : ObjectStore ℕ × ObjectStore ℕ × Status
flushed = flush_to false recorded archive

flushed_ok : flush_to false recorded archive ≡ (flushed.0, flushed.1, ok tt)
unfolding flushed flush_to finish_flush plan_flush plan_round
flushed_ok = refl

archive_fits :
    (j : ℕ) (d : ObjectSeries ℕ)
    → series_at archive.topics j ≡ some d
    → total_owned d.entries + total_owned (series_of lidar (pos 12)).entries < 2 ^ 64
archive_fits zero d e =
    subst (λ (s : ObjectSeries ℕ). total_owned s.entries + 2 < 2 ^ 64) (some-injective _ _ e)
      (omega arith)
archive_fits (suc zero) d e =
    subst (λ (s : ObjectSeries ℕ). total_owned s.entries + 2 < 2 ^ 64) (some-injective _ _ e)
      (omega arith)
archive_fits (suc (suc j)) d e = absurd (cc)

-- The lidar series, second in the source, goes to the first place of the destination.
flush_to-Flushed_example : Flushed archive flushed.0 flushed.1 (series_of lidar (pos 12)) 1
flush_to-Flushed_example =
    flush_to-Flushed recorded archive flushed.0 flushed.1 1 (series_of lidar (pos 12))
      recorded-IsWellFormed archive-IsWellFormed flushed_ok refl archive_fits

-- The camera recording starts before the destination's last frame.
abbrev newer : ObjectStore ℕ
newer = record { topics = (7, series_of camera (pos 11)) ∷ []; next_id = 8 }

end_of_newer :
    (j : ℕ) (d : ObjectSeries ℕ)
    → series_at newer.topics j ≡ some d
    → last? d.entry_timestamps ≡ some (pos 11)
end_of_newer zero d e =
    ap (λ (s : ObjectSeries ℕ). last? s.entry_timestamps) (sym (some-injective _ _ e))
end_of_newer (suc j) d e = absurd (cc)

newer-Blocked : Blocked newer.topics (series_of camera (pos 10)) (pos 10)
newer-Blocked j d e same_dataset same_name = (pos 11, end_of_newer j d e, omega arith)

flush_to-Blocked_example :
    (e : Error) × (flush_to false recorded newer ≡ (recorded, newer, unexpected e))
flush_to-Blocked_example =
    flush_to-Blocked false recorded newer 0 (series_of camera (pos 10)) (pos 10) [] refl refl
      newer-Blocked

-- One frame behind those of `newer`.
abbrev later : ObjectStore ℕ
later = record { topics = (5, series_of camera (pos 12)) ∷ []; next_id = 6 }

camera-Admitted : Admitted newer.topics (series_of camera (pos 12)) (pos 12)
camera-Admitted = (
  (0, series_of camera (pos 11), refl, refl, refl),
  λ j d e dataset name back l.
      subst (λ (t : ℤ). t ≤ℤ pos 12) (some-injective _ _ (sym (end_of_newer j d e) ∙ l))
        (omega arith),
)

later-Admitted :
    (i : ℕ) (x : ObjectSeries ℕ) (front : ℤ) (rest : List ℤ)
    → series_at later.topics i ≡ some x
    → x.entry_timestamps ≡ front ∷ rest
    → Admitted newer.topics x front
later-Admitted zero x front rest e n =
    let same : series_of camera (pos 12) ≡ x = some-injective _ _ e in
    let stamps : pos 12 ∷ [] ≡ front ∷ rest =
      ap (λ (s : ObjectSeries ℕ). s.entry_timestamps) same ∙ n in
    let first : pos 12 ≡ front = ground arith in
    subst (λ (s : ObjectSeries ℕ). Admitted newer.topics s front) same
      (subst (λ (t : ℤ). Admitted newer.topics (series_of camera (pos 12)) t) first camera-Admitted)
later-Admitted (suc i) x front rest e n = absurd (cc)

flush_to-Admitted_example :
    (src' : ObjectStore ℕ) × (dst' : ObjectStore ℕ) × (flush_to false later newer
      ≡ (src', dst', ok tt))
flush_to-Admitted_example = flush_to-Admitted later newer later-Admitted
