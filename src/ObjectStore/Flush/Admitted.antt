-- ===== src/ObjectStore/Flush/Admitted.antt =====
-- When a flush succeeds: each source series with entries has a place to go.
use text.Mathlib.TextEquality.{eq_iff}
use plotjuggler_core.Prelude.{
  ℕ, zero, suc, ◌+◌, ◌≡◌, refl, sym, subst, true, false, Bool-cases, inl, inr, Option, none, some,
  List, [], ◌∷◌, arith, ℤ, ◌≤ℤ◌, last?,
}
use mathlib.Core.Option.{some-injective}
use plotjuggler_core.ObjectSeries.{ObjectTopicDescriptor, ObjectSeries, ok, is_stale}
use plotjuggler_core.ObjectStore.{Topics, ObjectStore}
use plotjuggler_core.ObjectStore.Flush.{
  Step, same_topic, find_destination, plan_step, plan_round, plan_flush, series_at, move_all,
  finish_flush, flush_to,
}
use plotjuggler_core.ObjectStore.Flush.Plan.{same_topic-eq, find_destination-found}

same_topic-of_eq :
    (a b : ObjectTopicDescriptor)
    → a.dataset_id ≡ b.dataset_id
    → a.topic_name ≡ b.topic_name
    → same_topic a b ≡ true
unfolding same_topic
same_topic-of_eq a b h k = ground (arith, eq_iff a.topic_name b.topic_name)

not_stale :
    (front : ℤ) (o : Option ℤ)
    → ((back : ℤ) → o ≡ some back → back ≤ℤ front)
    → is_stale front o ≡ false
unfolding is_stale
not_stale front none h = refl
not_stale front (some back) h = let le = h back refl in ground arith

module _ {Callback : Type 0} where
  -- A series that starts at `front` and has the topic of `x` can go to `dst`: a series of that topic
  -- is there, and every one ends at `front` or before, or holds nothing.
  abbrev pub Admitted : Topics Callback → ObjectSeries Callback → ℤ → Type 0
  Admitted dst x front =
      ((j : ℕ) × (d : ObjectSeries Callback) × (series_at dst j ≡ some d)
        × (d.descriptor.dataset_id ≡ x.descriptor.dataset_id)
        × (d.descriptor.topic_name ≡ x.descriptor.topic_name))
      × ((j : ℕ) (d : ObjectSeries Callback)
          → series_at dst j ≡ some d
          → d.descriptor.dataset_id ≡ x.descriptor.dataset_id
          → d.descriptor.topic_name ≡ x.descriptor.topic_name
          → (back : ℤ) → last? d.entry_timestamps ≡ some back
          → back ≤ℤ front)

  -- A series of the topic that stands in the table is found, or one before it is.
  find_destination-some :
      (t : ObjectTopicDescriptor) (ts : Topics Callback) (k j : ℕ) (d : ObjectSeries Callback)
      → series_at ts j ≡ some d
      → same_topic d.descriptor t ≡ true
      → (n : ℕ) × (y : ObjectSeries Callback) × (find_destination t ts k ≡ some (n, y))
  unfolding find_destination
  find_destination-some t [] k j d h e = absurd (cc)
  find_destination-some t ((i, y) ∷ ts) k zero d h e =
      let same : d ≡ y = sym (some-injective y d h) in
      let found : same_topic y.descriptor t ≡ true =
        subst (λ (s : ObjectSeries Callback). same_topic s.descriptor t ≡ true) same e in
      (k, y, rw found)
  find_destination-some t ((i, y) ∷ ts) k (suc j) d h e =
      elim (Bool-cases (same_topic y.descriptor t)) [
        | inl b ↦ (k, y, rw b)
        | inr b ↦
            let (n, z, f) = find_destination-some t ts (k + 1) j d h e in
            (n, z, rw (b, find_destination) f)
      ]

  plan_step-Admitted :
      (dst : Topics Callback) (x : ObjectSeries Callback) (front : ℤ) (i : ℕ)
      → Admitted dst x front
      → (step : Step) × (plan_step x front i (find_destination x.descriptor dst 0) ≡ ok step)
  unfolding plan_step
  plan_step-Admitted dst x front i ((j, d, at_j, dataset, name), ends) =
      let t = x.descriptor in
      let (n, y, f) =
        find_destination-some t dst 0 j d at_j (same_topic-of_eq d.descriptor t dataset name) in
      let (at_n, matched) = find_destination-found t dst n y f in
      let same = same_topic-eq y.descriptor t matched in
      let fresh = not_stale front (last? y.entry_timestamps) (ends n y at_n same.0 same.1) in
      (record { src = i; dst = n }, rw (f, fresh))

  plan_flush-Admitted :
      (dst src : Topics Callback) (k : ℕ)
      → ((i : ℕ) (x : ObjectSeries Callback) (front : ℤ) (rest : List ℤ)
          → series_at src i ≡ some x
          → x.entry_timestamps ≡ front ∷ rest
          → Admitted dst x front)
      → (steps : List Step) × (plan_flush dst src k ≡ ok steps)
  unfolding plan_flush plan_round
  plan_flush-Admitted dst [] k h = ([], refl)
  plan_flush-Admitted dst ((t, x) ∷ src) k h =
      round x.entry_timestamps refl
        (plan_flush-Admitted dst src (k + 1) (λ i y front ts a n. h (suc i) y front ts a n))
    where
      round :
          (ts : List ℤ)
          → x.entry_timestamps ≡ ts
          → (steps : List Step) × (plan_flush dst src (k + 1) ≡ ok steps)
          → (steps : List Step) × (plan_round dst x ts k (plan_flush dst src (k + 1)) ≡ ok steps)
      round [] e more = more
      round (front ∷ ts) e (steps, q) =
          let (step, p) = plan_step-Admitted dst x front k (h 0 x front ts refl e) in
          (step ∷ steps, rw (p, q))

  -- Between two stores, where each source series with entries has a destination series of its
  -- dataset and name, and no such series there ends after the first of these entries, the flush
  -- succeeds.
  pub flush_to-Admitted :
      (src dst : ObjectStore Callback)
      → ((i : ℕ) (x : ObjectSeries Callback) (front : ℤ) (rest : List ℤ)
          → series_at src.topics i ≡ some x
          → x.entry_timestamps ≡ front ∷ rest
          → Admitted dst.topics x front)
      → (src' : ObjectStore Callback) × (dst' : ObjectStore Callback) × (flush_to false src dst
          ≡ (src', dst', ok tt))
  unfolding flush_to finish_flush
  flush_to-Admitted src dst h =
      let (steps, p) = plan_flush-Admitted dst.topics src.topics 0 h in
      let tables = move_all steps (src.topics, dst.topics) in
      (record src { topics = tables.0 }, record dst { topics = tables.1 }, rw p)
