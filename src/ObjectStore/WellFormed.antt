-- ===== src/ObjectStore/WellFormed.antt =====
-- The invariant of the topic table, and that each change of the table keeps it.
use mathlib.Core.Option.{some-injective}
use plotjuggler_core.Prelude.{
  ℕ, ◌+◌, ◌^◌, ◌<◌, ◌≡◌, ◌≢◌, refl, ap, ap₂, subst, Bool-cases, inl, inr, none, some, List, [], ◌∷◌,
  ◌++◌, map, arith, All, All-append, All-map, ◌==◌, ℤ, Option-cases,
}
use plotjuggler_core.ObjectSeries.{ObjectTopicDescriptor, ObjectSeries, Status, new_series}
use plotjuggler_core.ObjectSeries.Invariant.{IsValid, new_series-IsValid, evict_before-IsValid}
use plotjuggler_core.ObjectSeries.Push.{evict_before-descriptor}
use plotjuggler_core.ObjectStore.Keys.{OtherKey, same_key-OtherKey}
use plotjuggler_core.ObjectStore.{
  Topics, ObjectStore, same_key, find_key, find_series, set_series, register_topic, write_series,
  update_series, evict_all_topics, erase_topic,
}

-- Every pair of elements, the earlier one first, is related.
abbrev pub Apart {ℓ κ} : {A : Type ℓ} → (A → A → Type κ) → List A → Type κ
Apart R [] = Unit
Apart R (x ∷ xs) = All (R x) xs × Apart R xs

Apart-snoc {ℓ κ} :
    {A : Type ℓ} (R : A → A → Type κ) (xs : List A) (y : A)
    → Apart R xs
    → All (λ x. R x y) xs
    → Apart R (xs ++ y ∷ [])
Apart-snoc R [] y h a = (tt, tt)
Apart-snoc R (x ∷ xs) y h a =
    (All-append (R x) xs (y ∷ []) h.0 (a.0, tt), Apart-snoc R xs y h.1 a.1)

abbrev pub Header : Type 0
Header = ℕ × ObjectTopicDescriptor

abbrev pub Differ : Header → Header → Type 0
Differ x y = (x.0 ≢ y.0) × OtherKey y.1.dataset_id y.1.topic_name x.1

module _ {Callback : Type 0} where
  abbrev pub headers : Topics Callback → List Header
  headers = map (λ p. (p.0, p.1.descriptor))

  -- Ids are below the next one, no two topics share an id or a key, and every series is valid.
  pub record IsWellFormed (s : ObjectStore Callback) : Type 0 where
    pub below : All (λ h. h.0 < s.next_id) (headers s.topics)
    pub apart : Apart Differ (headers s.topics)
    pub valid : All (λ p. IsValid p.1) s.topics

  headers-append : (xs ys : Topics Callback) → headers (xs ++ ys) ≡ headers xs ++ headers ys
  headers-append [] ys = refl
  headers-append ((t, x) ∷ xs) ys = ap (◌∷◌ (t, x.descriptor)) (headers-append xs ys)

  headers-set_series :
      (i : ℕ) (x x' : ObjectSeries Callback) (ts : Topics Callback)
      → find_series i ts ≡ some x
      → x'.descriptor ≡ x.descriptor
      → headers (set_series i x' ts) ≡ headers ts
  unfolding find_series set_series
  headers-set_series i x x' [] h d = refl
  headers-set_series i x x' ((t, y) ∷ ts) h d = ground (arith, headers-set_series i x x' ts)

  set_series-All :
      (i : ℕ) (x' : ObjectSeries Callback) (ts : Topics Callback)
      → IsValid x'
      → All (λ p. IsValid p.1) ts
      → All (λ p. IsValid p.1) (set_series i x' ts)
  unfolding set_series
  set_series-All i x' [] v a = tt
  set_series-All i x' ((t, y) ∷ ts) v a = elim (Bool-cases (t == i)) [
    | inl e ↦ rw (e, set_series) (v, a.1)
    | inr e ↦ rw (e, set_series) (a.0, set_series-All i x' ts v a.1)
  ]

  find_series-IsValid :
      (i : ℕ) (x : ObjectSeries Callback) (ts : Topics Callback)
      → find_series i ts ≡ some x
      → All (λ p. IsValid p.1) ts
      → IsValid x
  unfolding find_series
  find_series-IsValid i x [] h a = absurd (cc)
  find_series-IsValid i x ((t, y) ∷ ts) h a = elim (Bool-cases (t == i)) [
    | inl e ↦ subst IsValid (some-injective y x (rw (e, find_series) at h)) a.0
    | inr e ↦ find_series-IsValid i x ts (rw (e, find_series) at h) a.1
  ]

  -- A change of one series that keeps its descriptor and its invariant.
  set_series-IsWellFormed :
      (i : ℕ) (x x' : ObjectSeries Callback) (s : ObjectStore Callback)
      → IsWellFormed s
      → find_series i s.topics ≡ some x
      → x'.descriptor ≡ x.descriptor
      → IsValid x'
      → IsWellFormed (record s { topics = set_series i x' s.topics })
  set_series-IsWellFormed i x x' s w h d v = record {
    below = rw (headers-set_series i x x' s.topics h d) w.below;
    apart = rw (headers-set_series i x x' s.topics h d) w.apart;
    valid = set_series-All i x' s.topics v w.valid;
  }

  pub write_series-IsWellFormed :
      (i : ℕ) (change : ObjectSeries Callback → ObjectSeries Callback × Status)
      (s : ObjectStore Callback)
      → ((x : ObjectSeries Callback) → IsValid x → IsValid (change x).0)
      → ((x : ObjectSeries Callback) → (change x).0.descriptor ≡ x.descriptor)
      → IsWellFormed s
      → IsWellFormed (write_series i change s).0
  unfolding write_series
  write_series-IsWellFormed i change s v d w = elim (Option-cases (find_series i s.topics)) [
    | inl e ↦ rw (e, write_series) w
    | inr (x, e) ↦
        rw (e, write_series)
          (set_series-IsWellFormed i x _ s w e (d x)
            (v x (find_series-IsValid i x s.topics e w.valid)))
  ]

  pub update_series-IsWellFormed :
      (i : ℕ) (change : ObjectSeries Callback → ObjectSeries Callback) (s : ObjectStore Callback)
      → ((x : ObjectSeries Callback) → IsValid x → IsValid (change x))
      → ((x : ObjectSeries Callback) → (change x).descriptor ≡ x.descriptor)
      → IsWellFormed s
      → IsWellFormed (update_series i change s)
  unfolding update_series
  update_series-IsWellFormed i change s v d w = elim (Option-cases (find_series i s.topics)) [
    | inl e ↦ rw (e, update_series) w
    | inr (x, e) ↦
        rw (e, update_series)
          (set_series-IsWellFormed i x _ s w e (d x)
            (v x (find_series-IsValid i x s.topics e w.valid)))
  ]

  pub headers-evict_all :
      (t : ℤ) (ts : Topics Callback) → headers (evict_all_topics t ts) ≡ headers ts
  unfolding evict_all_topics
  headers-evict_all t [] = refl
  headers-evict_all t ((i, x) ∷ ts) =
      ap₂ ◌∷◌ (ap (λ d. (i, d)) (evict_before-descriptor t x)) (headers-evict_all t ts)

  pub evict_all_topics-All :
      (t : ℤ) (ts : Topics Callback)
      → All (λ p. IsValid p.1) ts
      → All (λ p. IsValid p.1) (evict_all_topics t ts)
  unfolding evict_all_topics
  evict_all_topics-All t [] a = tt
  evict_all_topics-All t ((i, x) ∷ ts) a =
      (evict_before-IsValid t x a.0, evict_all_topics-All t ts a.1)

  pub headers-erase :
      (P : Header → Type 0) (i : ℕ) (ts : Topics Callback)
      → All P (headers ts)
      → All P (headers (erase_topic i ts))
  unfolding erase_topic
  headers-erase P i [] a = tt
  headers-erase P i ((t, x) ∷ ts) a = elim (Bool-cases (t == i)) [
    | inl e ↦ rw (e, erase_topic) a.1
    | inr e ↦ rw (e, erase_topic) (a.0, headers-erase P i ts a.1)
  ]

  pub erase_topic-Apart :
      (i : ℕ) (ts : Topics Callback)
      → Apart Differ (headers ts)
      → Apart Differ (headers (erase_topic i ts))
  unfolding erase_topic
  erase_topic-Apart i [] a = tt
  erase_topic-Apart i ((t, x) ∷ ts) a = elim (Bool-cases (t == i)) [
    | inl e ↦ rw (e, erase_topic) a.1
    | inr e ↦ rw (e, erase_topic) (headers-erase _ i ts a.0, erase_topic-Apart i ts a.1)
  ]

  pub erase_topic-All :
      (i : ℕ) (ts : Topics Callback)
      → All (λ p. IsValid p.1) ts
      → All (λ p. IsValid p.1) (erase_topic i ts)
  unfolding erase_topic
  erase_topic-All i [] a = tt
  erase_topic-All i ((t, x) ∷ ts) a = elim (Bool-cases (t == i)) [
    | inl e ↦ rw (e, erase_topic) a.1
    | inr e ↦ rw (e, erase_topic) (a.0, erase_topic-All i ts a.1)
  ]

  find_key-none :
      (n : ℕ) (d : ObjectTopicDescriptor) (ts : Topics Callback)
      → find_key d.dataset_id d.topic_name ts ≡ none
      → All (λ h. h.0 < n) (headers ts)
      → All (λ h. Differ h (n, d)) (headers ts)
  unfolding find_key
  find_key-none n d [] e b = tt
  find_key-none n d ((t, x) ∷ ts) e b =
      elim (Bool-cases (same_key d.dataset_id d.topic_name x.descriptor)) [
        | inl k ↦ absurd (cc (rw (k, find_key) at e))
        | inr k ↦ (
          (omega arith, same_key-OtherKey d.dataset_id d.topic_name x.descriptor k),
          find_key-none n d ts (rw (k, find_key) at e) b.1,
        )
      ]

  pub register-IsWellFormed :
      (d : ObjectTopicDescriptor) (s : ObjectStore Callback)
      → s.next_id + 1 < 2 ^ 32
      → IsWellFormed s
      → IsWellFormed (register_topic d s).0
  unfolding register_topic new_series
  register-IsWellFormed d s fits w =
      elim (Option-cases (find_key d.dataset_id d.topic_name s.topics)) [
        | inr (i, e) ↦ rw (e, register_topic) w
        | inl e ↦
            rw (e, register_topic)
              (record {
                below = rw headers-append (
                    All-append _ (headers s.topics) _ (All-map (λ h p. omega arith) _ w.below)
                      (omega arith, tt));
                apart = rw headers-append (
                    Apart-snoc Differ (headers s.topics) _ w.apart
                      (find_key-none s.next_id d s.topics e w.below));
                valid = All-append _ s.topics _ w.valid (new_series-IsValid d, tt);
              })
      ]
