-- ===== src/ObjectStore/Flush/Plan.antt =====
-- The first phase of a flush: what a plan says, and that its steps are disjoint.
use text.Mathlib.TextEquality.{eq_iff}
use plotjuggler_core.Prelude.{
  ℕ, suc, ◌+◌, ◌≤◌, ◌≡◌, refl, true, false, Bool-cases, Option, ◌⊎◌, inl, inr, none, some, List, [],
  ◌∷◌, arith, All, ℤ, last?,
}
use plotjuggler_core.ObjectSeries.{
  ObjectSeries, ObjectTopicDescriptor, Expected, ok, unexpected, is_stale,
}
use plotjuggler_core.ObjectStore.{Topics}
use plotjuggler_core.ObjectStore.Flush.{
  Step, same_topic, find_destination, plan_step, plan_cons, plan_round, plan_flush, series_at,
}

pub same_topic-eq :
    (a b : ObjectTopicDescriptor)
    → same_topic a b ≡ true
    → (a.dataset_id ≡ b.dataset_id) × (a.topic_name ≡ b.topic_name)
unfolding same_topic
same_topic-eq a b h = ground (arith, eq_iff a.topic_name b.topic_name)

module _ {Callback : Type 0} where
  -- A step for the source series `x`: it is not empty, the destination has its topic, and its first
  -- timestamp is not before the destination's last.
  pub record PlanStep (dst : Topics Callback) (x : ObjectSeries Callback) (i : ℕ) (step : Step)
      : Type 0 where
    pub front : ℤ
    pub rest : List ℤ
    pub nonempty : x.entry_timestamps ≡ front ∷ rest
    pub target : ObjectSeries Callback
    pub matched : find_destination x.descriptor dst 0 ≡ some (step.dst, target)
    pub in_order : is_stale front (last? target.entry_timestamps) ≡ false
    pub source : step.src ≡ i

  -- The plan has one step for each source series that is not empty, in order.
  abbrev pub Planned : Topics Callback → Topics Callback → ℕ → List Step → Type 0
  Planned dst [] i steps = steps ≡ []
  Planned dst ((t, x) ∷ src) i steps =
      ((x.entry_timestamps ≡ []) × Planned dst src (i + 1) steps)
      ⊎ ((step : Step) × (more : List Step) × (steps ≡ step ∷ more)
          × PlanStep dst x i step
          × Planned dst src (i + 1) more)

  abbrev PlannedHead :
      Topics Callback → ObjectSeries Callback → Topics Callback → ℕ → List Step → Type 0
  PlannedHead dst x src i steps =
      ((x.entry_timestamps ≡ []) × Planned dst src (i + 1) steps)
      ⊎ ((step : Step) × (more : List Step) × (steps ≡ step ∷ more)
          × PlanStep dst x i step
          × Planned dst src (i + 1) more)

  plan_step-PlanStep :
      (dst : Topics Callback) (x : ObjectSeries Callback) (front : ℤ) (ts : List ℤ) (i : ℕ)
      (o : Option (ℕ × ObjectSeries Callback)) (step : Step)
      → x.entry_timestamps ≡ front ∷ ts
      → find_destination x.descriptor dst 0 ≡ o
      → plan_step x front i o ≡ ok step
      → PlanStep dst x i step
  unfolding plan_step
  plan_step-PlanStep dst x front ts i none step h f e = absurd (cc)
  plan_step-PlanStep dst x front ts i (some (j, d)) step h f e =
      elim (Bool-cases (is_stale front (last? d.entry_timestamps))) [
        | inl b ↦ absurd (cc (rw b at e))
        | inr b ↦ record {
          front = front;
          rest = ts;
          nonempty = h;
          target = d;
          matched = ground arith;
          in_order = b;
          source = ground arith;
        }
      ]

  plan_round_cases :
      (dst src : Topics Callback) (x : ObjectSeries Callback) (ts : List ℤ) (i : ℕ)
      (r : Expected (List Step)) (steps : List Step)
      → x.entry_timestamps ≡ ts
      → plan_round dst x ts i r ≡ ok steps
      → ((more : List Step) → r ≡ ok more → Planned dst src (i + 1) more)
      → PlannedHead dst x src i steps
  unfolding plan_round
  plan_round_cases dst src x [] i r steps h e p = inl (h, p steps e)
  plan_round_cases dst src x (front ∷ ts) i r steps h e p =
      go (plan_step x front i (find_destination x.descriptor dst 0)) r refl refl e
    where
      go :
          (o : Expected Step) (q : Expected (List Step))
          → plan_step x front i (find_destination x.descriptor dst 0) ≡ o
          → r ≡ q
          → plan_cons o q ≡ ok steps
          → PlannedHead dst x src i steps
      go (unexpected a) q eo eq' ec = absurd (cc)
      go (ok step) (unexpected a) eo eq' ec = absurd (cc)
      go (ok step) (ok more) eo eq' ec = inr (
        step,
        more,
        ground arith,
        plan_step-PlanStep dst x front ts i _ step h refl eo,
        p more eq',
      )

  -- A plan that is made is a plan for every source series.
  pub plan_flush-Planned :
      (dst src : Topics Callback) (i : ℕ) (steps : List Step)
      → plan_flush dst src i ≡ ok steps
      → Planned dst src i steps
  unfolding plan_flush
  plan_flush-Planned dst [] i steps e = ground arith
  plan_flush-Planned dst ((t, x) ∷ src) i steps e =
      plan_round_cases dst src x x.entry_timestamps i _ steps refl e
        (λ more h. plan_flush-Planned dst src (i + 1) more h)

  pub Planned-from :
      (dst src : Topics Callback) (i k : ℕ) (steps : List Step)
      → k ≤ i
      → Planned dst src i steps
      → All (λ step. k ≤ step.src) steps
  Planned-from dst [] i k steps h p = rw p tt
  Planned-from dst ((t, x) ∷ src) i k steps h (inl (e, p)) =
      Planned-from dst src (i + 1) k steps (omega arith) p
  Planned-from dst ((t, x) ∷ src) i k steps h (inr (step, more, e, ps, p)) =
      rw e (omega (arith, ps.source), Planned-from dst src (i + 1) k more (omega arith) p)

  find_destination-same :
      (d : ObjectTopicDescriptor) (ts : Topics Callback) (k j : ℕ) (x : ObjectSeries Callback)
      → find_destination d ts k ≡ some (j, x)
      → (n : ℕ) × (j ≡ k + n) × (series_at ts n ≡ some x) × (same_topic x.descriptor d ≡ true)
  unfolding find_destination
  find_destination-same d [] k j x e = absurd (cc)
  find_destination-same d ((t, y) ∷ ts) k j x e = elim (Bool-cases (same_topic y.descriptor d)) [
    | inl b ↦ let f = rw (b, find_destination) at e in (0, ground arith, ground arith, ground arith)
    | inr b ↦
        let (n, p, q, r) = find_destination-same d ts (k + 1) j x (rw (b, find_destination) at e) in
        (suc n, omega (arith, p), q, r)
  ]

  -- What the plan finds for a topic stands in the table at that position, and has the topic.
  pub find_destination-found :
      (d : ObjectTopicDescriptor) (ts : Topics Callback) (j : ℕ) (x : ObjectSeries Callback)
      → find_destination d ts 0 ≡ some (j, x)
      → (series_at ts j ≡ some x) × (same_topic x.descriptor d ≡ true)
  find_destination-found d ts j x e =
      let (n, p, q, r) = find_destination-same d ts 0 j x e in
      let p' : j ≡ n = omega (arith, p) in (rw p' q, r)
