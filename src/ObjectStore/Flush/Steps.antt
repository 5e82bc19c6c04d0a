-- ===== src/ObjectStore/Flush/Steps.antt =====
-- The steps of a plan are disjoint, and every source series that is not empty has one.
use mathlib.Core.Option.{some-injective}
use plotjuggler_core.Prelude.{
  ℕ, zero, suc, ◌+◌, ◌<◌, ◌≡◌, ◌≢◌, refl, ap, subst, ◌∙◌, sym, true, ◌⊎◌, inl, inr, some, List, [],
  ◌∷◌, arith, All, All-map,
}
use plotjuggler_core.ObjectSeries.{ObjectSeries}
use plotjuggler_core.ObjectStore.{Topics}
use plotjuggler_core.ObjectStore.Keys.{OtherKey}
use plotjuggler_core.ObjectStore.WellFormed.{Apart, Differ, headers}
use plotjuggler_core.ObjectStore.Flush.{Step, same_topic, series_at}
use plotjuggler_core.ObjectStore.Flush.Moves.{In, Disjoint}
use plotjuggler_core.ObjectStore.Flush.Plan.{
  PlanStep, Planned, Planned-from, same_topic-eq, find_destination-found,
}

module _ {Callback : Type 0} where
  -- Two series of one destination have one topic.
  PlanStep-ne :
      (dst : Topics Callback) (x y : ObjectSeries Callback) (i k : ℕ) (a b : Step)
      → OtherKey y.descriptor.dataset_id y.descriptor.topic_name x.descriptor
      → PlanStep dst x i a
      → PlanStep dst y k b
      → a.dst ≢ b.dst
  PlanStep-ne dst x y i k a b h p q e =
      h (ground (arith, sx, sy, same)) (ground (arith, sx, sy, same))
    where
      fx :
          (series_at dst a.dst ≡ some p.target)
          × (same_topic p.target.descriptor x.descriptor ≡ true)
      fx = find_destination-found x.descriptor dst a.dst p.target p.matched

      fy :
          (series_at dst b.dst ≡ some q.target)
          × (same_topic q.target.descriptor y.descriptor ≡ true)
      fy = find_destination-found y.descriptor dst b.dst q.target q.matched

      same : p.target ≡ q.target
      same = some-injective _ _ (sym fx.0 ∙ ap (series_at dst) e ∙ fy.0)

      sx :
          (p.target.descriptor.dataset_id ≡ x.descriptor.dataset_id)
          × (p.target.descriptor.topic_name ≡ x.descriptor.topic_name)
      sx = same_topic-eq _ _ fx.1

      sy :
          (q.target.descriptor.dataset_id ≡ y.descriptor.dataset_id)
          × (q.target.descriptor.topic_name ≡ y.descriptor.topic_name)
      sy = same_topic-eq _ _ fy.1

  Planned-ne :
      (dst src : Topics Callback) (t i k : ℕ) (x : ObjectSeries Callback) (a : Step)
      (steps : List Step)
      → a.src < k
      → All (Differ (t, x.descriptor)) (headers src)
      → PlanStep dst x i a
      → Planned dst src k steps
      → All (Disjoint a) steps
  Planned-ne dst [] t i k x a steps l h p q = rw q tt
  Planned-ne dst ((u, y) ∷ src) t i k x a steps l h p (inl (e, q)) =
      Planned-ne dst src t i (k + 1) x a steps (omega arith) h.1 p q
  Planned-ne dst ((u, y) ∷ src) t i k x a steps l h p (inr (b, more, e, r, q)) = rw e (
    ((λ eq'. omega (arith, r.source, eq')), PlanStep-ne dst x y i k a b h.0.1 p r),
    Planned-ne dst src t i (k + 1) x a more (omega arith) h.1 p q,
  )

  -- No two steps of a plan share a series.
  pub Planned-Apart :
      (dst src : Topics Callback) (i : ℕ) (steps : List Step)
      → Apart Differ (headers src)
      → Planned dst src i steps
      → Apart Disjoint steps
  Planned-Apart dst [] i steps h p = rw p tt
  Planned-Apart dst ((t, x) ∷ src) i steps h (inl (e, p)) =
      Planned-Apart dst src (i + 1) steps h.1 p
  Planned-Apart dst ((t, x) ∷ src) i steps h (inr (a, more, e, p, q)) = rw e (
    Planned-ne dst src t i (i + 1) x a more (omega (arith, p.source)) h.0 p q,
    Planned-Apart dst src (i + 1) more h.1 q,
  )

  -- What the plan says of the series at position `n` of the rest.
  abbrev pub OfSeries : Topics Callback → ObjectSeries Callback → ℕ → List Step → Type 0
  OfSeries dst x i steps =
      ((x.entry_timestamps ≡ []) × All (λ step. i ≢ step.src) steps)
      ⊎ ((step : Step) × In step steps × PlanStep dst x i step)

  OfSeries-cons :
      (dst : Topics Callback) (x : ObjectSeries Callback) (i : ℕ) (a : Step) (steps : List Step)
      → i ≢ a.src
      → OfSeries dst x i steps
      → OfSeries dst x i (a ∷ steps)
  OfSeries-cons dst x i a steps h (inl (e, n)) = inl (e, (h, n))
  OfSeries-cons dst x i a steps h (inr (s, n, p)) = inr (s, inr n, p)

  pub Planned-series :
      (dst src : Topics Callback) (i n m : ℕ) (steps : List Step) (x : ObjectSeries Callback)
      → m ≡ i + n
      → Planned dst src i steps
      → series_at src n ≡ some x
      → OfSeries dst x m steps
  Planned-series dst [] i n m steps x e p h = absurd (cc)
  Planned-series dst ((t, y) ∷ src) i zero m steps x e (inl (b, p)) h = inl (
    ground arith,
    All-map (λ s q. omega (arith, q, e)) steps
        (Planned-from dst src (i + 1) (i + 1) steps (omega arith) p),
  )
  Planned-series dst ((t, y) ∷ src) i zero m steps x e (inr (a, more, b, p, q)) h = rw b (
      inr (
        a,
        inl refl,
        subst (λ z. PlanStep dst z m a) (some-injective y x h)
            (let e' : m ≡ i = omega (arith, e) in rw e' p),
      ))
  Planned-series dst ((t, y) ∷ src) i (suc n) m steps x e (inl (b, p)) h =
      Planned-series dst src (i + 1) n m steps x (omega (arith, e)) p h
  Planned-series dst ((t, y) ∷ src) i (suc n) m steps x e (inr (a, more, b, p, q)) h = rw b (
      OfSeries-cons dst x m a more (λ k. omega (arith, k, e, p.source))
        (Planned-series dst src (i + 1) n m more x (omega (arith, e)) q h))
