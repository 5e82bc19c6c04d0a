-- ===== src/ObjectStore/Flush/Outcome.antt =====
-- What a flush leaves in the two stores.
use mathlib.Core.Option.{some-injective}
use plotjuggler_core.Prelude.{
  ℕ, zero, suc, ◌+◌, ◌<◌, ◌^◌, ◌++◌, ◌≡◌, refl, ap, subst, ◌∙◌, sym, Bool, true, false, Option, ◌⊎◌,
  inl, inr, none, some, List, [], ◌∷◌, arith, All, All-map, ℤ, ◌≤ℤ◌, ◌<ℤ◌, ltb_ℤ, last?, IsSorted,
  IsSorted-append,
}
use plotjuggler_core.ObjectSeries.{
  ObjectSeries, Expected, ok, unexpected, is_stale, Error, flush_no_topic, flush_monotonicity,
  flush_same_store,
}
use plotjuggler_core.ObjectSeries.Invariant.{
  IsValid, total_owned, total_owned-append, stamps-append,
}
use plotjuggler_core.ObjectSeries.Eviction.{Leaves, retained, apply_retention-Leaves}
use plotjuggler_core.ObjectStore.{Topics, ObjectStore}
use plotjuggler_core.ObjectStore.WellFormed.{Apart, IsWellFormed}
use plotjuggler_core.ObjectStore.Flush.{
  Step, same_topic, find_destination, plan_flush, plan_step, plan_cons, plan_round, series_at,
  newest_of, joined, received, emptied, move_all, finish_flush, flush_to,
}
use plotjuggler_core.ObjectStore.Flush.Moves.{Disjoint, move_all-Moved, move_all_src_other}
use plotjuggler_core.ObjectStore.Flush.Plan.{
  plan_flush-Planned, find_destination-found, same_topic-eq,
}
use plotjuggler_core.ObjectStore.Flush.Steps.{Planned-Apart, Planned-series, OfSeries}

front-le :
    (f back : ℤ) (ts : List ℤ) → back ≤ℤ f → All (λ y. f ≤ℤ y) ts → All (λ y. back ≤ℤ y) (f ∷ ts)
front-le f back ts h a = (h, All-map (λ y q. omega arith) ts a)

plan_cons-unexpected :
    (o : Expected Step) (e : Error) → (e' : Error) × (plan_cons o (unexpected e) ≡ unexpected e')
plan_cons-unexpected (unexpected a) e = (a, refl)
plan_cons-unexpected (ok step) e = (e, refl)

module _ {Callback : Type 0} where
  -- A destination that takes the entries of a series in time order is valid.
  pub joined-IsValid :
      (src dst : ObjectSeries Callback) (front : ℤ) (rest : List ℤ)
      → src.entry_timestamps ≡ front ∷ rest
      → is_stale front (last? dst.entry_timestamps) ≡ false
      → IsValid src
      → IsValid dst
      → IsValid (joined src dst)
  unfolding joined is_stale
  joined-IsValid src dst front rest e h v w = record {
    mirrored = rw (v.mirrored, w.mirrored) (sym (stamps-append dst.entries src.entries));
    sorted = IsSorted-append dst.entry_timestamps src.entry_timestamps w.sorted v.sorted after;
    counted = omega (arith, v.counted, w.counted, total_owned-append dst.entries src.entries);
  }
    where
      sorted' : IsSorted (front ∷ rest)
      sorted' = rw e at v.sorted

      after : (x : ℤ) → last? dst.entry_timestamps ≡ some x → All (λ y. x ≤ℤ y) src.entry_timestamps
      after x l = rw e (front-le front x rest (ground arith) sorted'.0)

  pub series_at-IsValid :
      (ts : Topics Callback) (i : ℕ) (x : ObjectSeries Callback)
      → All (λ p. IsValid p.1) ts
      → series_at ts i ≡ some x
      → IsValid x
  series_at-IsValid [] i x a h = absurd (cc)
  series_at-IsValid ((t, y) ∷ ts) zero x a h = subst IsValid (some-injective y x h) a.0
  series_at-IsValid ((t, y) ∷ ts) (suc i) x a h = series_at-IsValid ts i x a.1 h

  -- The series `x'` is `x` without its entries.
  pub record IsEmptied (x x' : ObjectSeries Callback) : Type 0 where
    pub no_entries : x'.entries ≡ []
    pub no_timestamps : x'.entry_timestamps ≡ []
    pub no_bytes : x'.memory_bytes ≡ 0
    pub same_budget : x'.budget ≡ x.budget
    pub same_descriptor : x'.descriptor ≡ x.descriptor

  -- The series `d'` is `d` with the entries of `x` behind its own, as far as its budget keeps them
  -- at the newest time.
  abbrev pub Received : (x d d' : ObjectSeries Callback) → Type 0
  Received x d d' = Leaves d d' (
      retained d.budget (newest_of (last? (d.entry_timestamps ++ x.entry_timestamps)))
        (d.entries ++ x.entries))

  emptied-IsEmptied : (x : ObjectSeries Callback) → IsEmptied x (emptied x)
  unfolding emptied
  emptied-IsEmptied x = record {
    no_entries = refl;
    no_timestamps = refl;
    no_bytes = refl;
    same_budget = refl;
    same_descriptor = refl;
  }

  received-Received :
      (x d : ObjectSeries Callback)
      → IsValid (joined x d)
      → total_owned d.entries + total_owned x.entries < 2 ^ 64
      → Received x d (received x d)
  unfolding received joined
  received-Received x d v fits =
      let l =
        apply_retention-Leaves (newest_of (last? (d.entry_timestamps ++ x.entry_timestamps)))
          (joined x d) v (omega (arith, total_owned-append d.entries x.entries)) in
      record {
        valid = l.valid;
        kept = l.kept;
        same_budget = l.same_budget;
        same_descriptor = l.same_descriptor;
      }

  -- What becomes of the source series `x` at position `i`.
  abbrev pub Flushed :
      ObjectStore Callback
      → ObjectStore Callback
      → ObjectStore Callback
      → ObjectSeries Callback
      → ℕ
      → Type 0
  Flushed dst src' dst' x i =
      ((x.entry_timestamps ≡ []) × (series_at src'.topics i ≡ some x))
      ⊎ ((j : ℕ) × (d : ObjectSeries Callback) × (series_at dst.topics j ≡ some d)
          × (same_topic d.descriptor x.descriptor ≡ true)
          × (x' : ObjectSeries Callback) × (d' : ObjectSeries Callback) × (series_at src'.topics i
              ≡ some x')
          × (series_at dst'.topics j ≡ some d')
          × IsEmptied x x'
          × Received x d d')

  plan-Flushed :
      (src dst : Topics Callback) (steps : List Step) (x : ObjectSeries Callback) (i : ℕ)
      → Apart Disjoint steps
      → All (λ p. IsValid p.1) src
      → All (λ p. IsValid p.1) dst
      → series_at src i ≡ some x
      → OfSeries dst x i steps
      → ((j : ℕ) (d : ObjectSeries Callback)
          → series_at dst j ≡ some d
          → total_owned d.entries + total_owned x.entries < 2 ^ 64)
      → let t = move_all steps (src, dst) in
        ((x.entry_timestamps ≡ []) × (series_at t.0 i ≡ some x))
        ⊎ ((j : ℕ) × (d : ObjectSeries Callback) × (series_at dst j ≡ some d)
            × (same_topic d.descriptor x.descriptor ≡ true)
            × (x' : ObjectSeries Callback) × (d' : ObjectSeries Callback) × (series_at t.0 i
                ≡ some x')
            × (series_at t.1 j ≡ some d')
            × IsEmptied x x'
            × Received x d d')
  plan-Flushed src dst steps x i a vs vd h (inl (e, n)) fits =
      inl (e, move_all_src_other steps src dst i n ∙ h)
  plan-Flushed src dst steps x i a vs vd h (inr (s, n, p)) fits =
      let f = find_destination-found x.descriptor dst s.dst p.target p.matched in
      let m = move_all-Moved steps src dst s x p.target a n (rw p.source h) f.0 in
      inr (
        s.dst,
        p.target,
        f.0,
        f.1,
        emptied x,
        received x p.target,
        rw p.source at m.0,
        m.1,
        emptied-IsEmptied x,
        received-Received x p.target
            (joined-IsValid x p.target p.front p.rest p.nonempty p.in_order
              (series_at-IsValid src i x vs h) (series_at-IsValid dst s.dst p.target vd f.0))
            (fits s.dst p.target f.0),
      )

  flush_to_ok :
      (src dst src' dst' : ObjectStore Callback)
      → flush_to false src dst ≡ (src', dst', ok tt)
      → (steps : List Step) × (plan_flush dst.topics src.topics 0 ≡ ok steps)
        × (src'.topics ≡ (move_all steps (src.topics, dst.topics)).0)
        × (dst'.topics ≡ (move_all steps (src.topics, dst.topics)).1)
  unfolding flush_to finish_flush
  flush_to_ok src dst src' dst' e = go (plan_flush dst.topics src.topics 0) refl e
    where
      go :
          (r : Expected (List Step))
          → plan_flush dst.topics src.topics 0 ≡ r
          → finish_flush src dst r ≡ (src', dst', ok tt)
          → (steps : List Step) × (plan_flush dst.topics src.topics 0 ≡ ok steps)
            × (src'.topics ≡ (move_all steps (src.topics, dst.topics)).0)
            × (dst'.topics ≡ (move_all steps (src.topics, dst.topics)).1)
      go (unexpected err) p q = absurd (cc)
      go (ok steps) p q = (steps, p, ground arith, ground arith)

  -- Between well formed stores, where the eager bytes of a source series and of any destination
  -- series fit a `size_t`, a flush that succeeds leaves that source series without entries, and its
  -- entries behind those of a destination series of its topic, as far as the budget there keeps
  -- them, in a valid series; a source series that holds no entries is left as it was.
  pub flush_to-Flushed :
      (src dst src' dst' : ObjectStore Callback) (i : ℕ) (x : ObjectSeries Callback)
      → IsWellFormed src
      → IsWellFormed dst
      → flush_to false src dst ≡ (src', dst', ok tt)
      → series_at src.topics i ≡ some x
      → ((j : ℕ) (d : ObjectSeries Callback)
          → series_at dst.topics j ≡ some d
          → total_owned d.entries + total_owned x.entries < 2 ^ 64)
      → Flushed dst src' dst' x i
  flush_to-Flushed src dst src' dst' i x w wd e h fits =
      let (steps, p, es, ed) = flush_to_ok src dst src' dst' e in
      let q = plan_flush-Planned dst.topics src.topics 0 steps p in
      rw (es, ed)
        (plan-Flushed src.topics dst.topics steps x i
          (Planned-Apart dst.topics src.topics 0 steps w.apart q) w.valid wd.valid h
          (Planned-series dst.topics src.topics 0 i i steps x (omega arith) q h) fits)

  -- A series that starts at `front` and has the topic of `x` cannot go to `dst`: every series of
  -- that topic there, if any, ends after `front`.
  abbrev pub Blocked : Topics Callback → ObjectSeries Callback → ℤ → Type 0
  Blocked dst x front =
      (j : ℕ) (d : ObjectSeries Callback)
      → series_at dst j ≡ some d
      → d.descriptor.dataset_id ≡ x.descriptor.dataset_id
      → d.descriptor.topic_name ≡ x.descriptor.topic_name
      → (back : ℤ) × (last? d.entry_timestamps ≡ some back) × (front <ℤ back)

  plan_step-Blocked :
      (dst : Topics Callback) (x : ObjectSeries Callback) (front : ℤ) (i : ℕ)
      → Blocked dst x front
      → (e : Error) × (plan_step x front i (find_destination x.descriptor dst 0) ≡ unexpected e)
  unfolding plan_step is_stale
  plan_step-Blocked dst x front i b = go (find_destination x.descriptor dst 0) refl
    where
      go :
          (o : Option (ℕ × ObjectSeries Callback))
          → find_destination x.descriptor dst 0 ≡ o
          → (e : Error) × (plan_step x front i o ≡ unexpected e)
      go none f = (flush_no_topic x.descriptor.topic_name x.descriptor.dataset_id, refl)
      go (some (j, d)) f =
          let (at_j, matched) = find_destination-found x.descriptor dst j d f in
          let same = same_topic-eq d.descriptor x.descriptor matched in
          let (back, l, early) = b j d at_j same.0 same.1 in
          let stale : ltb_ℤ front back ≡ true = ground arith in
          (flush_monotonicity x.descriptor.topic_name, rw (l, stale))

  plan_round-unexpected :
      (dst : Topics Callback) (x : ObjectSeries Callback) (ts : List ℤ) (i : ℕ) (e : Error)
      → (e' : Error) × (plan_round dst x ts i (unexpected e) ≡ unexpected e')
  unfolding plan_round
  plan_round-unexpected dst x [] i e = (e, refl)
  plan_round-unexpected dst x (front ∷ ts) i e =
      plan_cons-unexpected (plan_step x front i (find_destination x.descriptor dst 0)) e

  plan_round-Blocked :
      (dst : Topics Callback) (x : ObjectSeries Callback) (front : ℤ) (rest ts : List ℤ) (i : ℕ)
      (r : Expected (List Step))
      → ts ≡ front ∷ rest
      → Blocked dst x front
      → (e : Error) × (plan_round dst x ts i r ≡ unexpected e)
  unfolding plan_round
  plan_round-Blocked dst x front rest ts i r h b =
      let (e, p) = plan_step-Blocked dst x front i b in (e, rw (h, p))

  plan_flush-Blocked :
      (dst src : Topics Callback) (k i : ℕ) (x : ObjectSeries Callback) (front : ℤ) (rest : List ℤ)
      → series_at src i ≡ some x
      → x.entry_timestamps ≡ front ∷ rest
      → Blocked dst x front
      → (e : Error) × (plan_flush dst src k ≡ unexpected e)
  unfolding plan_flush
  plan_flush-Blocked dst [] k i x front rest h n b = absurd (cc)
  plan_flush-Blocked dst ((t, y) ∷ src) k zero x front rest h n b =
      let same = some-injective y x h in
      plan_round-Blocked dst y front rest y.entry_timestamps k _
        (ap (λ (z : ObjectSeries Callback). z.entry_timestamps) same ∙ n)
        (subst (λ z. Blocked dst z front) (sym same) b)
  plan_flush-Blocked dst ((t, y) ∷ src) k (suc i) x front rest h n b =
      let (e, p) = plan_flush-Blocked dst src (k + 1) i x front rest h n b in
      rw p (plan_round-unexpected dst y y.entry_timestamps k e)

  -- A source series that holds entries, and starts before the end of every destination series of
  -- its dataset and name, as when there is none, makes the whole flush fail, with both stores as
  -- they were.
  pub flush_to-Blocked :
      (same : Bool) (src dst : ObjectStore Callback) (i : ℕ) (x : ObjectSeries Callback) (front : ℤ)
      (rest : List ℤ)
      → series_at src.topics i ≡ some x
      → x.entry_timestamps ≡ front ∷ rest
      → Blocked dst.topics x front
      → (e : Error) × (flush_to same src dst ≡ (src, dst, unexpected e))
  unfolding flush_to finish_flush
  flush_to-Blocked true src dst i x front rest h n b = (flush_same_store, refl)
  flush_to-Blocked false src dst i x front rest h n b =
      let (e, p) = plan_flush-Blocked dst.topics src.topics 0 i x front rest h n b in
      (e, rw (p, finish_flush))
