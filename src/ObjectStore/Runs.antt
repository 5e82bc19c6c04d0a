-- ===== src/ObjectStore/Runs.antt =====
-- Any history of calls on stores, flushes between them included: the topic tables stay well
-- formed.
use plotjuggler_core.Prelude.{
  ℕ, suc, ◌+◌, ◌^◌, ◌<◌, ◌≤◌, ◌≡◌, refl, Bool-cases, inl, inr, List, [], ◌∷◌, arith, length, ◌==◌,
  if◌then◌else◌, ℤ,
}
use plotjuggler_core.ObjectSeries.{ObjectTopicDescriptor, RetentionBudget}
use plotjuggler_core.ObjectSeries.Invariant.{evict_before-IsValid}
use plotjuggler_core.ObjectSeries.Push.{
  push_owned-IsValid, push_lazy-IsValid, evict_before-descriptor, push_owned-descriptor,
  push_lazy-descriptor,
}
use plotjuggler_core.ObjectStore.{
  ObjectStore, register_topic, push_owned_to, push_lazy_to, set_retention_budget, evict_before_in,
  evict_all_before, remove_topic, clear, empty_store, write_series, update_series,
}
use plotjuggler_core.ObjectStore.Flush.{flush_to}
use plotjuggler_core.ObjectStore.Flush.Kept.{flush_to-IsWellFormed, next_id-flush_to}
use plotjuggler_core.ObjectStore.WellFormed.{
  IsWellFormed, write_series-IsWellFormed, update_series-IsWellFormed, headers-evict_all,
  evict_all_topics-All, headers-erase, erase_topic-Apart, erase_topic-All, register-IsWellFormed,
}

-- The calls that change one store.
pub data Call (Callback : Type 0) : Type 0 where
  register : ObjectTopicDescriptor → Call Callback
  push_bytes : ℕ → ℤ → List ℕ → Call Callback
  push_fetch : ℕ → ℤ → Callback → Call Callback
  budget_of : ℕ → RetentionBudget → Call Callback
  evict : ℕ → ℤ → Call Callback
  evict_all : ℤ → Call Callback
  remove : ℕ → Call Callback
  clear_all : Call Callback

-- A call on the store with a number, or `flushTo` from one store to another, or to itself.
pub data Action (Callback : Type 0) : Type 0 where
  on : ℕ → Call Callback → Action Callback
  flush : ℕ → ℕ → Action Callback

abbrev Stores : Type 0 → Type 0
Stores Callback = ℕ → ObjectStore Callback

module _ {Callback : Type 0} where
  pub step : ObjectStore Callback → Call Callback → ObjectStore Callback
  step s (register d) = (register_topic d s).0
  step s (push_bytes id t bytes) = (push_owned_to id t bytes s).0
  step s (push_fetch id t fetch) = (push_lazy_to id t fetch s).0
  step s (budget_of id budget) = set_retention_budget id budget s
  step s (evict id t) = evict_before_in id t s
  step s (evict_all t) = evict_all_before t s
  step s (remove id) = remove_topic id s
  step s clear_all = clear s

  abbrev put_store : ℕ → ObjectStore Callback → Stores Callback → Stores Callback
  put_store k s stores j = if j == k then s else stores j

  pub act : Stores Callback → Action Callback → Stores Callback
  act stores (on k c) = put_store k (step (stores k) c) stores
  act stores (flush i j) =
      let r = flush_to (i == j) (stores i) (stores j) in put_store j r.1 (put_store i r.0 stores)

  pub run : Stores Callback → List (Action Callback) → Stores Callback
  run stores [] = stores
  run stores (a ∷ more) = run (act stores a) more

  set_retention_budget-IsWellFormed :
      (id : ℕ) (b : RetentionBudget) (s : ObjectStore Callback)
      → IsWellFormed s
      → IsWellFormed (set_retention_budget id b s)
  unfolding set_retention_budget
  set_retention_budget-IsWellFormed id b s =
      update_series-IsWellFormed id _ s
        (λ x v. record { mirrored = v.mirrored; sorted = v.sorted; counted = v.counted })
        (λ x. refl)

  -- Each call keeps a well formed store well formed, while ids are left.
  pub step-IsWellFormed :
      (s : ObjectStore Callback) (c : Call Callback)
      → s.next_id + 1 < 2 ^ 32
      → IsWellFormed s
      → IsWellFormed (step s c)
  unfolding step push_owned_to push_lazy_to evict_before_in evict_all_before remove_topic clear
  step-IsWellFormed s (register d) h w = register-IsWellFormed d s h w
  step-IsWellFormed s (push_bytes id t bytes) h w =
      write_series-IsWellFormed id _ s (push_owned-IsValid t bytes) (push_owned-descriptor t bytes)
        w
  step-IsWellFormed s (push_fetch id t g) h w =
      write_series-IsWellFormed id _ s (push_lazy-IsValid t g) (push_lazy-descriptor t g) w
  step-IsWellFormed s (budget_of id b) h w = set_retention_budget-IsWellFormed id b s w
  step-IsWellFormed s (evict id t) h w =
      update_series-IsWellFormed id _ s (evict_before-IsValid t) (evict_before-descriptor t) w
  step-IsWellFormed s (evict_all t) h w = record {
    below = rw headers-evict_all w.below;
    apart = rw headers-evict_all w.apart;
    valid = evict_all_topics-All t s.topics w.valid;
  }
  step-IsWellFormed s (remove id) h w = record {
    below = headers-erase _ id s.topics w.below;
    apart = erase_topic-Apart id s.topics w.apart;
    valid = erase_topic-All id s.topics w.valid;
  }
  step-IsWellFormed s clear_all h w = record { below = tt; apart = tt; valid = tt }

  next_id-step :
      (s : ObjectStore Callback) (c : Call Callback)
      → s.next_id + 1 < 2 ^ 32
      → 0 < s.next_id
      → (0 < (step s c).next_id) × ((step s c).next_id ≤ s.next_id + 1)
  unfolding step register_topic push_owned_to push_lazy_to write_series update_series
      set_retention_budget evict_before_in evict_all_before remove_topic clear
  next_id-step s (register d) h p = ground arith
  next_id-step s (push_bytes id t bytes) h p = ground arith
  next_id-step s (push_fetch id t g) h p = ground arith
  next_id-step s (budget_of id b) h p = ground arith
  next_id-step s (evict id t) h p = ground arith
  next_id-step s _ h p = ground arith

  -- A property of the stores after a change of one.
  put_store_all :
      (P : ObjectStore Callback → Type 0) (k : ℕ) (s : ObjectStore Callback)
      (stores : Stores Callback)
      → P s
      → ((j : ℕ) → P (stores j))
      → (j : ℕ) → P (put_store k s stores j)
  put_store_all P k s stores h hs j = elim (Bool-cases (j == k)) [
    | inl e ↦ rw e h
    | inr e ↦ rw e (hs j)
  ]

  -- A well formed store whose next id is from 1 to `bound`.
  record IsSound (bound : ℕ) (s : ObjectStore Callback) : Type 0 where
    formed : IsWellFormed s
    from_one : 0 < s.next_id
    ids_left : s.next_id ≤ bound

  step-IsSound :
      (s : ObjectStore Callback) (c : Call Callback) (bound : ℕ)
      → bound + 1 < 2 ^ 32
      → IsSound bound s
      → IsSound (bound + 1) (step s c)
  step-IsSound s c bound h i =
      let n = next_id-step s c (omega (arith, i.ids_left)) i.from_one in
      record {
        formed = step-IsWellFormed s c (omega (arith, i.ids_left)) i.formed;
        from_one = n.0;
        ids_left = omega (arith, n.1, i.ids_left);
      }

  IsSound-more : (s : ObjectStore Callback) (bound : ℕ) → IsSound bound s → IsSound (bound + 1) s
  IsSound-more s bound i = record {
    formed = i.formed;
    from_one = i.from_one;
    ids_left = omega (arith, i.ids_left);
  }

  IsSound-flushed :
      (s s' : ObjectStore Callback) (bound : ℕ)
      → IsSound bound s
      → IsWellFormed s'
      → s'.next_id ≡ s.next_id
      → IsSound (bound + 1) s'
  IsSound-flushed s s' bound i w e = record {
    formed = w;
    from_one = omega (arith, e, i.from_one);
    ids_left = omega (arith, e, i.ids_left);
  }

  act-IsSound :
      (stores : Stores Callback) (a : Action Callback) (bound : ℕ)
      → bound + 1 < 2 ^ 32
      → ((j : ℕ) → IsSound bound (stores j))
      → (j : ℕ) → IsSound (bound + 1) (act stores a j)
  unfolding act
  act-IsSound stores (on k c) bound h i =
      put_store_all (IsSound (bound + 1)) k (step (stores k) c) stores
        (step-IsSound (stores k) c bound h (i k)) (λ j. IsSound-more (stores j) bound (i j))
  act-IsSound stores (flush k l) bound h i =
      let r = flush_to (k == l) (stores k) (stores l) in
      let w = flush_to-IsWellFormed (k == l) (stores k) (stores l) (i k).formed (i l).formed in
      let n = next_id-flush_to (k == l) (stores k) (stores l) in
      put_store_all (IsSound (bound + 1)) l r.1 (put_store k r.0 stores)
        (IsSound-flushed (stores l) r.1 bound (i l) w.1 n.1)
        (put_store_all (IsSound (bound + 1)) k r.0 stores
          (IsSound-flushed (stores k) r.0 bound (i k) w.0 n.0)
          (λ j. IsSound-more (stores j) bound (i j)))

  run-IsSound :
      (stores : Stores Callback) (actions : List (Action Callback)) (bound : ℕ)
      → bound + length actions < 2 ^ 32
      → ((j : ℕ) → IsSound bound (stores j))
      → (j : ℕ) → IsSound (bound + length actions) (run stores actions j)
  unfolding run
  run-IsSound stores [] bound h i j = let z : bound + 0 ≡ bound = omega arith in rw z (i j)
  run-IsSound stores (a ∷ actions) bound h i j =
      let z : bound + suc (length actions) ≡ bound + 1 + length actions = omega arith in
      rw z (
        run-IsSound (act stores a) actions (bound + 1) (omega arith)
          (act-IsSound stores a bound (omega arith) i) j)

  -- After any history of fewer than 2^32 - 1 calls on any stores that were empty, calls on one store
  -- and flushes between two, every store is well formed: ids and keys are distinct, ids lie below
  -- the next one, and in every series the timestamps mirror the entries in order and the byte count
  -- is that of the eager payloads held.
  pub run-empty_store-IsWellFormed :
      (actions : List (Action Callback)) (j : ℕ)
      → length actions + 1 < 2 ^ 32
      → IsWellFormed (run (λ i. empty_store) actions j)
  run-empty_store-IsWellFormed actions j h =
      (run-IsSound (λ i. empty_store) actions 1 (omega arith)
        (λ i. record {
          formed = record { below = tt; apart = tt; valid = tt };
          from_one = omega arith;
          ids_left = omega arith;
        })
        j).formed
