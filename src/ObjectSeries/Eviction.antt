-- ===== src/ObjectSeries/Eviction.antt =====
-- What the eviction loops of a series keep, against descriptions on the list of entries.
use plotjuggler_core.Prelude.{
  ℕ, ◌^◌, ◌≤◌, ◌<◌, ◌≡◌, refl, ap, ap₂, ◌∙◌, Bool, false, Bool-cases, inl, inr, List, [], ◌∷◌,
  arith, length, All, IsSorted, ltb, if◌then◌else◌, ℤ, pos, ◌≤ℤ◌, ltb_ℤ, sub_i64,
}
use plotjuggler_core.ObjectSeries.{
  ObjectEntry, ObjectSeries, RetentionBudget, evict_front, evict_while, evict_before,
  evict_over_memory, apply_time_window, apply_memory_limit, apply_retention, front_before,
  over_memory, is_front_before, is_over_memory,
}
use plotjuggler_core.ObjectSeries.Invariant.{IsValid, total_owned, stamps, evict_front_cons}

-- Drop from the front while a test on what is left holds.
abbrev pub trim {ℓ} : {A : Type ℓ} → (List A → Bool) → List A → List A
trim p [] = []
trim p (x ∷ xs) = if p (x ∷ xs) then trim p xs else x ∷ xs

module _ {Callback : Type 0} where
  -- What an eviction leaves: a valid series with the entries given, and all else as before.
  pub record Leaves (s t : ObjectSeries Callback) (es : List (ObjectEntry Callback)) : Type 0 where
    pub valid : IsValid t
    pub kept : t.entries ≡ es
    pub same_budget : t.budget ≡ s.budget
    pub same_descriptor : t.descriptor ≡ s.descriptor

  Leaves-step :
      (s t u : ObjectSeries Callback) (es : List (ObjectEntry Callback))
      → t.budget ≡ s.budget
      → t.descriptor ≡ s.descriptor
      → Leaves t u es
      → Leaves s u es
  Leaves-step s t u es b d l = record {
    valid = l.valid;
    kept = l.kept;
    same_budget = l.same_budget ∙ b;
    same_descriptor = l.same_descriptor ∙ d;
  }

  -- A loop whose test reads only the entries trims them, with as many rounds as there are entries.
  evict_while-Leaves {ℓ} :
      (Fits : List (ObjectEntry Callback) → Type ℓ) (b : RetentionBudget)
      (test : ObjectSeries Callback → Bool) (p : List (ObjectEntry Callback) → Bool)
      → ((e : ObjectEntry Callback) (es : List (ObjectEntry Callback)) → Fits (e ∷ es) → Fits es)
      → ((s : ObjectSeries Callback)
          → IsValid s
          → Fits s.entries
          → s.budget ≡ b
          → test s ≡ p s.entries)
      → (es : List (ObjectEntry Callback)) (s : ObjectSeries Callback) → s.entries ≡ es
      → IsValid s
      → Fits es
      → s.budget ≡ b
      → Leaves s (evict_while (length es) test s) (trim p es)
  unfolding evict_while
  evict_while-Leaves Fits b test p shrink agree [] s h v f hb = record {
    valid = v;
    kept = h;
    same_budget = refl;
    same_descriptor = refl;
  }
  evict_while-Leaves Fits b test p shrink agree (e ∷ es) s h v f hb =
      let step = evict_front_cons s e es h v in
      let same : test s ≡ p (e ∷ es) = agree s v (subst' f) hb ∙ ap p h in
      elim (Bool-cases (p (e ∷ es))) [
        | inl yes' ↦
            rw (yes', same ∙ yes')
              (Leaves-step s (evict_front s) _ _ step.2 step.3 (
                evict_while-Leaves Fits b test p shrink agree es (evict_front s) step.0 step.1
                  (shrink e es f) (step.2 ∙ hb)))
        | inr no' ↦
            rw (no', same ∙ no')
              (record { valid = v; kept = h; same_budget = refl; same_descriptor = refl })
      ]
    where
      subst' : Fits (e ∷ es) → Fits s.entries
      subst' g = rw h g

  -- The entries that are not before a threshold.
  abbrev pub since : ℤ → List (ObjectEntry Callback) → List (ObjectEntry Callback)
  since threshold [] = []
  since threshold (e ∷ es) =
      if ltb_ℤ e.timestamp threshold then since threshold es else e ∷ since threshold es

  -- The longest tail whose eager bytes fit a limit.
  abbrev pub within : ℕ → List (ObjectEntry Callback) → List (ObjectEntry Callback)
  within limit = trim (λ es. ltb limit (total_owned es))

  abbrev starts_before : ℤ → List (ObjectEntry Callback) → Bool
  starts_before threshold [] = false
  starts_before threshold (e ∷ es) = ltb_ℤ e.timestamp threshold

  since_later :
      (threshold x : ℤ) (es : List (ObjectEntry Callback))
      → threshold ≤ℤ x
      → All (λ y. x ≤ℤ y) (stamps es)
      → since threshold es ≡ es
  since_later threshold x [] h a = refl
  since_later threshold x (e ∷ es) h a = ground (arith, since_later threshold x es h a.1)

  trim-starts_before :
      (threshold : ℤ) (es : List (ObjectEntry Callback))
      → IsSorted (stamps es)
      → trim (starts_before threshold) es ≡ since threshold es
  trim-starts_before threshold [] h = refl
  trim-starts_before threshold (e ∷ es) h =
      ground (arith, trim-starts_before threshold es h.1, since_later threshold e.timestamp es)

  front_before-starts_before :
      (threshold : ℤ) (es : List (ObjectEntry Callback))
      → front_before threshold es (stamps es) ≡ starts_before threshold es
  unfolding front_before
  front_before-starts_before threshold [] = refl
  front_before-starts_before threshold (e ∷ es) = refl

  -- `evictBefore` keeps exactly the entries that are not before the threshold.
  pub evict_before-Leaves :
      (threshold : ℤ) (s : ObjectSeries Callback)
      → IsValid s
      → Leaves s (evict_before threshold s) (since threshold s.entries)
  unfolding evict_before
  evict_before-Leaves threshold s v =
      rw (← trim-starts_before threshold s.entries (rw v.mirrored at v.sorted)) (
        evict_while-Leaves (λ es. Unit {0}) s.budget (is_front_before threshold)
          (starts_before threshold) (λ e es f. f)
          (λ t w f b. rw w.mirrored (front_before-starts_before threshold t.entries)) s.entries s
          refl v tt refl)

  over_memory_lem :
      (limit : ℕ) (es : List (ObjectEntry Callback))
      → over_memory es (total_owned es) limit ≡ ltb limit (total_owned es)
  unfolding over_memory
  over_memory_lem limit [] = ground arith
  over_memory_lem limit (e ∷ es) = refl

  -- The memory loop keeps the longest tail that fits the limit.
  pub evict_over_memory-Leaves :
      (s : ObjectSeries Callback)
      → IsValid s
      → total_owned s.entries < 2 ^ 64
      → Leaves s (evict_over_memory s) (within s.budget.max_memory_bytes s.entries)
  unfolding evict_over_memory
  evict_over_memory-Leaves s v fits =
      evict_while-Leaves (λ es. total_owned es < 2 ^ 64) s.budget is_over_memory _
        (λ e es f. omega arith) agree s.entries s refl v fits refl
    where
      agree :
          (t : ObjectSeries Callback)
          → IsValid t
          → total_owned t.entries < 2 ^ 64
          → t.budget ≡ s.budget
          → is_over_memory t ≡ ltb s.budget.max_memory_bytes (total_owned t.entries)
      agree t w f b =
          let exact : t.memory_bytes ≡ total_owned t.entries = omega (arith, w.counted) in
          rw (exact, b) (over_memory_lem s.budget.max_memory_bytes t.entries)

  pub total_owned-since :
      (threshold : ℤ) (es : List (ObjectEntry Callback))
      → total_owned (since threshold es) ≤ total_owned es
  total_owned-since threshold [] = omega arith
  total_owned-since threshold (e ∷ es) = ground (arith, total_owned-since threshold es)

  pub total_owned-within :
      (limit : ℕ) (es : List (ObjectEntry Callback)) → total_owned (within limit es) ≤ limit
  total_owned-within limit [] = omega arith
  total_owned-within limit (e ∷ es) = ground (arith, total_owned-within limit es)

  -- What a budget keeps of a list of entries, the newest timestamp being given.
  abbrev pub in_window :
      RetentionBudget → ℤ → List (ObjectEntry Callback) → List (ObjectEntry Callback)
  in_window b newest es =
      if ltb_ℤ (pos 0) b.time_window_ns then since (sub_i64 newest b.time_window_ns) es else es

  abbrev pub in_memory : RetentionBudget → List (ObjectEntry Callback) → List (ObjectEntry Callback)
  in_memory b es = if ltb 0 b.max_memory_bytes then within b.max_memory_bytes es else es

  abbrev pub retained :
      RetentionBudget → ℤ → List (ObjectEntry Callback) → List (ObjectEntry Callback)
  retained b newest es = in_memory b (in_window b newest es)

  apply_time_window-Leaves :
      (newest : ℤ) (s : ObjectSeries Callback)
      → IsValid s
      → Leaves s (apply_time_window newest s) (in_window s.budget newest s.entries)
  unfolding apply_time_window
  apply_time_window-Leaves newest s v = elim (Bool-cases (ltb_ℤ (pos 0) s.budget.time_window_ns)) [
    | inl e ↦ rw e (evict_before-Leaves _ s v)
    | inr e ↦ rw e (record { valid = v; kept = refl; same_budget = refl; same_descriptor = refl })
  ]

  apply_memory_limit-Leaves :
      (s : ObjectSeries Callback)
      → IsValid s
      → total_owned s.entries < 2 ^ 64
      → Leaves s (apply_memory_limit s) (in_memory s.budget s.entries)
  unfolding apply_memory_limit
  apply_memory_limit-Leaves s v fits = elim (Bool-cases (ltb 0 s.budget.max_memory_bytes)) [
    | inl e ↦ rw e (evict_over_memory-Leaves s v fits)
    | inr e ↦ rw e (record { valid = v; kept = refl; same_budget = refl; same_descriptor = refl })
  ]

  total_owned-in_window :
      (b : RetentionBudget) (newest : ℤ) (es : List (ObjectEntry Callback))
      → total_owned (in_window b newest es) ≤ total_owned es
  total_owned-in_window b newest es =
      ground (arith, total_owned-since (sub_i64 newest b.time_window_ns) es)

  -- Retention keeps what the budget says, first by time and then by memory.
  pub apply_retention-Leaves :
      (newest : ℤ) (s : ObjectSeries Callback)
      → IsValid s
      → total_owned s.entries < 2 ^ 64
      → Leaves s (apply_retention newest s) (retained s.budget newest s.entries)
  unfolding apply_retention
  apply_retention-Leaves newest s v fits =
      let w = apply_time_window-Leaves newest s v in
      let m =
        apply_memory_limit-Leaves (apply_time_window newest s) w.valid
          (rw w.kept (omega (arith, total_owned-in_window s.budget newest s.entries))) in
      record {
        valid = m.valid;
        kept = m.kept ∙ ap₂ in_memory w.same_budget w.kept;
        same_budget = m.same_budget ∙ w.same_budget;
        same_descriptor = m.same_descriptor ∙ w.same_descriptor;
      }
