-- ===== src/ObjectSeries/Push.antt =====
-- Pushing an entry: what the series holds afterwards, when the push is refused, and that every
-- operation on a series keeps the invariant.
use plotjuggler_core.Prelude.{
  ℕ, zero, suc, ◌+◌, ◌^◌, ◌≤◌, ◌<◌, ◌≡◌, refl, ap, subst, ◌∙◌, sym, Bool, true, false, Bool-cases,
  inl, inr, Option, ◌⊎◌, none, some, List, [], ◌∷◌, ◌++◌, arith, length, IsSorted, IsSorted-append,
  ℤ, ◌≤ℤ◌, ◌<ℤ◌, ltb_ℤ, sub_i64, last?, lt→ltb,
}
use plotjuggler_core.ObjectSeries.{
  Payload, shared_buffer, lazy_callback, ObjectEntry, ObjectSeries, Status, ok, unexpected,
  timestamp_not_monotonic, apply_retention, append_entry, append_lazy, is_stale, push_owned,
  push_lazy, evict_front, evict_entries, evict_while, evict_before, evict_over_memory,
  apply_time_window, apply_memory_limit, is_over_memory,
}
use plotjuggler_core.ObjectSeries.Invariant.{
  IsValid, total_owned, total_owned-append, stamps-append, apply_retention-IsValid,
}
use plotjuggler_core.ObjectSeries.Eviction.{
  Leaves, apply_retention-Leaves, retained, in_window, total_owned-within,
}

-- The time is not before the last one, if there is one.
abbrev pub NotBefore : Option ℤ → ℤ → Type 0
NotBefore none t = Unit {0}
NotBefore (some back) t = back ≤ℤ t

is_stale_cases :
    (t : ℤ) (o : Option ℤ)
    → ((is_stale t o ≡ false) × NotBefore o t)
      ⊎ ((is_stale t o ≡ true) × (back : ℤ) × (o ≡ some back) × (t <ℤ back))
unfolding is_stale
is_stale_cases t none = inl (refl, tt)
is_stale_cases t (some b) = elim (Bool-cases (ltb_ℤ t b)) [
  | inl e ↦ inr (e, b, refl, ground arith)
  | inr e ↦ inl (e, ground arith)
]

module _ {Callback : Type 0} where
  abbrev pub entry_of : ℤ → Payload Callback → ObjectEntry Callback
  entry_of t p = record { timestamp = t; payload = p }

  -- A timestamp may not go back behind the last one.
  abbrev pub Follows : ℤ → ObjectSeries Callback → Type 0
  Follows t s = NotBefore (last? s.entry_timestamps) t

  append-IsSorted :
      (t : ℤ) (s : ObjectSeries Callback)
      → IsValid s
      → Follows t s
      → IsSorted (s.entry_timestamps ++ t ∷ [])
  append-IsSorted t s v f =
      IsSorted-append s.entry_timestamps (t ∷ []) v.sorted (tt, tt)
        (λ x e. (subst (λ o. NotBefore o t) e f, tt))

  append_entry-IsValid :
      (t : ℤ) (bytes : List ℕ) (s : ObjectSeries Callback)
      → IsValid s
      → Follows t s
      → IsValid (append_entry t (shared_buffer (some bytes)) (length bytes) s)
  unfolding append_entry
  append_entry-IsValid t bytes s v f = record {
    mirrored = rw v.mirrored (sym (stamps-append s.entries _));
    sorted = append-IsSorted t s v f;
    counted = omega (
      arith,
      v.counted,
      total_owned-append s.entries (entry_of t (shared_buffer (some bytes)) ∷ []),
    );
  }

  append_lazy-IsValid :
      (t : ℤ) (f : Callback) (s : ObjectSeries Callback)
      → IsValid s
      → Follows t s
      → IsValid (append_lazy t f s)
  unfolding append_lazy
  append_lazy-IsValid t g s v f = record {
    mirrored = rw v.mirrored (sym (stamps-append s.entries _));
    sorted = append-IsSorted t s v f;
    counted =
        omega (arith, v.counted, total_owned-append s.entries (entry_of t (lazy_callback g) ∷ []));
  }

  -- What a push does: refused with nothing changed, or accepted and retained by the budget.
  pub data Pushed (s : ObjectSeries Callback) (e : ObjectEntry Callback)
      (r : ObjectSeries Callback × Status) : Type 0 where
    refused :
        (back : ℤ)
        → last? s.entry_timestamps ≡ some back
        → e.timestamp <ℤ back
        → r ≡ (s, unexpected timestamp_not_monotonic)
        → Pushed s e r
    accepted :
        Follows e.timestamp s
        → Leaves s r.0 (retained s.budget e.timestamp (s.entries ++ e ∷ []))
        → r.1 ≡ ok tt
        → Pushed s e r

  append_entry-Leaves :
      (t : ℤ) (bytes : List ℕ) (s : ObjectSeries Callback)
      → IsValid s
      → Follows t s
      → total_owned s.entries + length bytes < 2 ^ 64
      → Leaves s
          (apply_retention t (append_entry t (shared_buffer (some bytes)) (length bytes) s))
          (retained s.budget t (s.entries ++ entry_of t (shared_buffer (some bytes)) ∷ []))
  append_entry-Leaves t bytes s v f fits =
      let w = append_entry-IsValid t bytes s v f in
      let n = total_owned-append s.entries (entry_of t (shared_buffer (some bytes)) ∷ []) in
      unfold append_entry in
      let l = apply_retention-Leaves t _ w (omega (arith, n)) in
      record {
        valid = l.valid;
        kept = l.kept;
        same_budget = l.same_budget;
        same_descriptor = l.same_descriptor;
      }

  append_lazy-Leaves :
      (t : ℤ) (g : Callback) (s : ObjectSeries Callback)
      → IsValid s
      → Follows t s
      → total_owned s.entries < 2 ^ 64
      → Leaves s
          (apply_retention t (append_lazy t g s))
          (retained s.budget t (s.entries ++ entry_of t (lazy_callback g) ∷ []))
  append_lazy-Leaves t g s v f fits =
      let w = append_lazy-IsValid t g s v f in
      let n = total_owned-append s.entries (entry_of t (lazy_callback g) ∷ []) in
      unfold append_lazy in
      let l = apply_retention-Leaves t _ w (omega (arith, n)) in
      record {
        valid = l.valid;
        kept = l.kept;
        same_budget = l.same_budget;
        same_descriptor = l.same_descriptor;
      }

  -- On a valid series whose bytes fit a `size_t`, an eager push is refused exactly when its time
  -- lies before the last entry, and otherwise appends the entry and keeps what the budget keeps.
  pub push_owned-Pushed :
      (t : ℤ) (bytes : List ℕ) (s : ObjectSeries Callback)
      → IsValid s
      → total_owned s.entries + length bytes < 2 ^ 64
      → Pushed s (entry_of t (shared_buffer (some bytes))) (push_owned t bytes s)
  unfolding push_owned
  push_owned-Pushed t bytes s v fits = elim (is_stale_cases t (last? s.entry_timestamps)) [
    | inl (e, f) ↦ rw e (accepted f (append_entry-Leaves t bytes s v f fits) refl)
    | inr (e, b, last', lt') ↦ rw e (refused b last' lt' refl)
  ]

  -- On a valid series whose bytes fit a `size_t`, a lazy push is refused exactly when its time lies
  -- before the last entry, and otherwise appends the entry and keeps what the budget keeps.
  pub push_lazy-Pushed :
      (t : ℤ) (g : Callback) (s : ObjectSeries Callback)
      → IsValid s
      → total_owned s.entries < 2 ^ 64
      → Pushed s (entry_of t (lazy_callback g)) (push_lazy t g s)
  unfolding push_lazy
  push_lazy-Pushed t g s v fits = elim (is_stale_cases t (last? s.entry_timestamps)) [
    | inl (e, f) ↦ rw e (accepted f (append_lazy-Leaves t g s v f fits) refl)
    | inr (e, b, last', lt') ↦ rw e (refused b last' lt' refl)
  ]

  -- Every eager push keeps the invariant, whatever it answers.
  pub push_owned-IsValid :
      (t : ℤ) (bytes : List ℕ) (s : ObjectSeries Callback)
      → IsValid s
      → IsValid (push_owned t bytes s).0
  unfolding push_owned
  push_owned-IsValid t bytes s v = elim (is_stale_cases t (last? s.entry_timestamps)) [
    | inl (e, f) ↦ rw e (apply_retention-IsValid t _ (append_entry-IsValid t bytes s v f))
    | inr (e, b, last', lt') ↦ rw e v
  ]

  pub push_lazy-IsValid :
      (t : ℤ) (g : Callback) (s : ObjectSeries Callback) → IsValid s → IsValid (push_lazy t g s).0
  unfolding push_lazy
  push_lazy-IsValid t g s v = elim (is_stale_cases t (last? s.entry_timestamps)) [
    | inl (e, f) ↦ rw e (apply_retention-IsValid t _ (append_lazy-IsValid t g s v f))
    | inr (e, b, last', lt') ↦ rw e v
  ]

  -- After an accepted push with a memory cap, the eager bytes are within the cap.
  pub Pushed-within_cap :
      (s : ObjectSeries Callback) (e : ObjectEntry Callback) (r : ObjectSeries Callback × Status)
      → Pushed s e r
      → r.1 ≡ ok tt
      → 0 < s.budget.max_memory_bytes
      → total_owned r.0.entries ≤ s.budget.max_memory_bytes
  Pushed-within_cap s e r (refused b l lt' eq') o h =
      absurd (cc (ap (λ (q : ObjectSeries Callback × Status). q.1) eq'))
  Pushed-within_cap s e r (accepted f l o') o h =
      rw (l.kept, lt→ltb _ _ h)
        (total_owned-within s.budget.max_memory_bytes
          (in_window s.budget e.timestamp (s.entries ++ e ∷ [])))

  evict_front-descriptor : (s : ObjectSeries Callback) → (evict_front s).descriptor ≡ s.descriptor
  unfolding evict_front evict_entries
  evict_front-descriptor s = ground arith

  evict_while-descriptor :
      (fuel : ℕ) (test : ObjectSeries Callback → Bool) (s : ObjectSeries Callback)
      → (evict_while fuel test s).descriptor ≡ s.descriptor
  unfolding evict_while
  evict_while-descriptor zero test s = refl
  evict_while-descriptor (suc fuel) test s =
      ground (arith, evict_while-descriptor fuel test (evict_front s), evict_front-descriptor s)

  pub evict_before-descriptor :
      (t : ℤ) (s : ObjectSeries Callback) → (evict_before t s).descriptor ≡ s.descriptor
  unfolding evict_before
  evict_before-descriptor t s = evict_while-descriptor _ _ s

  apply_time_window-descriptor :
      (t : ℤ) (s : ObjectSeries Callback) → (apply_time_window t s).descriptor ≡ s.descriptor
  unfolding apply_time_window
  apply_time_window-descriptor t s =
      ground (arith, evict_before-descriptor (sub_i64 t s.budget.time_window_ns) s)

  apply_memory_limit-descriptor :
      (s : ObjectSeries Callback) → (apply_memory_limit s).descriptor ≡ s.descriptor
  unfolding apply_memory_limit evict_over_memory
  apply_memory_limit-descriptor s =
      ground (arith, evict_while-descriptor (length s.entries) is_over_memory s)

  pub apply_retention-descriptor :
      (t : ℤ) (s : ObjectSeries Callback) → (apply_retention t s).descriptor ≡ s.descriptor
  unfolding apply_retention
  apply_retention-descriptor t s =
      apply_memory_limit-descriptor (apply_time_window t s) ∙ apply_time_window-descriptor t s

  pub push_owned-descriptor :
      (t : ℤ) (bytes : List ℕ) (s : ObjectSeries Callback)
      → (push_owned t bytes s).0.descriptor ≡ s.descriptor
  unfolding push_owned append_entry
  push_owned-descriptor t bytes s = elim (Bool-cases (is_stale t (last? s.entry_timestamps))) [
    | inl e ↦ rw e
    | inr e ↦ rw e (apply_retention-descriptor t _)
  ]

  pub push_lazy-descriptor :
      (t : ℤ) (g : Callback) (s : ObjectSeries Callback)
      → (push_lazy t g s).0.descriptor ≡ s.descriptor
  unfolding push_lazy append_lazy
  push_lazy-descriptor t g s = elim (Bool-cases (is_stale t (last? s.entry_timestamps))) [
    | inl e ↦ rw e
    | inr e ↦ rw e (apply_retention-descriptor t _)
  ]
