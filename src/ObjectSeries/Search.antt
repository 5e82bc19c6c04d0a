-- ===== src/ObjectSeries/Search.antt =====
-- Looking an entry up by time: `indexAt` and `latestAt` find the last entry that is not later.
use plotjuggler_core.Prelude.{
  ℕ, zero, suc, ◌-◌, ◌≤◌, ◌<◌, ◌≡◌, refl, Bool-cases, inl, inr, ◌⊎◌, none, some, List, [], ◌∷◌,
  arith, length, All, drop, get_elem?, IsSorted, ◌==◌, ℤ, ◌≤ℤ◌, ◌<ℤ◌, upper_bound,
  upper_bound-le-length, before-upper_bound, after-upper_bound,
}
use plotjuggler_core.ObjectSeries.{
  PayloadView, ObjectEntry, ObjectSeries, position_at, index_at, resolve_entry, resolve_at,
  latest_at,
}
use plotjuggler_core.ObjectSeries.Invariant.{IsValid, stamps}

All-of_get {ℓ κ} :
    {A : Type ℓ} (P : A → Type κ) (xs : List A)
    → ((j : ℕ) (x : A) → get_elem? xs j ≡ some x → P x)
    → All P xs
All-of_get P [] h = tt
All-of_get P (x ∷ xs) h = (h 0 x refl, All-of_get P xs (λ j. h (suc j)))

All-drop_of_get {ℓ κ} :
    {A : Type ℓ} (P : A → Type κ) (xs : List A) (i : ℕ)
    → ((j : ℕ) (x : A) → i ≤ j → get_elem? xs j ≡ some x → P x)
    → All P (drop i xs)
All-drop_of_get P xs zero h = All-of_get P xs (λ j x e. h j x (omega arith) e)
All-drop_of_get P [] (suc i) h = tt
All-drop_of_get P (x ∷ xs) (suc i) h = All-drop_of_get P xs i (λ j y l. h (suc j) y (omega arith))

module _ {Callback : Type 0} where
  -- Entry `i` is the last one whose time is not after `t`.
  pub record IsLatest (es : List (ObjectEntry Callback)) (t : ℤ) (i : ℕ) (e : ObjectEntry Callback)
      : Type 0 where
    pub found : get_elem? es i ≡ some e
    pub not_after : e.timestamp ≤ℤ t
    pub later_after : All (λ e'. t <ℤ e'.timestamp) (drop (suc i) es)

  -- Every entry is later than `t`.
  abbrev pub AllAfter : List (ObjectEntry Callback) → ℤ → Type 0
  AllAfter es t = All (λ e. t <ℤ e.timestamp) es

  get_elem?-stamps :
      (es : List (ObjectEntry Callback)) (i : ℕ) (e : ObjectEntry Callback)
      → get_elem? es i ≡ some e
      → get_elem? (stamps es) i ≡ some e.timestamp
  get_elem?-stamps [] i e h = absurd (cc)
  get_elem?-stamps (x ∷ es) zero e h = ground arith
  get_elem?-stamps (x ∷ es) (suc i) e h = get_elem?-stamps es i e h

  get_elem?-stamps_inv :
      (es : List (ObjectEntry Callback)) (i : ℕ)
      → i < length (stamps es)
      → (e : ObjectEntry Callback) × (get_elem? es i ≡ some e)
  get_elem?-stamps_inv [] i h = absurd (omega arith)
  get_elem?-stamps_inv (x ∷ es) zero h = (x, refl)
  get_elem?-stamps_inv (x ∷ es) (suc i) h = get_elem?-stamps_inv es i (omega arith)

position_at_cases :
    (ts : List ℤ) (t : ℤ)
    → ((position_at ts t ≡ none) × (upper_bound ts t ≡ 0))
      ⊎ ((i : ℕ) × (position_at ts t ≡ some i) × (upper_bound ts t ≡ suc i))
unfolding position_at
position_at_cases [] t = inl (refl, refl)
position_at_cases (x ∷ ts) t = elim (Bool-cases (upper_bound (x ∷ ts) t == 0)) [
  | inl e ↦ inl (rw e, ground arith)
  | inr e ↦ inr (upper_bound (x ∷ ts) t - 1, rw e, ground arith)
]

module _ {Callback : Type 0} where
  position-IsLatest :
      (es : List (ObjectEntry Callback)) (t : ℤ) (i : ℕ)
      → IsSorted (stamps es)
      → upper_bound (stamps es) t ≡ suc i
      → (e : ObjectEntry Callback) × IsLatest es t i e
  position-IsLatest es t i s u =
      let (e, h) = get_elem?-stamps_inv es i (omega (arith, upper_bound-le-length (stamps es) t)) in
      (
        e,
        record {
          found = h;
          not_after = before-upper_bound (stamps es) t i (get_elem?-stamps es i e h) (omega arith);
          later_after = All-drop_of_get _ es (suc i) (λ j e' lt' h'.
              after-upper_bound (stamps es) t j s (get_elem?-stamps es j e' h') (omega arith));
        },
      )

  position-AllAfter :
      (es : List (ObjectEntry Callback)) (t : ℤ)
      → IsSorted (stamps es)
      → upper_bound (stamps es) t ≡ 0
      → AllAfter es t
  position-AllAfter es t s u =
      All-of_get _ es
        (λ j e h. after-upper_bound (stamps es) t j s (get_elem?-stamps es j e h) (omega arith))

  -- On a valid series `indexAt` answers with the last entry that is not after the time, and with
  -- nothing exactly when every entry is after it.
  pub index_at_cases :
      (t : ℤ) (s : ObjectSeries Callback)
      → IsValid s
      → ((index_at t s ≡ none) × AllAfter s.entries t)
        ⊎ ((i : ℕ) × (e : ObjectEntry Callback) × (index_at t s ≡ some i)
            × IsLatest s.entries t i e)
  unfolding index_at
  index_at_cases t s v = rw v.mirrored (elim (position_at_cases (stamps s.entries) t) [
    | inl (p, u) ↦ inl (p, position-AllAfter s.entries t (rw v.mirrored at v.sorted) u)
    | inr (i, p, u) ↦
        let (e, l) = position-IsLatest s.entries t i (rw v.mirrored at v.sorted) u in
        inr (i, e, p, l)
  ])

module _ {Callback Anchor : Type 0} (fetch : Callback → PayloadView Anchor)
    (own : List ℕ → Anchor) where
  latest_at_resolves :
      (t : ℤ) (s : ObjectSeries Callback) (i : ℕ) (e : ObjectEntry Callback)
      → index_at t s ≡ some i
      → get_elem? s.entries i ≡ some e
      → latest_at fetch own t s ≡ some (resolve_entry fetch own e)
  unfolding latest_at index_at resolve_at
  latest_at_resolves t s i e p g = ground arith

  latest_at_misses :
      (t : ℤ) (s : ObjectSeries Callback) → index_at t s ≡ none → latest_at fetch own t s ≡ none
  unfolding latest_at index_at
  latest_at_misses t s p = ground arith

  -- On a valid series `latestAt` resolves the last entry that is not after the time, and answers
  -- with nothing exactly when every entry is after it.
  pub latest_at_cases :
      (t : ℤ) (s : ObjectSeries Callback)
      → IsValid s
      → ((latest_at fetch own t s ≡ none) × AllAfter s.entries t)
        ⊎ ((i : ℕ) × (e : ObjectEntry Callback) × (latest_at fetch own t s
              ≡ some (resolve_entry fetch own e))
            × IsLatest s.entries t i e)
  latest_at_cases t s v = elim (index_at_cases t s v) [
    | inl (p, a) ↦ inl (latest_at_misses t s p, a)
    | inr (i, e, p, l) ↦ inr (i, e, latest_at_resolves t s i e p l.found, l)
  ]
