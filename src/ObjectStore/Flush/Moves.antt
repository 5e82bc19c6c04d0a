-- ===== src/ObjectStore/Flush/Moves.antt =====
-- The second phase of a flush: steps that touch different series do not disturb one another.
use plotjuggler_core.Prelude.{
  ℕ, zero, suc, ◌≡◌, ◌≢◌, refl, ap, subst, ◌∙◌, sym, Option, ◌⊎◌, inl, inr, none, some, List, [],
  ◌∷◌, All, All-map,
}
use plotjuggler_core.ObjectSeries.{ObjectSeries}
use plotjuggler_core.ObjectStore.{Topics}
use plotjuggler_core.ObjectStore.WellFormed.{Apart}
use plotjuggler_core.ObjectStore.Flush.{
  Step, put_at, series_at, received, emptied, move_at, move_all,
}

abbrev pub In {ℓ} : {A : Type ℓ} → A → List A → Type ℓ
In x [] = Unit × ⊥
In x (y ∷ ys) = (x ≡ y) ⊎ In x ys

-- Two steps share neither their source nor their destination.
abbrev pub Disjoint : Step → Step → Type 0
Disjoint a b = (a.src ≢ b.src) × (a.dst ≢ b.dst)

In-All {κ} : (P : Step → Type κ) (x : Step) (xs : List Step) → All P xs → In x xs → P x
In-All P x [] a h = absurd h.1
In-All P x (y ∷ ys) a (inl e) = subst P (sym e) a.0
In-All P x (y ∷ ys) a (inr h) = In-All P x ys a.1 h

module _ {Callback : Type 0} where
  series_at-put_at_self :
      (ts : Topics Callback) (i : ℕ) (x y : ObjectSeries Callback)
      → series_at ts i ≡ some y
      → series_at (put_at ts i x) i ≡ some x
  series_at-put_at_self [] i x y h = absurd (cc)
  series_at-put_at_self ((t, z) ∷ ts) zero x y h = refl
  series_at-put_at_self ((t, z) ∷ ts) (suc i) x y h = series_at-put_at_self ts i x y h

  series_at-put_at_ne :
      (ts : Topics Callback) (i j : ℕ) (x : ObjectSeries Callback)
      → i ≢ j
      → series_at (put_at ts j x) i ≡ series_at ts i
  series_at-put_at_ne [] i j x h = refl
  series_at-put_at_ne ((t, z) ∷ ts) zero zero x h = absurd (h refl)
  series_at-put_at_ne ((t, z) ∷ ts) zero (suc j) x h = refl
  series_at-put_at_ne ((t, z) ∷ ts) (suc i) zero x h = refl
  series_at-put_at_ne ((t, z) ∷ ts) (suc i) (suc j) x h =
      series_at-put_at_ne ts i j x (λ e. h (ap suc e))

  pub move_at_src_other :
      (step : Step) (a b : Option (ObjectSeries Callback)) (src dst : Topics Callback) (i : ℕ)
      → i ≢ step.src
      → series_at (move_at step a b (src, dst)).0 i ≡ series_at src i
  unfolding move_at
  move_at_src_other step none b src dst i h = refl
  move_at_src_other step (some s) none src dst i h = refl
  move_at_src_other step (some s) (some d) src dst i h = series_at-put_at_ne src i step.src _ h

  pub move_at_dst_other :
      (step : Step) (a b : Option (ObjectSeries Callback)) (src dst : Topics Callback) (j : ℕ)
      → j ≢ step.dst
      → series_at (move_at step a b (src, dst)).1 j ≡ series_at dst j
  unfolding move_at
  move_at_dst_other step none b src dst j h = refl
  move_at_dst_other step (some s) none src dst j h = refl
  move_at_dst_other step (some s) (some d) src dst j h = series_at-put_at_ne dst j step.dst _ h

  -- A series that no step names is left as it was.
  pub move_all_src_other :
      (steps : List Step) (src dst : Topics Callback) (i : ℕ)
      → All (λ step. i ≢ step.src) steps
      → series_at (move_all steps (src, dst)).0 i ≡ series_at src i
  unfolding move_all
  move_all_src_other [] src dst i a = refl
  move_all_src_other (step ∷ steps) src dst i a =
      move_all_src_other steps _ _ i a.1 ∙ move_at_src_other step _ _ src dst i a.0

  pub move_all_dst_other :
      (steps : List Step) (src dst : Topics Callback) (j : ℕ)
      → All (λ step. j ≢ step.dst) steps
      → series_at (move_all steps (src, dst)).1 j ≡ series_at dst j
  unfolding move_all
  move_all_dst_other [] src dst j a = refl
  move_all_dst_other (step ∷ steps) src dst j a =
      move_all_dst_other steps _ _ j a.1 ∙ move_at_dst_other step _ _ src dst j a.0

  -- What the moves leave at the two ends of a step.
  abbrev pub Moved :
      Topics Callback × Topics Callback
      → Step
      → ObjectSeries Callback
      → ObjectSeries Callback
      → Type 0
  Moved tables step s d =
      (series_at tables.0 step.src ≡ some (emptied s))
      × (series_at tables.1 step.dst ≡ some (received s d))

  move_at-Moved :
      (step : Step) (src dst : Topics Callback) (s d : ObjectSeries Callback)
      → series_at src step.src ≡ some s
      → series_at dst step.dst ≡ some d
      → Moved (move_at step (some s) (some d) (src, dst)) step s d
  unfolding move_at
  move_at-Moved step src dst s d hs hd =
      (series_at-put_at_self src step.src _ s hs, series_at-put_at_self dst step.dst _ d hd)

  abbrev pub step_once :
      Step → Topics Callback × Topics Callback → Topics Callback × Topics Callback
  step_once step (src, dst) =
      move_at step (series_at src step.src) (series_at dst step.dst) (src, dst)

  head-Moved :
      (step : Step) (steps : List Step) (src dst : Topics Callback) (s d : ObjectSeries Callback)
      → All (Disjoint step) steps
      → series_at src step.src ≡ some s
      → series_at dst step.dst ≡ some d
      → Moved (move_all steps (step_once step (src, dst))) step s d
  head-Moved step steps src dst s d a hs hd =
      let m = move_at-Moved step src dst s d hs hd in
      rw (hs, hd)
        (
          move_all_src_other steps _ _ step.src (All-map (λ b h. h.0) steps a) ∙ m.0,
          move_all_dst_other steps _ _ step.dst (All-map (λ b h. h.1) steps a) ∙ m.1,
        )

  -- Carrying out steps that are disjoint moves each of them once, from the series that the tables
  -- held at the start.
  pub move_all-Moved :
      (steps : List Step) (src dst : Topics Callback) (step : Step) (s d : ObjectSeries Callback)
      → Apart Disjoint steps
      → In step steps
      → series_at src step.src ≡ some s
      → series_at dst step.dst ≡ some d
      → Moved (move_all steps (src, dst)) step s d
  unfolding move_all
  move_all-Moved [] src dst step s d a h hs hd = absurd h.1
  move_all-Moved (x ∷ steps) src dst step s d a (inl e) hs hd =
      subst (λ y. Moved (move_all steps (step_once x (src, dst))) y s d) (sym e)
        (head-Moved x steps src dst s d a.0 (subst (λ y. series_at src y.src ≡ some s) e hs)
          (subst (λ y. series_at dst y.dst ≡ some d) e hd))
  move_all-Moved (x ∷ steps) src dst step s d a (inr h) hs hd =
      let n = In-All (Disjoint x) step steps a.0 h in
      let t = step_once x (src, dst) in
      move_all-Moved steps t.0 t.1 step s d a.1 h
        (move_at_src_other x _ _ src dst step.src (λ e. n.0 (sym e)) ∙ hs)
        (move_at_dst_other x _ _ src dst step.dst (λ e. n.1 (sym e)) ∙ hd)
