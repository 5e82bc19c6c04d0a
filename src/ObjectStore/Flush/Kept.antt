-- ===== src/ObjectStore/Flush/Kept.antt =====
-- A flush keeps both stores well formed, whether it succeeds or not.
use mathlib.Core.Option.{some-injective}
use plotjuggler_core.Prelude.{
  ℕ, zero, suc, ◌+◌, ◌≡◌, refl, ap, ◌∙◌, sym, subst, Bool, true, false, Option, some, none, inl,
  inr, List, [], ◌∷◌, arith, All,
}
use plotjuggler_core.ObjectSeries.{ObjectSeries, Expected, ok, unexpected}
use plotjuggler_core.ObjectSeries.Invariant.{IsValid, apply_retention-IsValid}
use plotjuggler_core.ObjectSeries.Push.{apply_retention-descriptor}
use plotjuggler_core.ObjectStore.{Topics, ObjectStore}
use plotjuggler_core.ObjectStore.WellFormed.{Apart, headers, IsWellFormed}
use plotjuggler_core.ObjectStore.Flush.{
  Step, plan_flush, series_at, put_at, joined, received, emptied, move_at, move_all, finish_flush,
  flush_to,
}
use plotjuggler_core.ObjectStore.Flush.Moves.{
  Disjoint, step_once, move_at_src_other, move_at_dst_other,
}
use plotjuggler_core.ObjectStore.Flush.Plan.{
  PlanStep, Planned, plan_flush-Planned, find_destination-found,
}
use plotjuggler_core.ObjectStore.Flush.Steps.{Planned-Apart}
use plotjuggler_core.ObjectStore.Flush.Outcome.{joined-IsValid, series_at-IsValid}

All-zip :
    {A : Type 0} (P Q R : A → Type 0) (xs : List A)
    → ((x : A) → P x → Q x → R x)
    → All P xs
    → All Q xs
    → All R xs
All-zip P Q R [] f p q = tt
All-zip P Q R (x ∷ xs) f p q = (f x p.0 q.0, All-zip P Q R xs f p.1 q.1)

module _ {Callback : Type 0} where
  abbrev ValidSeries : Topics Callback → Type 0
  ValidSeries ts = All (λ p. IsValid p.1) ts

  emptied-IsValid : (x : ObjectSeries Callback) → IsValid (emptied x)
  unfolding emptied
  emptied-IsValid x = record { mirrored = refl; sorted = tt; counted = refl }

  emptied-descriptor : (x : ObjectSeries Callback) → (emptied x).descriptor ≡ x.descriptor
  unfolding emptied
  emptied-descriptor x = refl

  received-IsValid : (x d : ObjectSeries Callback) → IsValid (joined x d) → IsValid (received x d)
  unfolding received
  received-IsValid x d v = apply_retention-IsValid _ (joined x d) v

  received-descriptor : (x d : ObjectSeries Callback) → (received x d).descriptor ≡ d.descriptor
  unfolding received joined
  received-descriptor x d = apply_retention-descriptor _ (joined x d)

  put_at-valid :
      (ts : Topics Callback) (i : ℕ) (x : ObjectSeries Callback)
      → IsValid x
      → ValidSeries ts
      → ValidSeries (put_at ts i x)
  put_at-valid [] i x v a = tt
  put_at-valid ((t, y) ∷ ts) zero x v a = (v, a.1)
  put_at-valid ((t, y) ∷ ts) (suc i) x v a = (a.0, put_at-valid ts i x v a.1)

  headers-put_at :
      (ts : Topics Callback) (i : ℕ) (x y : ObjectSeries Callback)
      → series_at ts i ≡ some y
      → x.descriptor ≡ y.descriptor
      → headers (put_at ts i x) ≡ headers ts
  headers-put_at [] i x y h d = refl
  headers-put_at ((t, z) ∷ ts) zero x y h d =
      let same : z ≡ y = some-injective z y h in
      ap (λ e. (t, e) ∷ headers ts)
        (d ∙ ap (λ (s : ObjectSeries Callback). s.descriptor) (sym same))
  headers-put_at ((t, z) ∷ ts) (suc i) x y h d =
      ap (◌∷◌ (t, z.descriptor)) (headers-put_at ts i x y h d)

  -- Two tables with the headers of others, and valid series.
  record Keeps (old new : Topics Callback × Topics Callback) : Type 0 where
    src_headers : headers new.0 ≡ headers old.0
    dst_headers : headers new.1 ≡ headers old.1
    src_valid : ValidSeries new.0
    dst_valid : ValidSeries new.1

  -- Where the step would move a series, the destination stays valid.
  abbrev Ready : Topics Callback × Topics Callback → Step → Type 0
  Ready tables step =
      (s d : ObjectSeries Callback)
      → series_at tables.0 step.src ≡ some s
      → series_at tables.1 step.dst ≡ some d
      → IsValid (joined s d)

  move_at-Keeps :
      (step : Step) (a b : Option (ObjectSeries Callback)) (src dst : Topics Callback)
      → series_at src step.src ≡ a
      → series_at dst step.dst ≡ b
      → Ready (src, dst) step
      → ValidSeries src
      → ValidSeries dst
      → Keeps (src, dst) (move_at step a b (src, dst))
  unfolding move_at
  move_at-Keeps step none b src dst ha hb r vs vd = record {
    src_headers = refl;
    dst_headers = refl;
    src_valid = vs;
    dst_valid = vd;
  }
  move_at-Keeps step (some s) none src dst ha hb r vs vd = record {
    src_headers = refl;
    dst_headers = refl;
    src_valid = vs;
    dst_valid = vd;
  }
  move_at-Keeps step (some s) (some d) src dst ha hb r vs vd = record {
    src_headers = headers-put_at src step.src (emptied s) s ha (emptied-descriptor s);
    dst_headers = headers-put_at dst step.dst (received s d) d hb (received-descriptor s d);
    src_valid = put_at-valid src step.src (emptied s) (emptied-IsValid s) vs;
    dst_valid = put_at-valid dst step.dst (received s d) (received-IsValid s d (r s d ha hb)) vd;
  }

  Ready-after :
      (x step : Step) (src dst : Topics Callback)
      → Disjoint x step
      → Ready (src, dst) step
      → Ready (step_once x (src, dst)) step
  Ready-after x step src dst n r s d hs hd =
      r s d (sym (move_at_src_other x _ _ src dst step.src (λ e. n.0 (sym e))) ∙ hs)
        (sym (move_at_dst_other x _ _ src dst step.dst (λ e. n.1 (sym e))) ∙ hd)

  move_all-Keeps :
      (steps : List Step) (src dst : Topics Callback)
      → Apart Disjoint steps
      → All (Ready (src, dst)) steps
      → ValidSeries src
      → ValidSeries dst
      → Keeps (src, dst) (move_all steps (src, dst))
  unfolding move_all
  move_all-Keeps [] src dst a r vs vd = record {
    src_headers = refl;
    dst_headers = refl;
    src_valid = vs;
    dst_valid = vd;
  }
  move_all-Keeps (x ∷ steps) src dst a r vs vd =
      let t = step_once x (src, dst) in
      let k = move_at-Keeps x _ _ src dst refl refl r.0 vs vd in
      let m =
        move_all-Keeps steps t.0 t.1 a.1
          (All-zip (Disjoint x) (Ready (src, dst)) (Ready t) steps
            (λ s n q. Ready-after x s src dst n q) a.0 r.1)
          k.src_valid k.dst_valid in
      record {
        src_headers = m.src_headers ∙ k.src_headers;
        dst_headers = m.dst_headers ∙ k.dst_headers;
        src_valid = m.src_valid;
        dst_valid = m.dst_valid;
      }

  PlanStep-Ready :
      (src dst : Topics Callback) (x : ObjectSeries Callback) (i : ℕ) (step : Step)
      → ValidSeries src
      → ValidSeries dst
      → series_at src i ≡ some x
      → PlanStep dst x i step
      → Ready (src, dst) step
  PlanStep-Ready src dst x i step vs vd h p s d hs hd =
      let f = find_destination-found x.descriptor dst step.dst p.target p.matched in
      let same_d : p.target ≡ d = some-injective _ _ (sym f.0 ∙ hd) in
      let same_s : x ≡ s = some-injective _ _ (sym h ∙ sym (ap (series_at src) p.source) ∙ hs) in
      subst (λ (y : ObjectSeries Callback). IsValid (joined y d)) same_s
        (subst (λ (y : ObjectSeries Callback). IsValid (joined x y)) same_d
          (joined-IsValid x p.target p.front p.rest p.nonempty p.in_order
            (series_at-IsValid src i x vs h) (series_at-IsValid dst step.dst p.target vd f.0)))

  series_at_behind :
      (all : Topics Callback) (t : ℕ) (x : ObjectSeries Callback) (src : Topics Callback) (i : ℕ)
      → ((n : ℕ) → series_at all (i + n) ≡ series_at ((t, x) ∷ src) n)
      → (n : ℕ) → series_at all (i + 1 + n) ≡ series_at src n
  series_at_behind all t x src i h n =
      let e : i + 1 + n ≡ i + suc n = omega arith in rw e (h (suc n))

  -- The plan for the series from position `i` on.
  Planned-Ready :
      (all dst src : Topics Callback) (i : ℕ) (steps : List Step)
      → ((n : ℕ) → series_at all (i + n) ≡ series_at src n)
      → ValidSeries all
      → ValidSeries dst
      → Planned dst src i steps
      → All (Ready (all, dst)) steps
  Planned-Ready all dst [] i steps h va vd p = rw p tt
  Planned-Ready all dst ((t, x) ∷ src) i steps h va vd (inl (e, p)) =
      Planned-Ready all dst src (i + 1) steps (series_at_behind all t x src i h) va vd p
  Planned-Ready all dst ((t, x) ∷ src) i steps h va vd (inr (a, more, e, p, q)) =
      let z : i + 0 ≡ i = omega arith in
      rw e (
        PlanStep-Ready all dst x i a va vd (sym (ap (series_at all) z) ∙ h 0) p,
        Planned-Ready all dst src (i + 1) more (series_at_behind all t x src i h) va vd q,
      )

  Keeps-IsWellFormed :
      (src dst : ObjectStore Callback) (tables : Topics Callback × Topics Callback)
      → IsWellFormed src
      → IsWellFormed dst
      → Keeps (src.topics, dst.topics) tables
      → IsWellFormed (record src { topics = tables.0 })
        × IsWellFormed (record dst { topics = tables.1 })
  Keeps-IsWellFormed src dst tables w wd k = (
    record {
      below = rw k.src_headers w.below;
      apart = rw k.src_headers w.apart;
      valid = k.src_valid;
    },
    record {
      below = rw k.dst_headers wd.below;
      apart = rw k.dst_headers wd.apart;
      valid = k.dst_valid;
    },
  )

  -- A flush between well formed stores leaves both of them well formed.
  pub flush_to-IsWellFormed :
      (same : Bool) (src dst : ObjectStore Callback)
      → IsWellFormed src
      → IsWellFormed dst
      → IsWellFormed (flush_to same src dst).0 × IsWellFormed (flush_to same src dst).1
  unfolding flush_to finish_flush
  flush_to-IsWellFormed true src dst w wd = (w, wd)
  flush_to-IsWellFormed false src dst w wd = go (plan_flush dst.topics src.topics 0) refl
    where
      go :
          (r : Expected (List Step))
          → plan_flush dst.topics src.topics 0 ≡ r
          → IsWellFormed (finish_flush src dst r).0 × IsWellFormed (finish_flush src dst r).1
      go (unexpected e) p = (w, wd)
      go (ok steps) p =
          let q = plan_flush-Planned dst.topics src.topics 0 steps p in
          Keeps-IsWellFormed src dst (move_all steps (src.topics, dst.topics)) w wd (
            move_all-Keeps steps src.topics dst.topics
              (Planned-Apart dst.topics src.topics 0 steps w.apart q)
              (Planned-Ready src.topics dst.topics src.topics 0 steps
                (λ n. ap (series_at src.topics) (omega arith)) w.valid wd.valid q)
              w.valid wd.valid)

  -- A flush takes no id.
  pub next_id-flush_to :
      (same : Bool) (src dst : ObjectStore Callback)
      → ((flush_to same src dst).0.next_id ≡ src.next_id)
        × ((flush_to same src dst).1.next_id ≡ dst.next_id)
  unfolding flush_to finish_flush
  next_id-flush_to true src dst = (refl, refl)
  next_id-flush_to false src dst = go (plan_flush dst.topics src.topics 0)
    where
      go :
          (r : Expected (List Step))
          → ((finish_flush src dst r).0.next_id ≡ src.next_id)
            × ((finish_flush src dst r).1.next_id ≡ dst.next_id)
      go (unexpected e) = (refl, refl)
      go (ok steps) = (refl, refl)
