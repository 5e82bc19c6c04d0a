-- ===== src/DerivedEngine/Cycle.antt =====
-- The search for a cycle ends, finds one when there is one, and finds nothing else.
use plotjuggler_core.Prelude.{
  ℕ, zero, suc, ◌+◌, ◌<◌, ◌≡◌, refl, sym, subst, ◌⊎◌, inl, inr, true, false, Bool-cases, List, [],
  ◌∷◌, All, length, arith,
}
use plotjuggler_core.Engine.Ids.{elem}
use plotjuggler_core.DerivedEngine.{
  DerivedGraph, upstream, push_new, Search, no_cycle, cycle_at, search, edges_left, check_cycle,
}
use plotjuggler_core.DerivedEngine.Graph.{
  Reaches, input, behind, elem_here, elem_later, elem_split, All-push_new, elem-push_new_stack,
  elem-push_new, length-push_new, edges_left-upstream,
}

module _ (g : DerivedGraph) (inputs outputs : List ℕ) where
  Seen : List ℕ → List ℕ → ℕ → Type 0
  Seen stack visited t = (elem t visited ≡ true) ⊎ (elem t stack ≡ true)

  -- What holds of the stack and the visited topics in each round.
  record Inv (stack visited : List ℕ) : Type 0 where
    reached : All (Reaches g inputs) stack
    started : (t : ℕ) → elem t inputs ≡ true → Seen stack visited t
    closed : (t u : ℕ) → elem t visited ≡ true → elem u (upstream g t) ≡ true → Seen stack visited u
    clean : (t : ℕ) → elem t visited ≡ true → elem t outputs ≡ false

  Found : Search → Type 0
  Found s = (t : ℕ) × (s ≡ cycle_at t) × Reaches g inputs t × (elem t outputs ≡ true)

  Answer : Search → Type 0
  unfolding Found
  Answer s = Found s ⊎ ((s ≡ no_cycle) × ((t : ℕ) → Reaches g inputs t → elem t outputs ≡ false))

  Seen-skip :
      (t u : ℕ) (stack visited : List ℕ)
      → elem t visited ≡ true
      → Seen (t ∷ stack) visited u
      → Seen stack visited u
  unfolding Seen
  Seen-skip t u stack visited e (inl h) = inl h
  Seen-skip t u stack visited e (inr h) = elim (elem_split t u stack h) [
    | inl same ↦ inl (subst (λ (x : ℕ). elem x visited ≡ true) same e)
    | inr on ↦ inr on
  ]

  skip-Inv :
      (t : ℕ) (stack visited : List ℕ)
      → elem t visited ≡ true
      → Inv (t ∷ stack) visited
      → Inv stack visited
  skip-Inv t stack visited e i = record {
    reached = i.reached.1;
    started = λ u m. Seen-skip t u stack visited e (i.started u m);
    closed = λ a u v m. Seen-skip t u stack visited e (i.closed a u v m);
    clean = i.clean;
  }

  -- What was on the stack or visited still is when a topic is visited.
  Seen-visit :
      (t u : ℕ) (more stack visited : List ℕ)
      → Seen (t ∷ stack) visited u
      → Seen (push_new more (t ∷ visited) stack) (t ∷ visited) u
  unfolding Seen
  Seen-visit t u more stack visited (inl h) = inl (elem_later t u visited h)
  Seen-visit t u more stack visited (inr h) = elim (elem_split t u stack h) [
    | inl same ↦ inl (subst (λ (x : ℕ). elem x (t ∷ visited) ≡ true) same (elem_here t visited))
    | inr on ↦ inr (elem-push_new_stack u more (t ∷ visited) stack on)
  ]

  visit-Inv :
      (t : ℕ) (stack visited : List ℕ)
      → elem t outputs ≡ false
      → Inv (t ∷ stack) visited
      → Inv (push_new (upstream g t) (t ∷ visited) stack) (t ∷ visited)
  unfolding Seen
  visit-Inv t stack visited o i = record {
    reached =
        All-push_new (Reaches g inputs) (upstream g t) (t ∷ visited) stack
          (λ u m. behind t u i.reached.0 m) i.reached.1;
    started = λ u m. Seen-visit t u (upstream g t) stack visited (i.started u m);
    closed = λ a u v m. elim (elem_split t a visited v) [
      | inl same ↦
          elem-push_new u (upstream g t) (t ∷ visited) stack
            (subst (λ (x : ℕ). elem u (upstream g x) ≡ true) (sym same) m)
      | inr old ↦ Seen-visit t u (upstream g t) stack visited (i.closed a u old m)
    ];
    clean = λ a v. elim (elem_split t a visited v) [
      | inl same ↦ subst (λ (x : ℕ). elem x outputs ≡ false) same o
      | inr old ↦ i.clean a old
    ];
  }

  -- With an empty stack every topic that is reached is visited.
  Reaches-visited :
      (visited : List ℕ) → Inv [] visited → (t : ℕ) → Reaches g inputs t → elem t visited ≡ true
  unfolding Seen
  Reaches-visited visited i t (input _ m) = elim (i.started t m) [ inl h ↦ h | inr h ↦ absurd (cc) ]
  Reaches-visited visited i u (behind t _ r m) =
      elim (i.closed t u (Reaches-visited visited i t r) m) [ inl h ↦ h | inr h ↦ absurd (cc) ]

  search-Answer :
      (fuel : ℕ) (stack visited : List ℕ)
      → length stack + edges_left g visited g.output_topic_to_node < fuel
      → Inv stack visited
      → Answer (search fuel g outputs stack visited)
  unfolding search Answer
  search-Answer zero stack visited lt i = absurd (omega arith)
  search-Answer (suc fuel) [] visited lt i =
      inr (refl, λ t r. i.clean t (Reaches-visited visited i t r))
  search-Answer (suc fuel) (t ∷ stack) visited lt i = elim (Bool-cases (elem t visited)) [
    | inl e ↦
        rw (e, search)
          (search-Answer fuel stack visited (omega arith) (skip-Inv t stack visited e i))
    | inr e ↦ elim (Bool-cases (elem t outputs)) [
      | inl o ↦ rw (e, search) (rw o (inl (t, refl, i.reached.0, o)))
      | inr o ↦
          rw (e, search)
            (rw o (
              search-Answer fuel (push_new (upstream g t) (t ∷ visited) stack) (t ∷ visited)
                (omega (
                  arith,
                  length-push_new (upstream g t) (t ∷ visited) stack,
                  edges_left-upstream g t visited e,
                ))
                (visit-Inv t stack visited o i)))
    ]
  ]

  start-Inv : Inv (push_new inputs [] []) []
  unfolding Seen
  start-Inv = record {
    reached = All-push_new (Reaches g inputs) inputs [] [] (λ t m. input t m) tt;
    started = λ t m. elem-push_new t inputs [] [] m;
    closed = λ t u v m. absurd (cc);
    clean = λ t v. absurd (cc);
  }

  check_cycle-Answer : Answer (check_cycle g inputs outputs)
  unfolding check_cycle
  check_cycle-Answer =
      search-Answer (suc (length inputs + edges_left g [] g.output_topic_to_node))
        (push_new inputs [] []) [] (omega (arith, length-push_new inputs [] [])) start-Inv

-- The search ends: it finds no cycle, or a topic that the inputs depend on and that is one of the
-- outputs.
pub check_cycle_sound :
    (g : DerivedGraph) (inputs outputs : List ℕ)
    → (check_cycle g inputs outputs ≡ no_cycle)
      ⊎ ((t : ℕ) × (check_cycle g inputs outputs ≡ cycle_at t)
          × Reaches g inputs t
          × (elem t outputs ≡ true))
unfolding Answer Found
check_cycle_sound g inputs outputs = elim (check_cycle-Answer g inputs outputs) [
  | inl f ↦ inr f
  | inr (e, none_reached) ↦ inl e
]

-- When one of the outputs is a topic that the inputs depend on, the search reports such a topic.
pub check_cycle_complete :
    (g : DerivedGraph) (inputs outputs : List ℕ) (t : ℕ)
    → Reaches g inputs t
    → elem t outputs ≡ true
    → (u : ℕ) × (check_cycle g inputs outputs ≡ cycle_at u)
      × Reaches g inputs u
      × (elem u outputs ≡ true)
unfolding Answer Found
check_cycle_complete g inputs outputs t r o = elim (check_cycle-Answer g inputs outputs) [
  | inl f ↦ f
  | inr (e, none_reached) ↦ let no : elem t outputs ≡ false = none_reached t r in absurd (cc)
]
