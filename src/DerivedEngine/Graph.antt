-- ===== src/DerivedEngine/Graph.antt =====
-- What is upstream of a node's inputs, and how much of it a search has left.
use plotjuggler_core.Prelude.{
  ℕ, ◌+◌, ◌≤◌, ◌≡◌, refl, sym, subst, ◌⊎◌, inl, inr, Bool, true, false, ◌||◌, Bool-cases, List, [],
  ◌∷◌, All, length, ◌==◌, arith,
}
use plotjuggler_core.TypeRegistry.{find_id}
use plotjuggler_core.Engine.Ids.{elem}
use plotjuggler_core.DerivedEngine.{
  DerivedGraph, inputs_of, node_of, upstream, push_new, edges_left,
}

-- A topic that the inputs depend on: one of them, or an input of the node that produces such a
-- topic.
pub data Reaches (g : DerivedGraph) (inputs : List ℕ) : ℕ → Type 0 where
  input : (t : ℕ) → elem t inputs ≡ true → Reaches g inputs t
  behind : (t u : ℕ) → Reaches g inputs t → elem u (upstream g t) ≡ true → Reaches g inputs u

or_true : (b : Bool) → (b || true) ≡ true
or_true true = refl
or_true false = refl

pub elem_here : (a : ℕ) (xs : List ℕ) → elem a (a ∷ xs) ≡ true
elem_here a xs = let e : (a == a) ≡ true = ground arith in rw e

pub elem_later : (a b : ℕ) (xs : List ℕ) → elem b xs ≡ true → elem b (a ∷ xs) ≡ true
elem_later a b xs h = rw h (or_true (a == b))

pub elem_split : (a b : ℕ) (xs : List ℕ) → elem b (a ∷ xs) ≡ true → (a ≡ b) ⊎ (elem b xs ≡ true)
elem_split a b xs h = elim (Bool-cases (a == b)) [
  | inl e ↦ inl (ground arith)
  | inr e ↦ inr (rw e at h)
]

pub All-push_new :
    (P : ℕ → Type 0) (ts visited stack : List ℕ)
    → ((t : ℕ) → elem t ts ≡ true → P t)
    → All P stack
    → All P (push_new ts visited stack)
unfolding push_new
All-push_new P [] visited stack h hs = hs
All-push_new P (t ∷ ts) visited stack h hs = elim (Bool-cases (elem t visited)) [
  | inl e ↦ rw e (All-push_new P ts visited stack (λ u m. h u (elem_later t u ts m)) hs)
  | inr e ↦ rw e (
      All-push_new P ts visited (t ∷ stack) (λ u m. h u (elem_later t u ts m))
        (h t (elem_here t ts), hs))
]

-- What is on the stack stays there, and what is pushed is on it or visited.
pub elem-push_new_stack :
    (u : ℕ) (ts visited stack : List ℕ)
    → elem u stack ≡ true
    → elem u (push_new ts visited stack) ≡ true
unfolding push_new
elem-push_new_stack u [] visited stack h = h
elem-push_new_stack u (t ∷ ts) visited stack h = elim (Bool-cases (elem t visited)) [
  | inl e ↦ rw e (elem-push_new_stack u ts visited stack h)
  | inr e ↦ rw e (elem-push_new_stack u ts visited (t ∷ stack) (elem_later t u stack h))
]

pub elem-push_new :
    (u : ℕ) (ts visited stack : List ℕ)
    → elem u ts ≡ true
    → (elem u visited ≡ true) ⊎ (elem u (push_new ts visited stack) ≡ true)
unfolding push_new
elem-push_new u [] visited stack h = absurd (cc)
elem-push_new u (t ∷ ts) visited stack h = elim (Bool-cases (t == u)) [
  | inl same ↦
      let eq : t ≡ u = ground arith in
      elim (Bool-cases (elem t visited)) [
        | inl e ↦ inl (subst (λ (x : ℕ). elem x visited ≡ true) eq e)
        | inr e ↦ inr (rw e (elem-push_new_stack u ts visited (t ∷ stack) (rw same)))
      ]
  | inr other ↦
      let rest : elem u ts ≡ true = rw other at h in
      elim (Bool-cases (elem t visited)) [
        | inl e ↦ rw e (elem-push_new u ts visited stack rest)
        | inr e ↦ rw e (elem-push_new u ts visited (t ∷ stack) rest)
      ]
]

pub length-push_new :
    (ts visited stack : List ℕ) → length (push_new ts visited stack) ≤ length ts + length stack
unfolding push_new
length-push_new [] visited stack = omega arith
length-push_new (t ∷ ts) visited stack = elim (Bool-cases (elem t visited)) [
  | inl e ↦ rw e (omega (arith, length-push_new ts visited stack))
  | inr e ↦ rw e (omega (arith, length-push_new ts visited (t ∷ stack)))
]

-- Visiting a topic takes edges away, and those to its inputs for sure.
edges_left_mono :
    (g : DerivedGraph) (t : ℕ) (visited : List ℕ) (es : List (ℕ × ℕ))
    → edges_left g (t ∷ visited) es ≤ edges_left g visited es
unfolding edges_left
edges_left_mono g t visited [] = omega arith
edges_left_mono g t visited ((k, p) ∷ es) = ground (arith, edges_left_mono g t visited es)

edges_left_visit :
    (g : DerivedGraph) (t : ℕ) (visited : List ℕ) (es : List (ℕ × ℕ))
    → elem t visited ≡ false
    → edges_left g (t ∷ visited) es + length (inputs_of (node_of (find_id t es) g.nodes))
      ≤ edges_left g visited es
unfolding edges_left find_id
edges_left_visit g t visited [] h = omega arith
edges_left_visit g t visited ((k, p) ∷ es) h = elim (Bool-cases (k == t)) [
  | inl same ↦
      let eq : k ≡ t = ground arith in
      let old : elem k visited ≡ false = subst (λ (x : ℕ). elem x visited ≡ false) (sym eq) h in
      let flip : (t == k) ≡ true = ground arith in
      rw (same, old, flip) (omega (arith, edges_left_mono g t visited es))
  | inr other ↦
      let flip : (t == k) ≡ false = ground arith in
      rw (other, flip) (omega (arith, edges_left_visit g t visited es h))
]

pub edges_left-upstream :
    (g : DerivedGraph) (t : ℕ) (visited : List ℕ)
    → elem t visited ≡ false
    → edges_left g (t ∷ visited) g.output_topic_to_node + length (upstream g t)
      ≤ edges_left g visited g.output_topic_to_node
unfolding upstream
edges_left-upstream g t visited h = edges_left_visit g t visited g.output_topic_to_node h
