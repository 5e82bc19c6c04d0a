-- ===== src/Engine/Ids.antt =====
-- The ids that a commit reports: sorted, and each of them once.
use plotjuggler_core.Prelude.{
  ℕ, ◌<◌, ◌≤◌, ◌≡◌, refl, ap, ◌∙◌, sym, inl, inr, Bool, true, false, ◌||◌, Bool-cases, List, [],
  ◌∷◌, ◌++◌, All, All-map, leb, ◌==◌, arith,
}
use plotjuggler_core.Engine.{insert, sort, unique}

abbrev pub elem : ℕ → List ℕ → Bool
elem a [] = false
elem a (b ∷ bs) = (b == a) || elem a bs

pub elem-append : (a : ℕ) (xs ys : List ℕ) → elem a (xs ++ ys) ≡ (elem a xs || elem a ys)
elem-append a [] ys = refl
elem-append a (x ∷ xs) ys =
    ap (◌||◌ (x == a)) (elem-append a xs ys) ∙ regroup (x == a) (elem a xs) (elem a ys)
  where
    regroup : (p q r : Bool) → (p || (q || r)) ≡ ((p || q) || r)
    regroup true q r = refl
    regroup false q r = refl

-- Each id of an increasing list is less than all behind it.
abbrev pub Increasing : List ℕ → Type 0
Increasing [] = Unit
Increasing (a ∷ bs) = All (λ b. a < b) bs × Increasing bs

abbrev NonDecreasing : List ℕ → Type 0
NonDecreasing [] = Unit
NonDecreasing (a ∷ bs) = All (λ b. a ≤ b) bs × NonDecreasing bs

elem-insert : (x a : ℕ) (xs : List ℕ) → elem x (insert a xs) ≡ ((a == x) || elem x xs)
unfolding insert
elem-insert x a [] = refl
elem-insert x a (b ∷ bs) = elim (Bool-cases (leb a b)) [
  | inl e ↦ rw (e, insert)
  | inr e ↦
      rw (e, insert) (ap (◌||◌ (b == x)) (elem-insert x a bs) ∙ swap (b == x) (a == x) (elem x bs))
]
  where
    swap : (p q r : Bool) → (p || (q || r)) ≡ (q || (p || r))
    swap true true r = refl
    swap true false r = refl
    swap false q r = refl

pub elem-sort : (x : ℕ) (xs : List ℕ) → elem x (sort xs) ≡ elem x xs
unfolding sort
elem-sort x [] = refl
elem-sort x (a ∷ xs) = elem-insert x a (sort xs) ∙ ap (◌||◌ (a == x)) (elem-sort x xs)

All-insert : (P : ℕ → Type 0) (a : ℕ) (xs : List ℕ) → P a → All P xs → All P (insert a xs)
unfolding insert
All-insert P a [] h hs = (h, tt)
All-insert P a (b ∷ bs) h hs = elim (Bool-cases (leb a b)) [
  | inl e ↦ rw (e, insert) (h, hs)
  | inr e ↦ rw (e, insert) (hs.0, All-insert P a bs h hs.1)
]

insert-NonDecreasing : (a : ℕ) (xs : List ℕ) → NonDecreasing xs → NonDecreasing (insert a xs)
unfolding insert
insert-NonDecreasing a [] h = (tt, tt)
insert-NonDecreasing a (b ∷ bs) h = elim (Bool-cases (leb a b)) [
  | inl e ↦
      let le : a ≤ b = ground arith in rw (e, insert) ((le, All-map (λ c l. omega arith) bs h.0), h)
  | inr e ↦
      let le : b ≤ a = ground arith in
      rw (e, insert) (All-insert (λ c. b ≤ c) a bs le h.0, insert-NonDecreasing a bs h.1)
]

pub sort-NonDecreasing : (xs : List ℕ) → NonDecreasing (sort xs)
unfolding sort
sort-NonDecreasing [] = tt
sort-NonDecreasing (a ∷ xs) = insert-NonDecreasing a (sort xs) (sort-NonDecreasing xs)

All-unique : (P : ℕ → Type 0) (xs : List ℕ) → All P xs → All P (unique xs)
unfolding unique
All-unique P [] h = h
All-unique P (a ∷ []) h = h
All-unique P (a ∷ b ∷ bs) h = elim (Bool-cases (a == b)) [
  | inl e ↦ rw (e, unique) (All-unique P (b ∷ bs) h.1)
  | inr e ↦ rw (e, unique) (h.0, All-unique P (b ∷ bs) h.1)
]

pub unique-Increasing : (xs : List ℕ) → NonDecreasing xs → Increasing (unique xs)
unfolding unique
unique-Increasing [] h = tt
unique-Increasing (a ∷ []) h = (tt, tt)
unique-Increasing (a ∷ b ∷ bs) h = elim (Bool-cases (a == b)) [
  | inl e ↦ rw (e, unique) (unique-Increasing (b ∷ bs) h.1)
  | inr e ↦
      let lt : a < b = less a b h.0.0 e in
      rw (e, unique)
        (
          All-unique (λ c. a < c) (b ∷ bs) (lt, All-map (λ c l. omega arith) bs h.1.0),
          unique-Increasing (b ∷ bs) h.1,
        )
]
  where
    less : (m n : ℕ) → m ≤ n → (m == n) ≡ false → m < n
    less m n le ne = ground arith

pub elem-unique : (x : ℕ) (xs : List ℕ) → elem x (unique xs) ≡ elem x xs
unfolding unique
elem-unique x [] = refl
elem-unique x (a ∷ []) = refl
elem-unique x (a ∷ b ∷ bs) = elim (Bool-cases (a == b)) [
  | inl e ↦
      let same : a ≡ b = ground arith in
      rw (e, unique)
        (elem-unique x (b ∷ bs)
          ∙ again (b == x) (elem x bs)
          ∙ ap (λ (n : ℕ). (n == x) || elem x (b ∷ bs)) (sym same))
  | inr e ↦ rw (e, unique) (ap (◌||◌ (a == x)) (elem-unique x (b ∷ bs)))
]
  where
    again : (p q : Bool) → (p || q) ≡ (p || (p || q))
    again true q = refl
    again false q = refl
