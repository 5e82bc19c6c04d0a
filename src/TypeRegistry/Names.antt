-- ===== src/TypeRegistry/Names.antt =====
-- The association lists of the registry, and registering a schema under a name.
use Prim.Native.String.{String}
use text.Mathlib.Text.{◌==◌ as str_eq}
use text.Mathlib.TextEquality.{eq_iff}
use plotjuggler_core.Prelude.{
  ℕ, ◌+◌, ◌%◌, ◌^◌, ◌≡◌, refl, ap, ap₂, ◌∙◌, sym, subst, inl, inr, Bool, true, false, Bool-cases,
  Option, none, some, Option-cases, List, [], ◌∷◌, ◌++◌, ◌==◌, if◌then◌else◌, arith,
}
use plotjuggler_core.TypeTree.{TypeTreeNode}
use plotjuggler_core.TypeRegistry.{
  find_id, find_text, emplace_id, emplace_text, assign_id, Result, ok, TypeRegistry,
  register_schema, register_or_get, find_by_name,
}

pub str_eq_self : (s : String) → str_eq s s ≡ true
str_eq_self s = (eq_iff s s).1 refl

pub str_eq→eq : (s t : String) → str_eq s t ≡ true → s ≡ t
str_eq→eq s t h = (eq_iff s t).0 h

-- The first answer, or else the second.
abbrev pub or_else {ℓ} : {A : Type ℓ} → Option A → Option A → Option A
or_else (some a) b = some a
or_else none b = b

or_else-none {ℓ} : {A : Type ℓ} (o : Option A) → o ≡ or_else o none
or_else-none none = refl
or_else-none (some b) = refl

module _ {A : Type 0} where
  find_text-snoc :
      (p text : String) (a : A) (xs : List (String × A))
      → find_text p (xs ++ (text, a) ∷ [])
        ≡ or_else (find_text p xs) (if str_eq text p then some a else none)
  unfolding find_text
  find_text-snoc p text a [] = refl
  find_text-snoc p text a ((key, b) ∷ xs) = elim (Bool-cases (str_eq key p)) [
    | inl e ↦ rw (e, find_text)
    | inr e ↦ rw (e, find_text) (find_text-snoc p text a xs)
  ]

  -- A key that is there keeps its value, and a new key gets the value.
  pub find_text-emplace_text :
      (p text : String) (a : A) (xs : List (String × A))
      → find_text p (emplace_text text a xs)
        ≡ or_else (find_text p xs) (if str_eq text p then some a else none)
  unfolding emplace_text
  find_text-emplace_text p text a xs = elim (Option-cases (find_text text xs)) [
    | inl none_there ↦ rw (none_there, emplace_text) (find_text-snoc p text a xs)
    | inr (b, there) ↦
        rw (there, emplace_text)
          (elim (Bool-cases (str_eq text p)) [
            | inl e ↦
                let same = str_eq→eq text p e in
                let here : find_text p xs ≡ some b =
                  subst (λ (q : String). find_text q xs ≡ some b) same there in
                rw here
            | inr e ↦ rw e (or_else-none (find_text p xs))
          ])
  ]

  find_id-snoc :
      (j id : ℕ) (a b : A) (xs : List (ℕ × A))
      → find_id j xs ≡ some b
      → find_id j (xs ++ (id, a) ∷ []) ≡ some b
  unfolding find_id
  find_id-snoc j id a b [] h = absurd (cc)
  find_id-snoc j id a b ((key, c) ∷ xs) h = elim (Bool-cases (key == j)) [
    | inl e ↦ rw (e, find_id) (rw (e, find_id) at h)
    | inr e ↦ rw (e, find_id) (find_id-snoc j id a b xs (rw (e, find_id) at h))
  ]

  pub find_id-emplace_id :
      (j id : ℕ) (a b : A) (xs : List (ℕ × A))
      → find_id j xs ≡ some b
      → find_id j (emplace_id id a xs) ≡ some b
  unfolding emplace_id
  find_id-emplace_id j id a b xs h = elim (Option-cases (find_id id xs)) [
    | inl e ↦ rw (e, emplace_id) (find_id-snoc j id a b xs h)
    | inr (c, e) ↦ rw (e, emplace_id) h
  ]

  pub find_id-assign_id_same :
      (id : ℕ) (a b : A) (xs : List (ℕ × A))
      → find_id id xs ≡ some b
      → find_id id (assign_id id a xs) ≡ some a
  unfolding find_id assign_id
  find_id-assign_id_same id a b [] h = absurd (cc)
  find_id-assign_id_same id a b ((key, c) ∷ xs) h = elim (Bool-cases (key == id)) [
    | inl e ↦ rw (e, find_id, assign_id) (rw e)
    | inr e ↦
        rw (e, assign_id)
          (rw (e, find_id) (find_id-assign_id_same id a b xs (rw (e, find_id) at h)))
  ]

  pub find_id-assign_id_other :
      (j id : ℕ) (a : A) (xs : List (ℕ × A))
      → (j == id) ≡ false
      → find_id j (assign_id id a xs) ≡ find_id j xs
  unfolding find_id assign_id
  find_id-assign_id_other j id a [] h = refl
  find_id-assign_id_other j id a ((key, c) ∷ xs) h = elim (Bool-cases (key == id)) [
    | inl e ↦
        let other : (key == j) ≡ false = ground arith in rw (e, assign_id) (rw (other, find_id))
    | inr e ↦
        rw (e, assign_id)
          (elim (Bool-cases (key == j)) [
            | inl k ↦ rw (k, find_id)
            | inr k ↦ rw (k, find_id) (find_id-assign_id_other j id a xs h)
          ])
  ]

-- What `registerOrGet` does: under some id it answers, that id is found by the name from then
-- on, every other name finds what it found before, and the same call again, with any tree,
-- answers the same id and changes nothing.
abbrev pub Registered : String → TypeRegistry → TypeRegistry × Result ℕ → Type 0
Registered name r result =
    (id : ℕ) × (result.1 ≡ ok id)
    × (find_by_name name result.0 ≡ some id)
    × ((other : String)
        → find_by_name other result.0
          ≡ or_else (find_by_name other r) (if str_eq name other then some id else none))
    × ((tree : TypeTreeNode) → register_or_get name tree result.0 ≡ (result.0, ok id))

register_or_get_known :
    (name : String) (tree : TypeTreeNode) (r : TypeRegistry) (id : ℕ)
    → find_by_name name r ≡ some id
    → register_or_get name tree r ≡ (r, ok id)
unfolding register_or_get find_by_name
register_or_get_known name tree r id h = rw (h, register_or_get)

-- The registry after a new name is registered.
abbrev registered : String → TypeTreeNode → TypeRegistry → TypeRegistry
registered name tree r = record {
  next_id = (r.next_id + 1) % 2 ^ 32;
  schemas = emplace_id r.next_id tree r.schemas;
  name_to_id = emplace_text name r.next_id r.name_to_id;
}

find_by_name-registered :
    (name other : String) (tree : TypeTreeNode) (r : TypeRegistry)
    → find_by_name other (registered name tree r)
      ≡ or_else (find_by_name other r) (if str_eq name other then some r.next_id else none)
unfolding find_by_name
find_by_name-registered name other tree r = find_text-emplace_text other name r.next_id r.name_to_id

-- A name that is known finds what it found.
find_by_name_kept :
    (name other : String) (r : TypeRegistry) (id : ℕ)
    → find_by_name name r ≡ some id
    → find_by_name other r
      ≡ or_else (find_by_name other r) (if str_eq name other then some id else none)
find_by_name_kept name other r id h = elim (Bool-cases (str_eq name other)) [
  | inl e ↦
      let here = subst (λ (q : String). find_by_name q r ≡ some id) (str_eq→eq name other e) h in
      rw here
  | inr e ↦ rw e (or_else-none (find_by_name other r))
]

register_or_get_new :
    (name : String) (tree : TypeTreeNode) (r : TypeRegistry)
    → find_by_name name r ≡ none
    → register_or_get name tree r ≡ (registered name tree r, ok r.next_id)
unfolding register_or_get register_schema find_by_name
register_or_get_new name tree r h = rw (h, register_or_get) (rw (h, register_schema))

-- Registering a schema under a name or getting the id it has: the call answers an id, that id is
-- found by the name from then on, every other name finds what it found before, and the same call
-- again, with any tree, answers the same id and changes nothing.
pub register_or_get-Registered :
    (name : String) (tree : TypeTreeNode) (r : TypeRegistry)
    → Registered name r (register_or_get name tree r)
register_or_get-Registered name tree r = elim (Option-cases (find_by_name name r)) [
  | inl e ↦
      let d = registered name tree r in
      let self : find_by_name name d ≡ some r.next_id =
        find_by_name-registered name name tree r
        ∙ ap₂ or_else e
            (ap (λ (b : Bool). if b then some r.next_id else none) (str_eq_self name)) in
      subst (Registered name r) (sym (register_or_get_new name tree r e)) (
        r.next_id,
        refl,
        self,
        λ other. find_by_name-registered name other tree r,
        λ t. register_or_get_known name t d r.next_id self,
      )
  | inr (id, e) ↦ subst (Registered name r) (sym (register_or_get_known name tree r id e)) (
    id,
    refl,
    e,
    λ other. find_by_name_kept name other r id e,
    λ t. register_or_get_known name t r id e,
  )
]
