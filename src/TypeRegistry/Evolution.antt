-- ===== src/TypeRegistry/Evolution.antt =====
-- `evolveSchema` keeps every field of the schema with its type.
use Prim.Native.String.{String}
use text.Mathlib.Text.{◌==◌ as str_eq}
use plotjuggler_core.Prelude.{
  ℕ, zero, suc, get_elem?, ◌≡◌, ◌≢◌, refl, ap, ◌∙◌, sym, subst, ◌⊎◌, inl, inr, Bool, true, false,
  Bool-cases, Option, none, some, Option-cases, [], ◌∷◌, All, All-map, if◌then◌else◌, arith,
}
use plotjuggler_core.Encoding.{
  PrimitiveType, float32, float64, int8, int16, int32, int64, uint8, uint16, uint32, uint64, bool,
  string, unspecified,
}
use plotjuggler_core.TypeTree.{TypeTreeNode}
use plotjuggler_core.TypeRegistry.{
  Leaves, flatten_leaf_types, find_text, emplace_text, assign_id, Result, ok, unexpected,
  RegistryError, schema_not_found, field_removed, field_changed_type, TypeRegistry, leaf_map,
  type_number, same_type, check_leaves, lookup, evolve_schema,
}
use plotjuggler_core.TypeRegistry.Names.{or_else, find_text-emplace_text}

-- The type with a number.
type_at : ℕ → PrimitiveType
type_at zero = float32
type_at (suc zero) = float64
type_at (suc (suc zero)) = int8
type_at (suc (suc (suc zero))) = int16
type_at (suc (suc (suc (suc zero)))) = int32
type_at (suc (suc (suc (suc (suc zero))))) = int64
type_at (suc (suc (suc (suc (suc (suc zero)))))) = uint8
type_at (suc (suc (suc (suc (suc (suc (suc zero))))))) = uint16
type_at (suc (suc (suc (suc (suc (suc (suc (suc zero)))))))) = uint32
type_at (suc (suc (suc (suc (suc (suc (suc (suc (suc zero))))))))) = uint64
type_at (suc (suc (suc (suc (suc (suc (suc (suc (suc (suc zero)))))))))) = bool
type_at (suc (suc (suc (suc (suc (suc (suc (suc (suc (suc (suc zero))))))))))) = string
type_at _ = unspecified

type_at-type_number : (t : PrimitiveType) → type_at (type_number t) ≡ t
unfolding type_at
type_at-type_number float32 = refl
type_at-type_number float64 = refl
type_at-type_number int8 = refl
type_at-type_number int16 = refl
type_at-type_number int32 = refl
type_at-type_number int64 = refl
type_at-type_number uint8 = refl
type_at-type_number uint16 = refl
type_at-type_number uint32 = refl
type_at-type_number uint64 = refl
type_at-type_number bool = refl
type_at-type_number string = refl
type_at-type_number unspecified = refl

same_type→eq : (a b : PrimitiveType) → same_type a b ≡ true → a ≡ b
same_type→eq a b h =
    let e : type_number a ≡ type_number b = ground arith in
    sym (type_at-type_number a) ∙ ap type_at e ∙ type_at-type_number b

same_type_self : (a : PrimitiveType) → same_type a a ≡ true
same_type_self a = ground arith

-- In the map of the leaves a path finds the first leaf with that path.
find_text-leaf_map :
    (p : String) (leaves entries : Leaves)
    → find_text p (leaf_map leaves entries) ≡ or_else (find_text p entries) (find_text p leaves)
unfolding leaf_map find_text
find_text-leaf_map p [] entries = or_else_nothing (find_text p entries)
  where
    or_else_nothing : (o : Option PrimitiveType) → o ≡ or_else o none
    or_else_nothing none = refl
    or_else_nothing (some t) = refl
find_text-leaf_map p ((path, t) ∷ leaves) entries =
    find_text-leaf_map p leaves (emplace_text path t entries)
    ∙ ap (λ (o : Option PrimitiveType). or_else o (find_text p leaves))
        (find_text-emplace_text p path t entries)
    ∙ regroup (find_text p entries) (str_eq path p) (find_text p leaves)
  where
    regroup :
        (o : Option PrimitiveType) (b : Bool) (rest : Option PrimitiveType)
        → or_else (or_else o (if b then some t else none)) rest
          ≡ or_else o (if b then some t else rest)
    regroup none true rest = refl
    regroup none false rest = refl
    regroup (some u) b rest = refl

-- The field at `path` has the type `t` in the leaves of a tree.
abbrev pub HasField : String → PrimitiveType → TypeTreeNode → Type 0
HasField path t tree = find_text path (flatten_leaf_types tree) ≡ some t

-- Every leaf of `old_leaves` is found with its type.
abbrev pub AllFound : Leaves → Leaves → Type 0
AllFound old_leaves new_leaves =
    All (λ (l : String × PrimitiveType). find_text l.0 new_leaves ≡ some l.1) old_leaves

differ : (u t : PrimitiveType) → same_type u t ≡ false → u ≢ t
differ u t h e =
    let same : same_type u t ≡ true =
      subst (λ (v : PrimitiveType). same_type u v ≡ true) e (same_type_self u) in
    absurd (cc)

-- Why a leaf is refused: the new leaves have none with its path, or one with another type.
abbrev pub Missing : String → PrimitiveType → Leaves → RegistryError → Type 0
Missing path t new_leaves e =
    ((find_text path new_leaves ≡ none) × (e ≡ field_removed path))
    ⊎ ((u : PrimitiveType) × (find_text path new_leaves ≡ some u)
        × (u ≢ t)
        × (e ≡ field_changed_type path))

-- Either every old leaf is found, or one of them is missing and is what the error names.
abbrev Checked : Leaves → Leaves → Option RegistryError → Type 0
Checked old_leaves new_leaves o =
    ((o ≡ none) × AllFound old_leaves new_leaves)
    ⊎ ((i : ℕ) × (path : String) × (t : PrimitiveType) × (e : RegistryError) × (o ≡ some e)
        × (get_elem? old_leaves i ≡ some (path, t))
        × Missing path t new_leaves e)

Checked-cons :
    (path : String) (t : PrimitiveType) (rest new_leaves : Leaves) (o : Option RegistryError)
    → find_text path new_leaves ≡ some t
    → Checked rest new_leaves o
    → Checked ((path, t) ∷ rest) new_leaves o
Checked-cons path t rest new_leaves o h (inl (e, found)) = inl (e, (h, found))
Checked-cons path t rest new_leaves o h (inr (i, p, u, e, oe, at, missing)) =
    inr (suc i, p, u, e, oe, at, missing)

check_leaves-none :
    (path : String) (t : PrimitiveType) (rest new_leaves : Leaves)
    → find_text path new_leaves ≡ none
    → check_leaves ((path, t) ∷ rest) new_leaves ≡ some (field_removed path)
unfolding check_leaves
check_leaves-none path t rest new_leaves e = rw (e, check_leaves)

check_leaves-some :
    (path : String) (t u : PrimitiveType) (rest new_leaves : Leaves)
    → find_text path new_leaves ≡ some u
    → check_leaves ((path, t) ∷ rest) new_leaves
      ≡ (if same_type u t then check_leaves rest new_leaves else some (field_changed_type path))
unfolding check_leaves
check_leaves-some path t u rest new_leaves e = rw (e, check_leaves)

check_leaves_nil : (new_leaves : Leaves) → check_leaves [] new_leaves ≡ none
unfolding check_leaves
check_leaves_nil new_leaves = refl

check_leaves-Checked :
    (old_leaves new_leaves : Leaves)
    → Checked old_leaves new_leaves (check_leaves old_leaves new_leaves)
check_leaves-Checked [] new_leaves = inl (check_leaves_nil new_leaves, tt)
check_leaves-Checked ((path, t) ∷ rest) new_leaves =
    let all : Leaves = (path, t) ∷ rest in
    elim (Option-cases (find_text path new_leaves)) [
      | inl e ↦ inr (
        zero,
        path,
        t,
        field_removed path,
        check_leaves-none path t rest new_leaves e,
        refl,
        inl (e, refl),
      )
      | inr (u, e) ↦ elim (Bool-cases (same_type u t)) [
        | inl same ↦
            let step =
              check_leaves-some path t u rest new_leaves e
              ∙ ap
                  (λ (b : Bool).
                    if b then check_leaves rest new_leaves else some (field_changed_type path))
                  same in
            subst (Checked all new_leaves) (sym step) (
              Checked-cons path t rest new_leaves (check_leaves rest new_leaves)
                (e ∙ ap some (same_type→eq u t same)) (check_leaves-Checked rest new_leaves))
        | inr other ↦
            let step =
              check_leaves-some path t u rest new_leaves e
              ∙ ap
                  (λ (b : Bool).
                    if b then check_leaves rest new_leaves else some (field_changed_type path))
                  other in
            inr (
              zero,
              path,
              t,
              field_changed_type path,
              step,
              refl,
              inr (u, e, differ u t other, refl),
            )
      ]
    ]

find_text-new_map :
    (p : String) (new_leaves : Leaves)
    → find_text p (leaf_map new_leaves []) ≡ find_text p new_leaves
unfolding find_text
find_text-new_map p new_leaves = find_text-leaf_map p new_leaves []

-- The map of the leaves has the answers of the leaves.
Checked-leaf_map :
    (old_leaves new_leaves : Leaves)
    → Checked old_leaves new_leaves (check_leaves old_leaves (leaf_map new_leaves []))
Checked-leaf_map old_leaves new_leaves =
    elim (check_leaves-Checked old_leaves (leaf_map new_leaves [])) [
      | inl (e, found) ↦
          inl (e, All-map (λ l f. sym (find_text-new_map l.0 new_leaves) ∙ f) old_leaves found)
      | inr (i, path, t, e, oe, at, inl (gone, ee)) ↦
          inr (i, path, t, e, oe, at, inl (sym (find_text-new_map path new_leaves) ∙ gone, ee))
      | inr (i, path, t, e, oe, at, inr (u, is, ne, ee)) ↦
          inr (i, path, t, e, oe, at, inr (u, sym (find_text-new_map path new_leaves) ∙ is, ne, ee))
    ]

-- What `evolveSchema` does with a schema whose tree is `old_tree`: it replaces the tree, when
-- every field is found in the new tree with its type, or reports one field that is not, and
-- changes nothing.
abbrev pub Evolved :
    ℕ → TypeTreeNode → TypeTreeNode → TypeRegistry → TypeRegistry × Result Unit → Type 0
Evolved id old_tree updated_tree r result =
    (AllFound (flatten_leaf_types old_tree) (flatten_leaf_types updated_tree)
      × (result ≡ (record r { schemas = assign_id id updated_tree r.schemas }, ok tt)))
    ⊎ ((i : ℕ) × (path : String) × (t : PrimitiveType) × (e : RegistryError) × (get_elem?
            (flatten_leaf_types old_tree) i
          ≡ some (path, t))
        × Missing path t (flatten_leaf_types updated_tree) e
        × (result ≡ (r, unexpected e)))

pub evolve_schema_unknown :
    (id : ℕ) (updated_tree : TypeTreeNode) (r : TypeRegistry)
    → lookup id r ≡ none
    → evolve_schema id updated_tree r ≡ (r, unexpected (schema_not_found id))
unfolding evolve_schema lookup
evolve_schema_unknown id updated_tree r h = rw (h, evolve_schema)

abbrev pub evolution :
    ℕ → TypeTreeNode → TypeRegistry → Option RegistryError → TypeRegistry × Result Unit
evolution id updated_tree r none =
    (record r { schemas = assign_id id updated_tree r.schemas }, ok tt)
evolution id updated_tree r (some e) = (r, unexpected e)

pub evolve_schema_kept :
    (id : ℕ) (old_tree updated_tree : TypeTreeNode) (r : TypeRegistry) (o : Option RegistryError)
    → lookup id r ≡ some old_tree
    → check_leaves (flatten_leaf_types old_tree) (leaf_map (flatten_leaf_types updated_tree) []) ≡ o
    → evolve_schema id updated_tree r ≡ evolution id updated_tree r o
unfolding evolve_schema lookup
evolve_schema_kept id old_tree updated_tree r none h e = rw (h, evolve_schema) (rw e)
evolve_schema_kept id old_tree updated_tree r (some x) h e = rw (h, evolve_schema) (rw e)

-- Evolving a schema that is registered replaces its tree when every leaf field of the old tree
-- is found in the new tree with its type; otherwise it reports a field of the old tree that the
-- new one does not have, or has with another type, and changes nothing.
pub evolve_schema-Evolved :
    (id : ℕ) (old_tree updated_tree : TypeTreeNode) (r : TypeRegistry)
    → lookup id r ≡ some old_tree
    → Evolved id old_tree updated_tree r (evolve_schema id updated_tree r)
evolve_schema-Evolved id old_tree updated_tree r h =
    elim (Checked-leaf_map (flatten_leaf_types old_tree) (flatten_leaf_types updated_tree)) [
      | inl (e, found) ↦ inl (found, evolve_schema_kept id old_tree updated_tree r none h e)
      | inr (i, path, t, e, oe, at, missing) ↦
          inr (
            i,
            path,
            t,
            e,
            at,
            missing,
            evolve_schema_kept id old_tree updated_tree r (some e) h oe,
          )
    ]
