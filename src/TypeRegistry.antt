-- ===== src/TypeRegistry.antt =====
-- The registry of schemas: pj_datastore/src/type_registry.cpp. Its two hash maps are association
-- lists, in which `emplace` adds a key only where there is none.
pub mod Evolution
pub mod Names
pub mod Runs
mod Tests
use Prim.Native.String.{String}
use text.Mathlib.Text.{◌==◌ as str_eq}
use plotjuggler_core.Prelude.{
  ℕ, zero, suc, ◌+◌, ◌%◌, ◌^◌, ◌≡◌, Bool, true, false, Option, none, some, List, [], ◌∷◌, ◌++◌,
  ◌==◌, if◌then◌else◌,
}
use plotjuggler_core.Encoding.{
  PrimitiveType, float32, float64, int8, int16, int32, int64, uint8, uint16, uint32, uint64, bool,
  string, unspecified,
}
use plotjuggler_core.TypeTree.{
  TypeTreeNode, node, NodeInfo, TypeKind, k_primitive, k_struct, k_array, k_enum, Children,
  no_children, child, Element, no_element, element_type, join_path,
}

-- A path and the type of the field there.
abbrev pub Leaves : Type 0
Leaves = List (String × PrimitiveType)

abbrev leaf : String → Option PrimitiveType → Leaves
leaf path none = []
leaf path (some t) = (path, t) ∷ []

abbrev primitive_type_of : TypeTreeNode → Option PrimitiveType
primitive_type_of (node info _ _) = info.primitive_type

abbrev element_leaf : String → Element → Leaves
element_leaf path no_element = []
element_leaf path (element_type e) = leaf path (primitive_type_of e)

unfoldable mutual
  pub leaf_types_node : TypeTreeNode → String → Leaves
  leaf_types_node (node info children element) prefix = elim info.kind [
    | k_primitive ↦ leaf (join_path prefix info.name) info.primitive_type
    | k_enum ↦ leaf (join_path prefix info.name) info.primitive_type
    | k_array ↦ element_leaf (join_path prefix info.name) element
    | k_struct ↦ leaf_types_children children (join_path prefix info.name)
  ]

  pub leaf_types_children : Children → String → Leaves
  leaf_types_children no_children path = []
  leaf_types_children (child c cs) path = leaf_types_node c path ++ leaf_types_children cs path

unfoldable pub flatten_leaf_types : TypeTreeNode → Leaves
unfolding leaf_types_node
flatten_leaf_types (node info children _) = elim info.kind [
  | k_struct ↦ leaf_types_children children ""
  | _ ↦ leaf info.name info.primitive_type
]

module _ {A : Type 0} where
  unfoldable pub find_id : ℕ → List (ℕ × A) → Option A
  find_id id [] = none
  find_id id ((key, a) ∷ rest) = if key == id then some a else find_id id rest

  unfoldable pub find_text : String → List (String × A) → Option A
  find_text text [] = none
  find_text text ((key, a) ∷ rest) = if str_eq key text then some a else find_text text rest

  unfoldable pub emplace_id : ℕ → A → List (ℕ × A) → List (ℕ × A)
  emplace_id id a entries = elim (find_id id entries) [
    | none ↦ entries ++ (id, a) ∷ []
    | some _ ↦ entries
  ]

  unfoldable pub emplace_text : String → A → List (String × A) → List (String × A)
  emplace_text text a entries = elim (find_text text entries) [
    | none ↦ entries ++ (text, a) ∷ []
    | some _ ↦ entries
  ]

  -- The value an iterator points to, replaced.
  unfoldable pub assign_id : ℕ → A → List (ℕ × A) → List (ℕ × A)
  assign_id id a [] = []
  assign_id id a ((key, old) ∷ rest) =
      if key == id then (key, a) ∷ rest else (key, old) ∷ assign_id id a rest

pub data RegistryError : Type 0 where
  already_registered : String → RegistryError
  schema_not_found : ℕ → RegistryError
  field_removed : String → RegistryError
  field_changed_type : String → RegistryError

pub data Result (A : Type 0) : Type 0 where
  ok : A → Result A
  unexpected : RegistryError → Result A

pub record TypeRegistry : Type 0 where
  pub next_id : ℕ
  pub schemas : List (ℕ × TypeTreeNode)
  pub name_to_id : List (String × ℕ)

-- `next_id` is a `uint32_t`.
unfoldable pub register_schema : String → TypeTreeNode → TypeRegistry → TypeRegistry × Result ℕ
register_schema name tree r = elim (find_text name r.name_to_id) [
  | some id ↦ (r, unexpected (already_registered name))
  | none ↦ (
    record {
      next_id = (r.next_id + 1) % 2 ^ 32;
      schemas = emplace_id r.next_id tree r.schemas;
      name_to_id = emplace_text name r.next_id r.name_to_id;
    },
    ok r.next_id,
  )
]

unfoldable pub register_or_get : String → TypeTreeNode → TypeRegistry → TypeRegistry × Result ℕ
register_or_get name tree r = elim (find_text name r.name_to_id) [
  | some id ↦ (r, ok id)
  | none ↦ register_schema name tree r
]

unfoldable pub lookup : ℕ → TypeRegistry → Option TypeTreeNode
lookup id r = find_id id r.schemas

unfoldable pub find_by_name : String → TypeRegistry → Option ℕ
find_by_name name r = find_text name r.name_to_id

-- The map of the new leaves, of which the first with a path stays.
unfoldable pub leaf_map : Leaves → Leaves → Leaves
leaf_map [] entries = entries
leaf_map ((path, t) ∷ leaves) entries = leaf_map leaves (emplace_text path t entries)

-- The number of a type in its enumeration.
abbrev type_number : PrimitiveType → ℕ
type_number float32 = 0
type_number float64 = 1
type_number int8 = 2
type_number int16 = 3
type_number int32 = 4
type_number int64 = 5
type_number uint8 = 6
type_number uint16 = 7
type_number uint32 = 8
type_number uint64 = 9
type_number bool = 10
type_number string = 11
type_number unspecified = 12

abbrev pub same_type : PrimitiveType → PrimitiveType → Bool
same_type a b = type_number a == type_number b

-- The first old leaf that the new tree does not have, or has with another type.
unfoldable pub check_leaves : Leaves → Leaves → Option RegistryError
check_leaves [] new_leaves = none
check_leaves ((path, t) ∷ old_leaves) new_leaves = elim (find_text path new_leaves) [
  | none ↦ some (field_removed path)
  | some u ↦
      if same_type u t then check_leaves old_leaves new_leaves else some (field_changed_type path)
]

unfoldable pub evolve_schema : ℕ → TypeTreeNode → TypeRegistry → TypeRegistry × Result Unit
evolve_schema id updated_tree r = elim (find_id id r.schemas) [
  | none ↦ (r, unexpected (schema_not_found id))
  | some old_tree ↦
      elim (check_leaves (flatten_leaf_types old_tree)
        (leaf_map (flatten_leaf_types updated_tree) [])) [
          | some e ↦ (r, unexpected e)
          | none ↦ (record r { schemas = assign_id id updated_tree r.schemas }, ok tt)
        ]
]
