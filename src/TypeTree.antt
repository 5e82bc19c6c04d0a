-- ===== src/TypeTree.antt =====
-- Schema trees and their leaf paths: pj_base/src/type_tree.cpp with its header. A `shared_ptr` to a
-- node is the node; the children of a struct and the element of an array are never null.
pub mod Leaves
mod Tests
use Prim.Native.String.{String, ◌++◌ as str_append}
use text.Mathlib.Text.{◌==◌ as str_eq}
use plotjuggler_core.Prelude.{
  ℕ, zero, suc, ◌+◌, ◌*◌, ◌/◌, ◌%◌, ◌^◌, Bool, true, false, Option, none, some, List, [], ◌∷◌, ◌++◌,
  ltb, if◌then◌else◌, ℤ,
}
use plotjuggler_core.Encoding.{PrimitiveType}

pub data TypeKind : Type 0 where
  k_primitive : TypeKind
  k_struct : TypeKind
  k_array : TypeKind
  k_enum : TypeKind

pub record EnumMapping : Type 0 where
  pub value_to_name : List (ℤ × String)
  pub name_to_value : List (String × ℤ)

-- The fields of a node that hold no other node.
pub record NodeInfo : Type 0 where
  pub name : String
  pub kind : TypeKind
  pub semantic_tags : List String
  pub primitive_type : Option PrimitiveType
  pub fixed_array_size : Option ℕ
  pub enum_mapping : Option EnumMapping

mutual
  pub data TypeTreeNode : Type 0 where
    node : NodeInfo → Children → Element → TypeTreeNode

  pub data Children : Type 0 where
    no_children : Children
    child : TypeTreeNode → Children → Children

  pub data Element : Type 0 where
    no_element : Element
    element_type : TypeTreeNode → Element

abbrev plain : String → TypeKind → NodeInfo
plain name kind = record {
  name = name;
  kind = kind;
  semantic_tags = [];
  primitive_type = none;
  fixed_array_size = none;
  enum_mapping = none;
}

abbrev pub make_primitive : String → PrimitiveType → TypeTreeNode
make_primitive name type =
    node (record (plain name k_primitive) { primitive_type = some type }) no_children no_element

abbrev pub make_struct : String → Children → TypeTreeNode
make_struct name children = node (plain name k_struct) children no_element

abbrev pub make_array : String → TypeTreeNode → Option ℕ → TypeTreeNode
make_array name element fixed_size =
    node (record (plain name k_array) { fixed_array_size = fixed_size }) no_children
      (element_type element)

abbrev pub make_enum : String → PrimitiveType → EnumMapping → TypeTreeNode
make_enum name underlying_type mapping =
    node
      (record (plain name k_enum) {
        primitive_type = some underlying_type;
        enum_mapping = some mapping;
      })
      no_children no_element

-- `std::to_string` of a 32-bit number, which has at most ten digits.
abbrev digit : ℕ → String
digit zero = "0"
digit (suc zero) = "1"
digit (suc (suc zero)) = "2"
digit (suc (suc (suc zero))) = "3"
digit (suc (suc (suc (suc zero)))) = "4"
digit (suc (suc (suc (suc (suc zero))))) = "5"
digit (suc (suc (suc (suc (suc (suc zero)))))) = "6"
digit (suc (suc (suc (suc (suc (suc (suc zero))))))) = "7"
digit (suc (suc (suc (suc (suc (suc (suc (suc zero)))))))) = "8"
digit _ = "9"

digits : ℕ → ℕ → String
digits zero n = ""
digits (suc k) n =
    let high = digits k (n / 10) in if ltb n 10 then digit n else str_append high (digit (n % 10))

unfoldable pub to_string : ℕ → String
unfolding digits
to_string = digits 10

unfoldable pub join_path : String → String → String
join_path prefix name = if str_eq prefix "" then name else str_append prefix (str_append "." name)

unfoldable pub indexed_path : String → ℕ → String
unfolding to_string
indexed_path path index = str_append path (str_append "[" (str_append (to_string index) "]"))

-- The loop over the elements of an array, `count` of them from `index` on.
unfoldable pub flatten_elements : (String → List String) → String → ℕ → ℕ → List String
flatten_elements flatten path zero index = []
flatten_elements flatten path (suc count) index =
    flatten (indexed_path path index) ++ flatten_elements flatten path count (index + 1)

unfoldable mutual
  unfolding flatten_elements

  pub flatten_node : TypeTreeNode → String → List String
  flatten_node (node info children element) prefix = elim info.kind [
    | k_struct ↦ flatten_children children (join_path prefix info.name)
    | k_array ↦ flatten_element element info.fixed_array_size (join_path prefix info.name)
    | _ ↦ join_path prefix info.name ∷ []
  ]

  pub flatten_children : Children → String → List String
  flatten_children no_children path = []
  flatten_children (child c cs) path = flatten_node c path ++ flatten_children cs path

  pub flatten_element : Element → Option ℕ → String → List String
  flatten_element no_element size path = []
  flatten_element (element_type e) none path = []
  flatten_element (element_type e) (some count) path =
      flatten_elements (λ prefix. flatten_node e prefix) path count 0

-- The name and the children of the root are looked at: a struct's own name is no part of the
-- paths.
unfoldable pub flatten_field_paths : TypeTreeNode → List String
unfolding flatten_node
flatten_field_paths (node info children _) = elim info.kind [
  | k_struct ↦ flatten_children children ""
  | _ ↦ info.name ∷ []
]

abbrev pub u64 : ℕ → ℕ
u64 n = n % 2 ^ 64

-- `std::size_t` has 64 bits.
unfoldable mutual
  pub count_leaf_fields : TypeTreeNode → ℕ
  count_leaf_fields (node info children element) = elim info.kind [
    | k_struct ↦ count_children children
    | k_array ↦ count_element element info.fixed_array_size
    | _ ↦ 1
  ]

  pub count_children : Children → ℕ
  count_children no_children = 0
  count_children (child c cs) = u64 (count_leaf_fields c + count_children cs)

  pub count_element : Element → Option ℕ → ℕ
  count_element no_element size = 0
  count_element (element_type e) none = 0
  count_element (element_type e) (some count) = u64 (count * count_leaf_fields e)
