-- ===== src/TypeTree/Leaves.antt =====
-- `countLeafFields` counts the paths that `flattenFieldPaths` lists.
use Prim.Native.String.{String}
use plotjuggler_core.Prelude.{
  ℕ, zero, suc, ◌+◌, ◌*◌, ◌%◌, ◌^◌, ◌≡◌, refl, ◌∙◌, Option, none, some, List, [], ◌∷◌, length,
  length-append, sym, arith,
}
use plotjuggler_core.TypeTree.{
  TypeTreeNode, node, NodeInfo, TypeKind, k_primitive, k_struct, k_array, k_enum, Children,
  no_children, child, Element, no_element, element_type, flatten_elements, flatten_node,
  flatten_children, flatten_element, flatten_field_paths, count_leaf_fields, count_children,
  count_element, indexed_path, join_path,
}

length-flatten_elements :
    (flatten : String → List String) (path : String) (k count index : ℕ)
    → ((prefix : String) → length (flatten prefix) % 2 ^ 64 ≡ k % 2 ^ 64)
    → length (flatten_elements flatten path count index) % 2 ^ 64 ≡ count * k % 2 ^ 64
unfolding flatten_elements
length-flatten_elements flatten path k zero index h = let z : 0 * k ≡ 0 = omega arith in rw z
length-flatten_elements flatten path k (suc count) index h =
    let rest = flatten_elements flatten path count (index + 1) in
    let now = flatten (indexed_path path index) in
    let s : suc count * k ≡ k + count * k = omega arith in
    rw s (
      omega (
        arith,
        length-append now rest,
        h (indexed_path path index),
        length-flatten_elements flatten path k count (index + 1) h,
      ))

count_small : (n : ℕ) → n % 2 ^ 64 ≡ n % 2 ^ 64 % 2 ^ 64
count_small n = omega arith

length-by_kind :
    (kind : TypeKind) (path : String) (paths elements : List String) (n m : ℕ)
    → length paths % 2 ^ 64 ≡ n % 2 ^ 64
    → length elements % 2 ^ 64 ≡ m % 2 ^ 64
    → length (elim kind [ k_struct ↦ paths | k_array ↦ elements | _ ↦ path ∷ [] ]) % 2 ^ 64
      ≡ (elim kind [ k_struct ↦ n | k_array ↦ m | _ ↦ 1 ]) % 2 ^ 64
length-by_kind k_primitive path paths elements n m hs ha = refl
length-by_kind k_struct path paths elements n m hs ha = hs
length-by_kind k_array path paths elements n m hs ha = ha
length-by_kind k_enum path paths elements n m hs ha = refl

mutual
  unfolding flatten_node count_leaf_fields

  length-flatten_node :
      (t : TypeTreeNode) (prefix : String)
      → length (flatten_node t prefix) % 2 ^ 64 ≡ count_leaf_fields t % 2 ^ 64
  length-flatten_node (node info children e) prefix =
      length-by_kind info.kind (join_path prefix info.name) _ _ _ _
        (length-flatten_children children (join_path prefix info.name))
        (length-flatten_element e info.fixed_array_size (join_path prefix info.name))

  length-flatten_children :
      (cs : Children) (path : String)
      → length (flatten_children cs path) % 2 ^ 64 ≡ count_children cs % 2 ^ 64
  length-flatten_children no_children path = refl
  length-flatten_children (child c cs) path = omega (
    arith,
    length-append (flatten_node c path) (flatten_children cs path),
    length-flatten_node c path,
    length-flatten_children cs path,
  )

  length-flatten_element :
      (e : Element) (size : Option ℕ) (path : String)
      → length (flatten_element e size path) % 2 ^ 64 ≡ count_element e size % 2 ^ 64
  length-flatten_element no_element size path = refl
  length-flatten_element (element_type e) none path = refl
  length-flatten_element (element_type e) (some count) path =
      length-flatten_elements (λ prefix. flatten_node e prefix) path (count_leaf_fields e) count 0
        (λ prefix. length-flatten_node e prefix)
      ∙ count_small (count * count_leaf_fields e)

count-children_small : (cs : Children) → count_children cs ≡ count_children cs % 2 ^ 64
unfolding count_leaf_fields
count-children_small no_children = refl
count-children_small (child c cs) = count_small (count_leaf_fields c + count_children cs)

-- On a tree whose root is a struct, `countLeafFields` is the number of the paths that
-- `flattenFieldPaths` lists, modulo 2^64.
pub count_leaf_fields-flatten_field_paths :
    (info : NodeInfo) (children : Children) (e : Element)
    → info.kind ≡ k_struct
    → count_leaf_fields (node info children e)
      ≡ length (flatten_field_paths (node info children e)) % 2 ^ 64
unfolding flatten_field_paths count_leaf_fields
count_leaf_fields-flatten_field_paths info children e k =
    rw k (count-children_small children ∙ sym (length-flatten_children children ""))
