-- ===== src/TypeTree/Tests.antt =====
-- A schema with a nested struct, a fixed and a dynamic array.
use plotjuggler_core.Prelude.{◌≡◌, ◌%◌, ◌^◌, refl, none, some, [], ◌∷◌, length}
use plotjuggler_core.Encoding.{float64, string}
use plotjuggler_core.TypeTree.{
  TypeTreeNode, node, NodeInfo, k_struct, Children, no_children, child, no_element, make_primitive,
  make_struct, make_array, flatten_field_paths, flatten_node, flatten_elements, count_leaf_fields,
  join_path, indexed_path, to_string,
}
use plotjuggler_core.TypeTree.Leaves.{count_leaf_fields-flatten_field_paths}

abbrev position : TypeTreeNode
position =
    make_struct "position"
      (child (make_primitive "x" float64) (child (make_primitive "y" float64) no_children))

abbrev fields : Children
fields = child (make_primitive "frame" string) (
    child position (
      child (make_array "cov" (make_primitive "c" float64) (some 2))
        (child (make_array "ranges" (make_primitive "r" float64) none) no_children)))

abbrev pose : NodeInfo
pose = record {
  name = "pose";
  kind = k_struct;
  semantic_tags = [];
  primitive_type = none;
  fixed_array_size = none;
  enum_mapping = none;
}

paths :
    flatten_field_paths (node pose fields no_element)
    ≡ "frame" ∷ "position.x" ∷ "position.y" ∷ "cov[0].c" ∷ "cov[1].c" ∷ []
unfolding flatten_field_paths flatten_node flatten_elements join_path indexed_path to_string
paths = refl

five : count_leaf_fields (node pose fields no_element) ≡ 5
unfolding count_leaf_fields
five = refl

count_leaf_fields-flatten_field_paths_example :
    count_leaf_fields (node pose fields no_element)
    ≡ length (flatten_field_paths (node pose fields no_element)) % 2 ^ 64
count_leaf_fields-flatten_field_paths_example =
    count_leaf_fields-flatten_field_paths pose fields no_element refl
