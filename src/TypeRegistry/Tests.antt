-- ===== src/TypeRegistry/Tests.antt =====
-- A registry with one schema, and its evolutions.
use plotjuggler_core.Prelude.{◌≡◌, refl, none, some, [], ◌∷◌}
use plotjuggler_core.Encoding.{float64, int64, string}
use plotjuggler_core.TypeTree.{
  TypeTreeNode, no_children, child, make_primitive, make_struct, make_array, join_path,
}
use plotjuggler_core.TypeRegistry.{
  TypeRegistry, ok, unexpected, field_changed_type, find_id, find_text, emplace_text,
  flatten_leaf_types, leaf_types_node, leaf_map, check_leaves, register_or_get, lookup,
  evolve_schema,
}
use plotjuggler_core.TypeRegistry.Names.{Registered, register_or_get-Registered}
use plotjuggler_core.TypeRegistry.Evolution.{Evolved, evolve_schema-Evolved}
use plotjuggler_core.TypeRegistry.Runs.{register, get, evolve, run, SchemaField, run-SchemaField}

abbrev log_v1 : TypeTreeNode
log_v1 = make_struct "Log" (child (make_primitive "level" int64) no_children)

abbrev log_v2 : TypeTreeNode
log_v2 =
    make_struct "Log"
      (child (make_primitive "text" string) (child (make_primitive "level" int64) no_children))

abbrev log_bad : TypeTreeNode
log_bad = make_struct "Log" (child (make_primitive "level" float64) no_children)

abbrev one_schema : TypeRegistry
one_schema = record { next_id = 2; schemas = (1, log_v1) ∷ []; name_to_id = ("Log", 1) ∷ [] }

register_or_get-Registered_example :
    Registered "Pose" one_schema (register_or_get "Pose" log_v2 one_schema)
register_or_get-Registered_example = register_or_get-Registered "Pose" log_v2 one_schema

log_found : lookup 1 one_schema ≡ some log_v1
unfolding lookup find_id
log_found = refl

evolve_schema-Evolved_example :
    Evolved 1 log_v1 log_v2 one_schema (evolve_schema 1 log_v2 one_schema)
evolve_schema-Evolved_example = evolve_schema-Evolved 1 log_v1 log_v2 one_schema log_found

level_field : SchemaField 1 "level" int64 one_schema
unfolding flatten_leaf_types leaf_types_node find_text join_path
level_field = record { tree = log_v1; registered = log_found; field = refl }

run-SchemaField_example : SchemaField 1 "level" int64 (
    run
      (get "Log" log_bad ∷ evolve 1 log_bad ∷ evolve 1 log_v2 ∷ register "Pose" log_v1 ∷ [])
      one_schema)
run-SchemaField_example =
    run-SchemaField
      (get "Log" log_bad ∷ evolve 1 log_bad ∷ evolve 1 log_v2 ∷ register "Pose" log_v1 ∷ []) 1
      "level" int64 one_schema level_field

-- A changed type is refused.
changed : (evolve_schema 1 log_bad one_schema).1 ≡ unexpected (field_changed_type "level")
unfolding evolve_schema find_id find_text emplace_text flatten_leaf_types leaf_types_node leaf_map
    check_leaves join_path
changed = refl

-- An array of structs is no leaf, so that a schema evolves into one without it.
abbrev with_points : TypeTreeNode
with_points =
    make_struct "Cloud"
      (child (make_array "points" log_v1 none) (child (make_primitive "stamp" int64) no_children))

abbrev without_points : TypeTreeNode
without_points = make_struct "Cloud" (child (make_primitive "stamp" int64) no_children)

array_removed :
    (evolve_schema 1 without_points
      (record { next_id = 2; schemas = (1, with_points) ∷ []; name_to_id = ("Cloud", 1) ∷ [] })).1
    ≡ ok tt
unfolding evolve_schema find_id find_text emplace_text flatten_leaf_types leaf_types_node leaf_map
    check_leaves join_path
array_removed = refl
