-- ===== src/TypeRegistry/Runs.antt =====
-- Sequences of calls on the registry: a field of a registered schema keeps its type.
use Prim.Native.String.{String}
use text.Mathlib.Text.{◌==◌ as str_eq}
use plotjuggler_core.Prelude.{
  ℕ, ◌≡◌, ◌∙◌, sym, subst, inl, inr, Bool-cases, some, Option-cases, List, [], ◌∷◌, ◌==◌, arith,
}
use mathlib.Core.Option.{some-injective}
use plotjuggler_core.Encoding.{PrimitiveType}
use plotjuggler_core.TypeTree.{TypeTreeNode}
use plotjuggler_core.TypeRegistry.{
  Leaves, flatten_leaf_types, find_text, assign_id, TypeRegistry, register_schema, register_or_get,
  lookup, evolve_schema,
}
use plotjuggler_core.TypeRegistry.Names.{
  str_eq→eq, find_id-emplace_id, find_id-assign_id_same, find_id-assign_id_other,
}
use plotjuggler_core.TypeRegistry.Evolution.{
  HasField, AllFound, evolve_schema-Evolved, evolve_schema_unknown,
}

pub data Call : Type 0 where
  register : String → TypeTreeNode → Call
  get : String → TypeTreeNode → Call
  evolve : ℕ → TypeTreeNode → Call

unfoldable pub step : Call → TypeRegistry → TypeRegistry
step (register name tree) r = (register_schema name tree r).0
step (get name tree) r = (register_or_get name tree r).0
step (evolve id tree) r = (evolve_schema id tree r).0

unfoldable pub run : List Call → TypeRegistry → TypeRegistry
run [] r = r
run (c ∷ calls) r = run calls (step c r)

-- The schema `id` is registered, and its field at `path` has the type `t`.
pub record SchemaField (id : ℕ) (path : String) (t : PrimitiveType) (r : TypeRegistry)
    : Type 0 where
  pub tree : TypeTreeNode
  pub registered : lookup id r ≡ some tree
  pub field : HasField path t tree

AllFound-at :
    (old_leaves new_leaves : Leaves) (path : String) (t : PrimitiveType)
    → AllFound old_leaves new_leaves
    → find_text path old_leaves ≡ some t
    → find_text path new_leaves ≡ some t
unfolding find_text
AllFound-at [] new_leaves path t h e = absurd (cc)
AllFound-at ((p, u) ∷ rest) new_leaves path t h e = elim (Bool-cases (str_eq p path)) [
  | inl same ↦
      let at : some u ≡ some t = rw (same, find_text) at e in
      subst (λ (q : String). find_text q new_leaves ≡ some t) (str_eq→eq p path same) (h.0 ∙ at)
  | inr other ↦ AllFound-at rest new_leaves path t h.1 (rw (other, find_text) at e)
]

register_schema-SchemaField :
    (name : String) (new_tree : TypeTreeNode) (id : ℕ) (path : String) (t : PrimitiveType)
    (r : TypeRegistry)
    → SchemaField id path t r
    → SchemaField id path t (register_schema name new_tree r).0
unfolding register_schema lookup
register_schema-SchemaField name new_tree id path t r f =
    elim (Option-cases (find_text name r.name_to_id)) [
      | inl e ↦
          rw (e, register_schema)
            (record {
              tree = f.tree;
              registered = find_id-emplace_id id r.next_id new_tree f.tree r.schemas f.registered;
              field = f.field;
            })
      | inr (other, e) ↦ rw (e, register_schema) f
    ]

register_or_get-SchemaField :
    (name : String) (new_tree : TypeTreeNode) (id : ℕ) (path : String) (t : PrimitiveType)
    (r : TypeRegistry)
    → SchemaField id path t r
    → SchemaField id path t (register_or_get name new_tree r).0
unfolding register_or_get
register_or_get-SchemaField name new_tree id path t r f =
    elim (Option-cases (find_text name r.name_to_id)) [
      | inl e ↦ rw (e, register_or_get) (register_schema-SchemaField name new_tree id path t r f)
      | inr (other, e) ↦ rw (e, register_or_get) f
    ]

-- The tree of one schema is replaced by one that has every field of it.
assigned_field :
    (evolved : ℕ) (old_tree new_tree : TypeTreeNode) (id : ℕ) (path : String) (t : PrimitiveType)
    (r : TypeRegistry)
    → SchemaField id path t r
    → lookup evolved r ≡ some old_tree
    → AllFound (flatten_leaf_types old_tree) (flatten_leaf_types new_tree)
    → SchemaField id path t (record r { schemas = assign_id evolved new_tree r.schemas })
unfolding lookup
assigned_field evolved old_tree new_tree id path t r f e found = elim (Bool-cases (id == evolved)) [
  | inl same ↦
      let here : id ≡ evolved = ground arith in
      let is : lookup id r ≡ some old_tree = rw here e in
      let old : f.tree ≡ old_tree = some-injective f.tree old_tree (sym f.registered ∙ is) in
      record {
        tree = new_tree;
        registered = rw here (find_id-assign_id_same evolved new_tree old_tree r.schemas e);
        field =
            AllFound-at (flatten_leaf_types old_tree) (flatten_leaf_types new_tree) path t found
              (subst (HasField path t) old f.field);
      }
  | inr other ↦ record {
    tree = f.tree;
    registered = find_id-assign_id_other id evolved new_tree r.schemas other ∙ f.registered;
    field = f.field;
  }
]

evolve_schema-SchemaField :
    (evolved : ℕ) (new_tree : TypeTreeNode) (id : ℕ) (path : String) (t : PrimitiveType)
    (r : TypeRegistry)
    → SchemaField id path t r
    → SchemaField id path t (evolve_schema evolved new_tree r).0
evolve_schema-SchemaField evolved new_tree id path t r f = elim (Option-cases (lookup evolved r)) [
  | inl e ↦ rw (evolve_schema_unknown evolved new_tree r e) f
  | inr (old_tree, e) ↦ elim (evolve_schema-Evolved evolved old_tree new_tree r e) [
    | inl (found, res) ↦ rw res (assigned_field evolved old_tree new_tree id path t r f e found)
    | inr (i, p, u, err, at, missing, res) ↦ rw res f
  ]
]

step-SchemaField :
    (c : Call) (id : ℕ) (path : String) (t : PrimitiveType) (r : TypeRegistry)
    → SchemaField id path t r
    → SchemaField id path t (step c r)
unfolding step
step-SchemaField (register name tree) id path t r f =
    register_schema-SchemaField name tree id path t r f
step-SchemaField (get name tree) id path t r f = register_or_get-SchemaField name tree id path t r f
step-SchemaField (evolve other tree) id path t r f =
    evolve_schema-SchemaField other tree id path t r f

-- Once a schema is registered with a field of a type, no sequence of registrations and
-- evolutions takes the schema away, or the field, or changes the field's type.
pub run-SchemaField :
    (calls : List Call) (id : ℕ) (path : String) (t : PrimitiveType) (r : TypeRegistry)
    → SchemaField id path t r
    → SchemaField id path t (run calls r)
unfolding run
run-SchemaField [] id path t r f = f
run-SchemaField (c ∷ calls) id path t r f =
    run-SchemaField calls id path t (step c r) (step-SchemaField c id path t r f)
