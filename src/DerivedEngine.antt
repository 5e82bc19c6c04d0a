-- ===== src/DerivedEngine.antt =====
-- The graph of the derived engine: pj_datastore/src/derived_engine.cpp, without the transforms
-- themselves and the rows they compute. Its hash maps are association lists.
pub mod Graph
pub mod Cycle
mod Tests
use Prim.Native.String.{String}
use plotjuggler_core.Prelude.{
  ℕ, zero, suc, ◌+◌, Bool, true, false, not, ◌&&◌, Option, none, some, List, [], ◌∷◌, ◌++◌, length,
  ◌==◌, if◌then◌else◌, ℤ,
}
use plotjuggler_core.Encoding.{
  PrimitiveType, float32, float64, int32, int64, uint64, bool, string, StorageKind, k_float32,
  k_float64, k_int32, k_int64, k_uint64, k_bool, k_string,
}
use plotjuggler_core.TypeTree.{
  TypeTreeNode, node, NodeInfo, TypeKind, k_primitive, k_struct, k_array, k_enum, Children,
  no_children, child, Element, no_element, element_type,
}
use plotjuggler_core.TypeRegistry.{find_id}
use plotjuggler_core.Engine.Ids.{elem}

abbrev first_of : Option PrimitiveType → Option PrimitiveType → Option PrimitiveType
first_of (some t) rest = some t
first_of none rest = rest

unfoldable mutual
  pub find_first_leaf : TypeTreeNode → Option PrimitiveType
  find_first_leaf (node info children element) = elim info.kind [
    | k_primitive ↦ info.primitive_type
    | k_enum ↦ info.primitive_type
    | k_struct ↦ find_first_child children
    | k_array ↦ find_first_element element
  ]

  pub find_first_child : Children → Option PrimitiveType
  find_first_child no_children = none
  find_first_child (child c cs) = first_of (find_first_leaf c) (find_first_child cs)

  pub find_first_element : Element → Option PrimitiveType
  find_first_element no_element = none
  find_first_element (element_type e) = find_first_leaf e

abbrev pub storage_kind_to_primitive : StorageKind → PrimitiveType
storage_kind_to_primitive k_float32 = float32
storage_kind_to_primitive k_float64 = float64
storage_kind_to_primitive k_int32 = int32
storage_kind_to_primitive k_int64 = int64
storage_kind_to_primitive k_uint64 = uint64
storage_kind_to_primitive k_bool = bool
storage_kind_to_primitive k_string = string

-- A node, without its transform and its buffers.
pub record DerivedNode : Type 0 where
  pub id : ℕ
  pub is_mimo : Bool
  pub input_kinds : List StorageKind
  pub output_kinds : List StorageKind
  pub all_input_topic_ids : List ℕ
  pub output_topic_ids : List ℕ
  pub dirty : Bool
  pub last_processed_chunk_id : ℕ
  pub mimo_last_ts : ℤ

pub record DerivedGraph : Type 0 where
  pub nodes : List (ℕ × DerivedNode)
  pub downstream_of : List (ℕ × List ℕ)
  pub topic_to_nodes : List (ℕ × List ℕ)
  pub output_topic_to_node : List (ℕ × ℕ)
  pub registered_output_names : List ((ℕ × String) × ℕ)

-- The inputs of the node that produces a topic: none for a source topic.
abbrev pub inputs_of : Option DerivedNode → List ℕ
inputs_of none = []
inputs_of (some n) = n.all_input_topic_ids

abbrev pub node_of : Option ℕ → List (ℕ × DerivedNode) → Option DerivedNode
node_of none nodes = none
node_of (some producer) nodes = find_id producer nodes

unfoldable pub upstream : DerivedGraph → ℕ → List ℕ
upstream g t = inputs_of (node_of (find_id t g.output_topic_to_node) g.nodes)

-- The stack is a list whose head is the vector's back.
unfoldable pub push_new : List ℕ → List ℕ → List ℕ → List ℕ
push_new [] visited stack = stack
push_new (t ∷ ts) visited stack = push_new ts visited (if elem t visited then stack else t ∷ stack)

pub data Search : Type 0 where
  no_cycle : Search
  cycle_at : ℕ → Search
  out_of_fuel : Search

-- The loop of the depth-first search.
unfoldable pub search : ℕ → DerivedGraph → List ℕ → List ℕ → List ℕ → Search
search zero g outputs stack visited = out_of_fuel
search (suc fuel) g outputs [] visited = no_cycle
search (suc fuel) g outputs (t ∷ stack) visited = elim (elem t visited) [
  | true ↦ search fuel g outputs stack visited
  | false ↦ elim (elem t outputs) [
    | true ↦ cycle_at t
    | false ↦ search fuel g outputs (push_new (upstream g t) (t ∷ visited) stack) (t ∷ visited)
  ]
]

-- The number of edges that lead out of the topics that are not visited.
unfoldable pub edges_left : DerivedGraph → List ℕ → List (ℕ × ℕ) → ℕ
edges_left g visited [] = 0
edges_left g visited ((t, producer) ∷ rest) =
    (if elem t visited then 0 else length (inputs_of (find_id producer g.nodes)))
    + edges_left g visited rest

-- The fuel is one more than the inputs and all edges.
unfoldable pub check_cycle : DerivedGraph → List ℕ → List ℕ → Search
check_cycle g input_topics output_topics =
    search (suc (length input_topics + edges_left g [] g.output_topic_to_node)) g output_topics
      (push_new input_topics [] []) []

unfoldable pub has_node : ℕ → DerivedGraph → Bool
has_node id g = elim (find_id id g.nodes) [ none ↦ false | some n ↦ true ]

abbrev outputs_of : Option DerivedNode → List ℕ
outputs_of none = []
outputs_of (some n) = n.output_topic_ids

unfoldable pub output_topics : ℕ → DerivedGraph → List ℕ
output_topics id g = outputs_of (find_id id g.nodes)

-- `erase` on a map, and `remove` on a vector of ids.
unfoldable pub erase {ℓ} : {A : Type ℓ} → ℕ → List (ℕ × A) → List (ℕ × A)
erase id [] = []
erase id ((key, a) ∷ rest) = if key == id then rest else (key, a) ∷ erase id rest

unfoldable pub remove : ℕ → List ℕ → List ℕ
remove id [] = []
remove id (a ∷ rest) = if a == id then remove id rest else a ∷ remove id rest

-- The vector at a key, which is made when there is none, without `id`.
unfoldable pub remove_at : ℕ → ℕ → List (ℕ × List ℕ) → List (ℕ × List ℕ)
remove_at key id [] = (key, []) ∷ []
remove_at key id ((k, ids) ∷ rest) =
    if k == key then (k, remove id ids) ∷ rest else (k, ids) ∷ remove_at key id rest

unfoldable pub remove_from_inputs : ℕ → List ℕ → List (ℕ × List ℕ) → List (ℕ × List ℕ)
remove_from_inputs id [] entries = entries
remove_from_inputs id (t ∷ ts) entries = remove_from_inputs id ts (remove_at t id entries)

unfoldable pub remove_everywhere : ℕ → List (ℕ × List ℕ) → List (ℕ × List ℕ)
remove_everywhere id [] = []
remove_everywhere id ((k, ids) ∷ rest) = (k, remove id ids) ∷ remove_everywhere id rest

unfoldable pub erase_outputs : List ℕ → List (ℕ × ℕ) → List (ℕ × ℕ)
erase_outputs [] entries = entries
erase_outputs (t ∷ ts) entries = erase_outputs ts (erase t entries)

-- The first name that stands for the topic is erased.
unfoldable pub erase_name : ℕ → List ((ℕ × String) × ℕ) → List ((ℕ × String) × ℕ)
erase_name t [] = []
erase_name t ((key, topic) ∷ rest) = if topic == t then rest else (key, topic) ∷ erase_name t rest

unfoldable pub erase_names : List ℕ → List ((ℕ × String) × ℕ) → List ((ℕ × String) × ℕ)
erase_names [] names = names
erase_names (t ∷ ts) names = erase_names ts (erase_name t names)

-- The graph after `removeNode`, and whether the node was found.
unfoldable pub remove_node : ℕ → DerivedGraph → DerivedGraph × Bool
remove_node id g = elim (find_id id g.nodes) [
  | none ↦ (g, false)
  | some n ↦ (
    record {
      nodes = erase id g.nodes;
      downstream_of = remove_everywhere id (erase id g.downstream_of);
      topic_to_nodes = remove_from_inputs id n.all_input_topic_ids g.topic_to_nodes;
      output_topic_to_node = erase_outputs n.output_topic_ids g.output_topic_to_node;
      registered_output_names = erase_names n.output_topic_ids g.registered_output_names;
    },
    true,
  )
]

unfoldable pub mark_dirty : ℕ → List (ℕ × DerivedNode) → List (ℕ × DerivedNode)
mark_dirty id [] = []
mark_dirty id ((key, n) ∷ rest) =
    if key == id then (key, record n { dirty = true }) ∷ rest else (key, n) ∷ mark_dirty id rest

unfoldable pub mark_all_dirty : List ℕ → List (ℕ × DerivedNode) → List (ℕ × DerivedNode)
mark_all_dirty [] nodes = nodes
mark_all_dirty (id ∷ ids) nodes = mark_all_dirty ids (mark_dirty id nodes)

abbrev readers : Option (List ℕ) → List ℕ
readers none = []
readers (some ids) = ids

unfoldable pub on_source_committed : List ℕ → DerivedGraph → DerivedGraph
on_source_committed [] g = g
on_source_committed (t ∷ ts) g =
    on_source_committed ts
      (record g { nodes = mark_all_dirty (readers (find_id t g.topic_to_nodes)) g.nodes })
