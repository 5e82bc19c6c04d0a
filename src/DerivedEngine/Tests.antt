-- ===== src/DerivedEngine/Tests.antt =====
-- A graph of two nodes, one behind the other.
use plotjuggler_core.Prelude.{ℕ, ◌≡◌, refl, ◌⊎◌, true, false, [], ◌∷◌, pos}
use plotjuggler_core.Encoding.{k_float64}
use plotjuggler_core.TypeRegistry.{find_id}
use plotjuggler_core.Engine.Ids.{elem}
use plotjuggler_core.DerivedEngine.{
  DerivedNode, DerivedGraph, upstream, push_new, no_cycle, cycle_at, search, edges_left,
  check_cycle, remove_node, erase, erase_outputs,
}
use plotjuggler_core.DerivedEngine.Graph.{Reaches, input, behind}
use plotjuggler_core.DerivedEngine.Cycle.{check_cycle_sound, check_cycle_complete}

abbrev one_input : ℕ → ℕ → ℕ → DerivedNode
one_input id from to = record {
  id = id;
  is_mimo = false;
  input_kinds = k_float64 ∷ [];
  output_kinds = k_float64 ∷ [];
  all_input_topic_ids = from ∷ [];
  output_topic_ids = to ∷ [];
  dirty = true;
  last_processed_chunk_id = 0;
  mimo_last_ts = pos 0;
}

abbrev chain : DerivedGraph
chain = record {
  nodes = (1, one_input 1 10 11) ∷ (2, one_input 2 11 12) ∷ [];
  downstream_of = (1, 2 ∷ []) ∷ [];
  topic_to_nodes = (10, 1 ∷ []) ∷ (11, 2 ∷ []) ∷ [];
  output_topic_to_node = (11, 1) ∷ (12, 2) ∷ [];
  registered_output_names = ((1, "a"), 11) ∷ ((1, "b"), 12) ∷ [];
}

a_cycle : check_cycle chain (12 ∷ []) (10 ∷ []) ≡ cycle_at 10
unfolding check_cycle search upstream push_new edges_left find_id
a_cycle = refl

no_way_back : check_cycle chain (10 ∷ []) (12 ∷ []) ≡ no_cycle
unfolding check_cycle search upstream push_new edges_left find_id
no_way_back = refl

check_cycle_sound_example :
    (check_cycle chain (12 ∷ []) (10 ∷ []) ≡ no_cycle)
    ⊎ ((t : ℕ) × (check_cycle chain (12 ∷ []) (10 ∷ []) ≡ cycle_at t)
        × Reaches chain (12 ∷ []) t
        × (elem t (10 ∷ []) ≡ true))
check_cycle_sound_example = check_cycle_sound chain (12 ∷ []) (10 ∷ [])

behind_two : Reaches chain (12 ∷ []) 10
unfolding upstream find_id
behind_two = behind 11 10 (behind 12 11 (input 12 refl) refl) refl

check_cycle_complete_example :
    (u : ℕ) × (check_cycle chain (12 ∷ []) (10 ∷ []) ≡ cycle_at u)
    × Reaches chain (12 ∷ []) u
    × (elem u (10 ∷ []) ≡ true)
check_cycle_complete_example = check_cycle_complete chain (12 ∷ []) (10 ∷ []) 10 behind_two refl

-- Without the first node its output is a source.
first_removed : (remove_node 1 chain).0.output_topic_to_node ≡ (12, 2) ∷ []
unfolding remove_node erase_outputs erase find_id
first_removed = refl
