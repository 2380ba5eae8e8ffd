-- ===== src/Examples/Graphs.antt =====
-- Dependency graphs with and without a cycle.
use pi_build_conductor.Prelude.{String, List, [], ◌∷◌, none, ◌≡◌, ◌≢◌, ◌↔◌, refl, string_eq}
use pi_build_conductor.Domain.Graph.{Node}
use pi_build_conductor.Domain.Graph.Topological.{topological_ids?, topological_ids}
use pi_build_conductor.Domain.Graph.Topological.Fuel.{topological_ids?-ne-none}
use pi_build_conductor.Domain.Graph.Topological.Ordered.{IsGraph}
use pi_build_conductor.Domain.Graph.Topological.Complete.{IsOrder, topological_ids-IsOrder}
use pi_build_conductor.Domain.Graph.Cycle.{
  Search, done, found, out_of_fuel, dependency_map, find_cycle,
}
use pi_build_conductor.Domain.Graph.Cycle.Fuel.{find_cycle-ends}
use pi_build_conductor.Domain.Graph.Cycle.Found.{IsCycle, find_cycle-IsCycle}
use pi_build_conductor.Domain.Graph.Cycle.Exact.{find_cycle-done_iff}

abbrev node : String → List String → Node
node id dependencies = record { id = id; dependencies = dependencies }

abbrev diamond : List Node
diamond = node "d" ("b" ∷ "c" ∷ []) ∷ node "a" [] ∷ node "c" ("a" ∷ []) ∷ node "b" ("a" ∷ []) ∷ []

abbrev loop : List Node
loop = node "a" ("b" ∷ []) ∷ node "b" ("c" ∷ []) ∷ node "c" ("b" ∷ []) ∷ []

-- Ready ids are taken in declaration order.
diamond_order : topological_ids diamond ≡ "a" ∷ "c" ∷ "b" ∷ "d" ∷ []
unfolding topological_ids
diamond_order = refl

topological_ids?-ne-none_example : topological_ids? loop ≢ none
topological_ids?-ne-none_example = topological_ids?-ne-none loop

abbrev searched : Search
searched = record { visiting = []; visited = "d" ∷ "c" ∷ "b" ∷ "a" ∷ []; path = [] }

diamond_has_no_cycle : find_cycle diamond ≡ done searched
unfolding find_cycle
diamond_has_no_cycle = refl

loop_has_a_cycle : find_cycle loop ≡ found ("b" ∷ "c" ∷ "b" ∷ [])
unfolding find_cycle
loop_has_a_cycle = refl

find_cycle-IsCycle_example : IsCycle (dependency_map loop) ("b" ∷ "c" ∷ "b" ∷ [])
find_cycle-IsCycle_example = find_cycle-IsCycle loop ("b" ∷ "c" ∷ "b" ∷ []) loop_has_a_cycle

find_cycle-ends_example : find_cycle loop ≢ out_of_fuel
find_cycle-ends_example = find_cycle-ends loop

find_cycle-done_iff_example :
    ((s : Search) × (find_cycle diamond ≡ done s))
    ↔ ((cycle : List String) → ¬ (IsCycle (dependency_map diamond) cycle))
find_cycle-done_iff_example = find_cycle-done_iff diamond

diamond-IsGraph : IsGraph diamond
diamond-IsGraph = record {
  distinct = refl;
  each = (refl, (refl, (refl, (refl, tt))));
  named = refl;
  known = ((refl, (refl, tt)), (tt, ((refl, tt), ((refl, tt), tt))));
}

topological_ids-IsOrder_example : IsOrder diamond (topological_ids diamond)
topological_ids-IsOrder_example =
    topological_ids-IsOrder diamond diamond-IsGraph
      ((find_cycle-done_iff diamond).0 (searched, diamond_has_no_cycle))
