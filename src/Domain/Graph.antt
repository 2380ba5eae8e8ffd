-- ===== src/Domain/Graph.antt =====
-- src/domain/dag.ts: the dependency graph of a plan.
pub mod Topological
pub mod Cycle
use pi_build_conductor.Prelude.{String, List, [], ◌∷◌}

-- What the graph algorithms read of a task or a step.
pub record Node : Type 0 where
  pub id : String
  pub dependencies : List String

abbrev pub nodes_of : {A : Type 0} → (A → String) → (A → List String) → List A → List Node
nodes_of id dependencies [] = []
nodes_of id dependencies (item ∷ items) =
    record { id = id item; dependencies = dependencies item } ∷ nodes_of id dependencies items
