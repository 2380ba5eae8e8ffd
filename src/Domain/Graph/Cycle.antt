-- ===== src/Domain/Graph/Cycle.antt =====
-- `findCycle` of src/domain/dag.ts.
pub mod Restores
pub mod Fuel
pub mod Found
pub mod Acyclic
pub mod Exact
use pi_build_conductor.Prelude.{
  ℕ, zero, suc, ◌+◌, String, true, false, Option, none, some, List, [], ◌∷◌, ◌++◌, Dict, get, put,
  or_else, includes, filter, not, drop, length, if◌then◌else◌, ◌==◌, string_eq,
}
use pi_build_conductor.Domain.Graph.{Node}

-- `new Map(tasks.map((task) => [task.id, task.dependencies]))`.
unfoldable pub dependency_map_from : List Node → Dict (List String) → Dict (List String)
dependency_map_from [] m = m
dependency_map_from (node ∷ nodes) m = dependency_map_from nodes (put node.id node.dependencies m)

unfoldable pub dependency_map : List Node → Dict (List String)
unfolding dependency_map_from
dependency_map nodes = dependency_map_from nodes []

-- The two sets and the path that `visit` closes over.
pub record Search : Type 0 where
  pub visiting : List String
  pub visited : List String
  pub path : List String

-- `visit` returns a cycle, or `undefined` with the changed sets.
pub data Visit : Type 0 where
  out_of_fuel : Visit
  found : List String → Visit
  done : Search → Visit

-- `path.indexOf(id)`; 0 where the source has -1, since `visiting` and `path` hold the same ids.
unfoldable pub index_of : String → List String → ℕ
index_of id [] = 0
index_of id (other ∷ path) = if other == id then 0 else suc (index_of id path)

-- `path.pop()`.
unfoldable pub pop : List String → List String
pop [] = []
pop (id ∷ []) = []
pop (id ∷ other ∷ path) = id ∷ pop (other ∷ path)

-- `set.delete(id)`.
abbrev pub delete : String → List String → List String
delete id = filter (λ other. not (other == id))

-- The `for` loop over the dependencies, or over the tasks.
unfoldable pub visit_each : (String → Search → Visit) → List String → Search → Visit
visit_each visit [] s = done s
visit_each visit (id ∷ ids) s = elim (visit id s) [
  | out_of_fuel ↦ out_of_fuel
  | found cycle ↦ found cycle
  | done s' ↦ visit_each visit ids s'
]

abbrev pub leave : String → Visit → Visit
leave id out_of_fuel = out_of_fuel
leave id (found cycle) = found cycle
leave id (done s) =
    done (record { visiting = delete id s.visiting; visited = id ∷ s.visited; path = pop s.path })

unfoldable pub visit : Dict (List String) → ℕ → String → Search → Visit
unfolding index_of pop visit_each
visit dependencies zero id s = out_of_fuel
visit dependencies (suc fuel) id s = elim (includes id s.visiting) [
  | true ↦ found (drop (index_of id s.path) s.path ++ id ∷ [])
  | false ↦ elim (includes id s.visited) [
    | true ↦ done s
    | false ↦ leave id (
        visit_each (visit dependencies fuel) (or_else (get id dependencies) [])
          (record s { visiting = id ∷ s.visiting; path = s.path ++ id ∷ [] }))
  ]
]

abbrev pub no_search : Search
no_search = record { visiting = []; visited = []; path = [] }

abbrev pub ids : List Node → List String
ids [] = []
ids (node ∷ nodes) = node.id ∷ ids nodes

-- The fuel bounds the depth: a path holds each declared id at most once, then an unknown id or one
-- that closes a cycle.
unfoldable pub find_cycle : List Node → Visit
unfolding dependency_map visit
find_cycle nodes =
    visit_each (visit (dependency_map nodes) (length nodes + 2)) (ids nodes) no_search
