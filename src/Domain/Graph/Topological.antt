-- ===== src/Domain/Graph/Topological.antt =====
-- `topologicalIds` of src/domain/dag.ts.
pub mod Declared
pub mod Fuel
pub mod Counted
pub mod Dependents
pub mod Ordered
pub mod Complete
use pi_build_conductor.Prelude.{
  ℕ, zero, suc, ◌+◌, ◌*◌, ◌-◌, String, true, false, Option, none, some, List, [], ◌∷◌, ◌++◌, Dict,
  get, put, or_else, leb, eqb, length, if◌then◌else◌, ◌==◌, string_eq, nat_eq,
}
use pi_build_conductor.Domain.Graph.{Node}

-- `new Map(nodes.map((node, index) => [node.id, index]))`: of two equal ids the last index stays.
unfoldable pub declaration_order_from : ℕ → List Node → Dict ℕ → Dict ℕ
declaration_order_from index [] order = order
declaration_order_from index (node ∷ nodes) order =
    declaration_order_from (suc index) nodes (put node.id index order)

unfoldable pub declaration_order : List Node → Dict ℕ
unfolding declaration_order_from
declaration_order nodes = declaration_order_from 0 nodes []

-- The two maps that the first loop fills.
pub record Counts : Type 0 where
  pub dependents : Dict (List String)
  pub remaining : Dict ℕ

unfoldable pub add_dependents : String → List String → Dict (List String) → Dict (List String)
add_dependents id [] m = m
add_dependents id (dependency ∷ dependencies) m =
    add_dependents id dependencies (put dependency (or_else (get dependency m) [] ++ id ∷ []) m)

unfoldable pub count_dependencies : List Node → Counts → Counts
unfolding add_dependents
count_dependencies [] c = c
count_dependencies (node ∷ nodes) c = count_dependencies nodes (record {
  dependents = add_dependents node.id node.dependencies c.dependents;
  remaining = put node.id (length node.dependencies) c.remaining;
})

-- The ids without dependencies, in declaration order.
unfoldable pub initially_ready : List Node → List String
initially_ready [] = []
initially_ready (node ∷ nodes) =
    let rest = initially_ready nodes in
    if eqb (length node.dependencies) 0 then node.id ∷ rest else rest

-- `ready.sort(...)` by declaration order; the sort is stable.
unfoldable pub insert_by : Dict ℕ → String → List String → List String
insert_by order id [] = id ∷ []
insert_by order id (other ∷ ids) =
    if leb (or_else (get id order) 0) (or_else (get other order) 0)
    then id ∷ other ∷ ids
    else other ∷ insert_by order id ids

unfoldable pub sort_by : Dict ℕ → List String → List String
unfolding insert_by
sort_by order [] = []
sort_by order (id ∷ ids) = insert_by order id (sort_by order ids)

pub record Progress : Type 0 where
  pub remaining : Dict ℕ
  pub ready : List String

-- One dependent loses one dependency. The source's count may go below 0 for an id that is
-- declared twice; it is ready at the step from 1 to 0 only, so the count here stops at 0.
unfoldable pub release_one : String → Progress → Progress
release_one dependent p =
    let left = or_else (get dependent p.remaining) 0 in
    record {
      remaining = put dependent (left - 1) p.remaining;
      ready = if eqb left 1 then p.ready ++ dependent ∷ [] else p.ready;
    }

unfoldable pub release_all : List String → Progress → Progress
unfolding release_one
release_all [] p = p
release_all (dependent ∷ rest) p = release_all rest (release_one dependent p)

-- The `while` loop; `none` means that the fuel ran out. An empty id ends the loop, as in the source.
unfoldable pub drain :
    Dict ℕ → Dict (List String) → ℕ → Progress → List String → Option (List String)
unfolding release_all sort_by
drain order dependents zero p sorted = elim p.ready [ [] ↦ some sorted | _ ∷ _ ↦ none ]
drain order dependents (suc fuel) p sorted = elim (sort_by order p.ready) [
  | [] ↦ some sorted
  | id ∷ queue ↦ elim (id == "") [
    | true ↦ some sorted
    | false ↦
        drain order dependents fuel
          (release_all (or_else (get id dependents) []) (record p { ready = queue }))
          (sorted ++ id ∷ [])
  ]
]

abbrev pub no_counts : Counts
no_counts = record { dependents = []; remaining = [] }

-- `2 * nodes.length` rounds are enough: see `Fuel`.
unfoldable pub topological_ids? : List Node → Option (List String)
unfolding drain declaration_order count_dependencies initially_ready
topological_ids? nodes =
    let counts = count_dependencies nodes no_counts in
    drain (declaration_order nodes) counts.dependents (2 * length nodes)
      (record { remaining = counts.remaining; ready = initially_ready nodes }) []

unfoldable pub topological_ids : List Node → List String
unfolding topological_ids?
topological_ids nodes = or_else (topological_ids? nodes) []
