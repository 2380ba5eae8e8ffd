-- ===== src/Domain/Graph/Topological/Fuel.antt =====
-- The loop of `topologicalIds` always ends: twice the number of nodes bounds its rounds.
use pi_build_conductor.Prelude.{
  ℕ, zero, suc, ◌+◌, ◌*◌, ◌-◌, ◌≤◌, String, Option, none, some, List, [], ◌∷◌, ◌++◌, ◌≡◌, ◌≢◌, refl,
  arith, inl, inr, Dict, get, put, or_else, eqb, length, length-append, if◌then◌else◌, string_eq,
  List-cases,
}
use pi_build_conductor.Domain.Graph.{Node}
use pi_build_conductor.Domain.Graph.Topological.{
  Counts, no_counts, add_dependents, count_dependencies, initially_ready, insert_by, sort_by,
  Progress, release_one, release_all, drain, topological_ids?, declaration_order,
}

-- How many entries are above 0.
positives : Dict ℕ → ℕ
positives [] = 0
positives ((k, v) ∷ m) = (if eqb v 0 then 0 else 1) + positives m

abbrev positive : Option ℕ → ℕ
positive none = 0
positive (some v) = if eqb v 0 then 0 else 1

positives-put :
    (k : String) (v : ℕ) (m : Dict ℕ)
    → positives (put k v m) + positive (get k m) ≡ positives m + positive (some v)
unfolding positives
positives-put k v [] = ground arith
positives-put k v ((j, w) ∷ m) = ground (arith, positives-put k v m)

-- The rounds that are still possible.
abbrev measure : Progress → ℕ
measure p = length p.ready + positives p.remaining

measure-release_one : (d : String) (p : Progress) → measure (release_one d p) ≤ measure p
unfolding release_one
measure-release_one d p = ground (
  arith,
  positives-put d (or_else (get d p.remaining) 0 - 1) p.remaining,
  length-append p.ready (d ∷ []),
)

measure-release_all : (ds : List String) (p : Progress) → measure (release_all ds p) ≤ measure p
unfolding release_all
measure-release_all [] p = omega arith
measure-release_all (d ∷ ds) p =
    omega (arith, measure-release_one d p, measure-release_all ds (release_one d p))

length-insert_by :
    (order : Dict ℕ) (id : String) (ids : List String)
    → length (insert_by order id ids) ≡ suc (length ids)
unfolding insert_by
length-insert_by order id [] = refl
length-insert_by order id (other ∷ ids) = ground (arith, length-insert_by order id ids)

pub length-sort_by : (order : Dict ℕ) (ids : List String) → length (sort_by order ids) ≡ length ids
unfolding sort_by
length-sort_by order [] = refl
length-sort_by order (id ∷ ids) =
    omega (arith, length-insert_by order id (sort_by order ids), length-sort_by order ids)

drain-ne-none :
    (order : Dict ℕ) (dependents : Dict (List String)) (fuel : ℕ) (p : Progress)
    (sorted : List String)
    → measure p ≤ fuel
    → drain order dependents fuel p sorted ≢ none
unfolding drain
drain-ne-none order dependents zero p sorted h = elim (List-cases p.ready) [
  | inl e ↦ ground arith
  | inr (id, queue, e) ↦ ground arith
]
drain-ne-none order dependents (suc fuel) p sorted h = elim (List-cases (sort_by order p.ready)) [
  | inl e ↦ ground arith
  | inr (id, queue, e) ↦
      let q : Progress = record p { ready = queue } in
      let ds : List String = or_else (get id dependents) [] in
      ground (
        arith,
        length-sort_by order p.ready,
        measure-release_all ds q,
        drain-ne-none order dependents fuel (release_all ds q) (sorted ++ id ∷ []),
      )
]

positives-count_dependencies :
    (nodes : List Node) (c : Counts)
    → positives (count_dependencies nodes c).remaining ≤ positives c.remaining + length nodes
unfolding count_dependencies
positives-count_dependencies [] c = omega arith
positives-count_dependencies (node ∷ nodes) c =
    let next : Counts = record {
      dependents = add_dependents node.id node.dependencies c.dependents;
      remaining = put node.id (length node.dependencies) c.remaining;
    } in
    ground (
      arith,
      positives-count_dependencies nodes next,
      positives-put node.id (length node.dependencies) c.remaining,
    )

length-initially_ready : (nodes : List Node) → length (initially_ready nodes) ≤ length nodes
unfolding initially_ready
length-initially_ready [] = omega arith
length-initially_ready (node ∷ nodes) = ground (arith, length-initially_ready nodes)

-- The loop that orders the ids never runs out of its fuel.
pub topological_ids?-ne-none : (nodes : List Node) → topological_ids? nodes ≢ none
unfolding topological_ids?
topological_ids?-ne-none nodes =
    let counts = count_dependencies nodes no_counts in
    drain-ne-none (declaration_order nodes) counts.dependents (2 * length nodes)
      (record { remaining = counts.remaining; ready = initially_ready nodes }) []
      (unfold positives in
        omega (arith, length-initially_ready nodes, positives-count_dependencies nodes no_counts))
