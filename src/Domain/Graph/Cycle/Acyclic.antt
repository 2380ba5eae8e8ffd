-- ===== src/Domain/Graph/Cycle/Acyclic.antt =====
-- When the search finds no cycle, the visited ids are an order of the graph.
use pi_build_conductor.Prelude.{
  ℕ, zero, suc, String, true, List, [], ◌∷◌, ◌≡◌, arith, inl, inr, subst, sym, Dict, get, or_else,
  includes, All, Bool-cases, string_eq, beq_refl, length, ◌++◌, ◌+◌,
}
use pi_build_conductor.Domain.Graph.{Node}
use pi_build_conductor.Domain.Graph.Cycle.{
  Search, Visit, done, visit_each, visit, no_search, ids, dependency_map, find_cycle,
}
use pi_build_conductor.Domain.Graph.Cycle.Restores.{Visit-cases}

-- Every id of the list comes after its dependencies, the list read from its end.
abbrev pub DepsBelow : Dict (List String) → List String → Type 0
DepsBelow dependencies [] = Unit
DepsBelow dependencies (id ∷ rest) =
    All (λ d. includes d rest ≡ true) (or_else (get id dependencies) [])
    × DepsBelow dependencies rest

abbrev Grows : Search → Search → Type 0
Grows s t = (x : String) → includes x s.visited ≡ true → includes x t.visited ≡ true

module _ (dependencies : Dict (List String)) where
  -- What a visit that returns `undefined` has done.
  abbrev Visits : (String → Search → Visit) → Type 0
  Visits v =
      (id : String) (s t : Search)
      → v id s ≡ done t
      → DepsBelow dependencies s.visited
      → DepsBelow dependencies t.visited × (includes id t.visited ≡ true) × Grows s t

  visit_each-Visits :
      (v : String → Search → Visit)
      → Visits v
      → (queue : List String) (s t : Search) → visit_each v queue s ≡ done t
      → DepsBelow dependencies s.visited
      → DepsBelow dependencies t.visited × All (λ x. includes x t.visited ≡ true) queue × Grows s t
  unfolding visit_each
  visit_each-Visits v hv [] s t e b =
      let q : s ≡ t = cc in
      subst (λ (u : Search). DepsBelow dependencies u.visited × Unit {0} × Grows s u) q
        (b, tt, λ x h. h)
  visit_each-Visits v hv (id ∷ queue) s t e b = elim (Visit-cases (v id s)) [
    | inl p ↦ absurd (ground arith)
    | inr (inl (c, p)) ↦ absurd (ground arith)
    | inr (inr (u, p)) ↦
        let (below, seen, grows) = hv id s u p b in
        let (below', all_seen, grows') = visit_each-Visits v hv queue u t (ground arith) below in
        (below', (grows' id seen, all_seen), λ x h. grows' x (grows x h))
  ]

  visit-Visits : (fuel : ℕ) → Visits (visit dependencies fuel)
  unfolding visit
  visit-Visits zero id s t e b = absurd (cc)
  visit-Visits (suc fuel) id s t e b = elim (Bool-cases (includes id s.visiting)) [
    | inl p ↦ absurd (ground arith)
    | inr p ↦ elim (Bool-cases (includes id s.visited)) [
      | inl q ↦
          let r : s ≡ t = ground arith in
          subst
            (λ (u : Search).
              DepsBelow dependencies u.visited × (includes id u.visited ≡ true) × Grows s u)
            r (b, q, λ x h. h)
      | inr q ↦
          let inner : Search = record s { visiting = id ∷ s.visiting; path = s.path ++ id ∷ [] } in
          let deps : List String = or_else (get id dependencies) [] in
          elim (Visit-cases (visit_each (visit dependencies fuel) deps inner)) [
            | inl w ↦ absurd (ground arith)
            | inr (inl (c, w)) ↦ absurd (ground arith)
            | inr (inr (u, w)) ↦
                let (below, all_seen, grows) =
                  visit_each-Visits (visit dependencies fuel) (visit-Visits fuel) deps inner u w
                    b in
                let r : t.visited ≡ id ∷ u.visited = ground arith in
                subst
                  (λ (l : List String).
                    DepsBelow dependencies l
                    × (includes id l ≡ true)
                    × ((x : String) → includes x s.visited ≡ true → includes x l ≡ true))
                  (sym r) ((all_seen, below), rw (beq_refl id), λ x h. ground (arith, grows x h))
          ]
    ]
  ]

-- If the search reports no cycle, all declared ids were visited, each after its dependencies.
pub find_cycle-DepsBelow :
    (nodes : List Node) (s : Search)
    → find_cycle nodes ≡ done s
    → DepsBelow (dependency_map nodes) s.visited
      × All (λ id. includes id s.visited ≡ true) (ids nodes)
unfolding find_cycle
find_cycle-DepsBelow nodes s e =
    let m = dependency_map nodes in
    let (below, all_visited, _) =
      visit_each-Visits m (visit m (length nodes + 2)) (visit-Visits m (length nodes + 2))
        (ids nodes) no_search s e tt in
    (below, all_visited)
