-- ===== src/Domain/Graph/Cycle/Exact.antt =====
-- The search reports no cycle exactly if the graph has none.
use pi_build_conductor.Prelude.{
  String, true, List, [], ◌∷◌, ◌++◌, ◌||◌, ◌≡◌, ◌↔◌, refl, arith, inl, inr, Dict, get, put, or_else,
  includes, get-put, is_some, All, All-includes, Bool-cases, Option-cases, ◌==◌, string_eq,
  eq_of_beq,
}
use pi_build_conductor.Domain.Graph.{Node}
use pi_build_conductor.Domain.Graph.Cycle.{
  Search, done, ids, dependency_map, dependency_map_from, find_cycle,
}
use pi_build_conductor.Domain.Graph.Cycle.Restores.{Visit-cases}
use pi_build_conductor.Domain.Graph.Cycle.Fuel.{find_cycle-ends}
use pi_build_conductor.Domain.Graph.Cycle.Found.{Chain, IsCycle, find_cycle-IsCycle}
use pi_build_conductor.Domain.Graph.Cycle.Acyclic.{DepsBelow, find_cycle-DepsBelow}

module _ (dependencies : Dict (List String)) where
  abbrev deps : String → List String
  deps id = or_else (get id dependencies) []

  -- An order holds the dependencies of its ids.
  DepsBelow-deps :
      (order : List String) (x y : String)
      → DepsBelow dependencies order
      → includes x order ≡ true
      → includes y (deps x) ≡ true
      → includes y order ≡ true
  DepsBelow-deps [] x y below m d = absurd (cc)
  DepsBelow-deps (id ∷ order) x y below m d = elim (Bool-cases (id == x)) [
    | inl q ↦
        let inside =
          All-includes (λ z. includes z order ≡ true) y (deps id) below.0
            (rw (eq_of_beq id x q) d) in
        ground arith
    | inr q ↦ let inside = DepsBelow-deps order x y below.1 (rw q at m) d in ground arith
  ]

  -- A chain that starts in an order stays in it.
  Chain-last :
      (order middle : List String) (x last : String)
      → DepsBelow dependencies order
      → includes x order ≡ true
      → Chain dependencies (x ∷ (middle ++ last ∷ []))
      → includes last order ≡ true
  Chain-last order [] x last below m c = DepsBelow-deps order x last below m c.0
  Chain-last order (y ∷ middle) x last below m c =
      Chain-last order middle y last below (DepsBelow-deps order x y below m c.0) c.1

  Chain-next :
      (middle : List String) (x last : String)
      → Chain dependencies (x ∷ (middle ++ last ∷ []))
      → (y : String) × (includes y (deps x) ≡ true)
  Chain-next [] x last c = (last, c.0)
  Chain-next (y ∷ middle) x last c = (y, c.0)

  -- From the first dependency on the chain.
  Chain-inside :
      (order middle : List String) (x last : String)
      → DepsBelow dependencies order
      → All (λ d. includes d order ≡ true) (deps x)
      → Chain dependencies (x ∷ (middle ++ last ∷ []))
      → includes last order ≡ true
  Chain-inside order [] x last below inside c =
      All-includes (λ z. includes z order ≡ true) last (deps x) inside c.0
  Chain-inside order (y ∷ middle) x last below inside c =
      Chain-last order middle y last below
        (All-includes (λ z. includes z order ≡ true) y (deps x) inside c.0) c.1

  DepsBelow-no_cycle :
      (order middle : List String) (first : String)
      → DepsBelow dependencies order
      → Chain dependencies (first ∷ (middle ++ first ∷ []))
      → includes first order ≡ true
      → ⊥
  DepsBelow-no_cycle [] middle first below c m = cc
  DepsBelow-no_cycle (id ∷ order) middle first below c m = elim (Bool-cases (id == first)) [
    | inr q ↦ DepsBelow-no_cycle order middle first below.1 c (rw q at m)
    | inl q ↦
        DepsBelow-no_cycle order middle first below.1 c
          (Chain-inside order middle first first below.1 (rw (eq_of_beq id first q) at (below.0)) c)
  ]

  known_of_deps : (x y : String) → includes y (deps x) ≡ true → is_some (get x dependencies) ≡ true
  known_of_deps x y h = elim (Option-cases (get x dependencies)) [
    | inl q ↦ absurd (cc (rw q at h))
    | inr (l, q) ↦ rw q refl
  ]

dependency_map_from-known :
    (nodes : List Node) (m : Dict (List String)) (x : String)
    → is_some (get x (dependency_map_from nodes m)) ≡ true
    → (includes x (ids nodes) || is_some (get x m)) ≡ true
unfolding dependency_map_from
dependency_map_from-known [] m x h = h
dependency_map_from-known (node ∷ nodes) m x h =
    let known = dependency_map_from-known nodes (put node.id node.dependencies m) x h in
    ground (arith, get-put node.id x node.dependencies m)

dependency_map-known :
    (nodes : List Node) (x : String)
    → is_some (get x (dependency_map nodes)) ≡ true
    → includes x (ids nodes) ≡ true
unfolding dependency_map
dependency_map-known nodes x h = let known = dependency_map_from-known nodes [] x h in ground arith

-- The search ends without a cycle exactly if the dependencies have none.
pub find_cycle-done_iff :
    (nodes : List Node)
    → ((s : Search) × (find_cycle nodes ≡ done s))
      ↔ ((cycle : List String) → ¬ (IsCycle (dependency_map nodes) cycle))
find_cycle-done_iff nodes = (
  λ (s, e) cycle (first, middle, same, chain).
      let m = dependency_map nodes in
      let (below, seen) = find_cycle-DepsBelow nodes s e in
      let c : Chain m (first ∷ (middle ++ first ∷ [])) = rw same at chain in
      let (y, d) = Chain-next m middle first first c in
      DepsBelow-no_cycle m s.visited middle first below c (
        All-includes (λ id. includes id s.visited ≡ true) first (ids nodes) seen
          (dependency_map-known nodes first (known_of_deps m first y d))),
  λ acyclic. elim (Visit-cases (find_cycle nodes)) [
    | inl q ↦ absurd (find_cycle-ends nodes q)
    | inr (inl (cycle, q)) ↦ absurd (acyclic cycle (find_cycle-IsCycle nodes cycle q))
    | inr (inr (s, q)) ↦ (s, q)
  ],
)
