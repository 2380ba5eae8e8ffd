-- ===== src/Domain/Graph/Topological/Ordered.antt =====
-- A round of the loop of `topologicalIds`: it takes an id whose dependencies are all sorted.
use pi_build_conductor.Prelude.{
  ◌+◌, String, Bool, true, false, ◌&&◌, ◌||◌, List, [], ◌∷◌, ◌++◌, ◌≡◌, refl, sym, ◌∙◌, arith,
  includes, includes-append, is_distinct, All, All-of, eqb, ◌==◌, string_eq, nat_eq, eq_of_beq,
  beq_refl, Bool-cases, inl, inr,
}
use pi_build_conductor.Domain.Graph.{Node}
use pi_build_conductor.Domain.Graph.Cycle.{ids}
use pi_build_conductor.Domain.Graph.Topological.{Progress, release_all}
use pi_build_conductor.Domain.Graph.Topological.Counted.{
  open_count, open_count-append, one_if, left, left-release_all, ready-release_all,
  is_distinct-release_all, is_distinct-append_one,
}
use pi_build_conductor.Domain.Graph.Topological.Dependents.{
  dependencies_of, dependents_of, undeclared, All-dependencies_of, includes-dependents_of,
  is_distinct-dependents_of,
}

-- Each id comes after its dependencies; `before` holds the ids before the list.
abbrev pub Follows : (String → List String) → List String → List String → Type 0
Follows dependencies before [] = Unit
Follows dependencies before (id ∷ rest) =
    All (λ d. includes d before ≡ true) (dependencies id) × Follows dependencies (id ∷ before) rest

Follows-append :
    (dependencies : String → List String) (before sorted : List String) (id : String)
    → Follows dependencies before sorted
    → ((d : String)
        → includes d (dependencies id) ≡ true
        → (includes d sorted || includes d before) ≡ true)
    → Follows dependencies before (sorted ++ id ∷ [])
Follows-append dependencies before [] id h known =
    (All-of _ (dependencies id) (λ d m. known d m), tt)
Follows-append dependencies before (x ∷ sorted) id h known = (
  h.0,
  Follows-append dependencies (x ∷ before) sorted id h.1 (λ d m. let k = known d m in ground arith),
)

pub open_count-none :
    (sorted ds : List String) (d : String)
    → open_count sorted ds ≡ 0
    → includes d ds ≡ true
    → includes d sorted ≡ true
open_count-none sorted [] d h m = absurd (cc)
open_count-none sorted (x ∷ ds) d h m = elim (Bool-cases (x == d)) [
  | inl q ↦ let first : includes x sorted ≡ true = ground arith in rw (eq_of_beq x d q) at first
  | inr q ↦ open_count-none sorted ds d (ground arith) (rw q at m)
]

pub open_count-all :
    (sorted ds : List String) → All (λ d. includes d sorted ≡ true) ds → open_count sorted ds ≡ 0
open_count-all sorted [] h = refl
open_count-all sorted (d ∷ ds) h = ground (arith, open_count-all sorted ds h.1, h.0)

-- The graph of a valid plan: its ids are distinct and not empty, and no node repeats a dependency
-- or has one that is not declared.
pub record IsGraph (nodes : List Node) : Type 0 where
  pub distinct : is_distinct (ids nodes) ≡ true
  pub each : All (λ node. is_distinct node.dependencies ≡ true) nodes
  pub named : includes "" (ids nodes) ≡ false
  pub known : All (λ node. All (λ d. includes d (ids nodes) ≡ true) node.dependencies) nodes

-- The id is declared and all its dependencies are sorted.
abbrev pub is_free : List Node → List String → String → Bool
is_free nodes sorted x =
    includes x (ids nodes) && eqb (open_count sorted (dependencies_of nodes x)) 0

-- The loop between two rounds.
pub record IsProgress (nodes : List Node) (p : Progress) (sorted : List String) : Type 0 where
  pub counts : (x : String) → left p x ≡ open_count sorted (dependencies_of nodes x)
  pub placed : (x : String) → (includes x p.ready || includes x sorted) ≡ is_free nodes sorted x
  pub queued : is_distinct p.ready ≡ true
  pub once : is_distinct sorted ≡ true
  pub apart : (x : String) → includes x p.ready ≡ true → includes x sorted ≡ false
  pub ordered : Follows (dependencies_of nodes) [] sorted

module _ (nodes : List Node) (graph : IsGraph nodes) where
  abbrev dependencies : String → List String
  dependencies = dependencies_of nodes

  distinct_dependencies : (x : String) → is_distinct (dependencies x) ≡ true
  distinct_dependencies = All-dependencies_of (λ ds. is_distinct ds ≡ true) nodes graph.each refl

  includes-dependents :
      (x id : String) → includes x (dependents_of nodes id) ≡ includes id (dependencies x)
  includes-dependents x id =
      let listed = includes-dependents_of nodes x id graph.distinct graph.each in
      elim (Bool-cases (includes x (ids nodes))) [
        | inl q ↦ ground arith
        | inr q ↦ rw (listed, q, undeclared nodes x q) refl
      ]

  module _ (p : Progress) (sorted : List String) (id : String) (queue : List String)
      (h : IsProgress nodes p sorted)
      (taken : (x : String) → includes x p.ready ≡ (id == x || includes x queue))
      (fresh : includes id queue ≡ false) (queued : is_distinct queue ≡ true) where
    abbrev pub next : Progress
    next = release_all (dependents_of nodes id) (record p { ready = queue })

    id_is_ready : includes id p.ready ≡ true
    id_is_ready = ground (arith, taken id, beq_refl id)

    open_after :
        (x : String)
        → open_count (sorted ++ id ∷ []) (dependencies x) + one_if (includes id (dependencies x))
          ≡ open_count sorted (dependencies x)
    open_after x =
        open_count-append sorted (dependencies x) id (distinct_dependencies x)
          (h.apart id id_is_ready)

    next_counts : (x : String) → left next x ≡ open_count (sorted ++ id ∷ []) (dependencies x)
    next_counts x = ground (
      arith,
      left-release_all (dependents_of nodes id) x (record p { ready = queue })
          (is_distinct-dependents_of nodes id graph.distinct graph.each),
      includes-dependents x id,
      h.counts x,
      open_after x,
    )

    -- An id that depends on the one taken is not in the queue and not sorted.
    waiting :
        (x : String)
        → includes id (dependencies x) ≡ true
        → (includes x p.ready || includes x sorted) ≡ false
    waiting x m = ground (arith, h.placed x, open_after x)

    next_ready :
        (x : String)
        → includes x next.ready ≡ (
            includes x queue
            || (includes id (dependencies x) && eqb (open_count sorted (dependencies x)) 1))
    next_ready x =
        let released =
          ready-release_all (dependents_of nodes id) x (record p { ready = queue })
            (is_distinct-dependents_of nodes id graph.distinct graph.each) in
        rw (released, includes-dependents x id, h.counts x) refl

    declared : (x : String) → includes id (dependencies x) ≡ true → includes x (ids nodes) ≡ true
    declared x m = elim (Bool-cases (includes x (ids nodes))) [
      | inl q ↦ q
      | inr q ↦ absurd (cc (rw (undeclared nodes x q) at m))
    ]

    next_placed :
        (x : String)
        → (includes x next.ready || includes x (sorted ++ id ∷ []))
          ≡ is_free nodes (sorted ++ id ∷ []) x
    next_placed x =
        let ready = next_ready x in
        let after = open_after x in
        let end = includes-append x sorted (id ∷ []) in
        let before = h.placed x in
        let first = taken x in
        elim (Bool-cases (includes id (dependencies x))) [
          | inl q ↦ let unplaced = waiting x q in let known = declared x q in ground arith
          | inr q ↦ ground arith
        ]

    next_apart :
        (x : String) → includes x next.ready ≡ true → includes x (sorted ++ id ∷ []) ≡ false
    next_apart x m =
        let ready = next_ready x in
        let end = includes-append x sorted (id ∷ []) in
        let first = taken x in
        elim (Bool-cases (includes id (dependencies x))) [
          | inl q ↦ let unplaced = waiting x q in ground arith
          | inr q ↦
              let other : (id == x) ≡ false = ground (arith, eq_of_beq id x) in
              let unsorted = h.apart x (ground arith) in ground arith
        ]

    pub next-IsProgress : IsProgress nodes next (sorted ++ id ∷ [])
    next-IsProgress =
        let unsorted = h.apart id id_is_ready in
        let free : is_free nodes sorted id ≡ true = ground (arith, h.placed id, id_is_ready) in
        record {
          counts = next_counts;
          placed = next_placed;
          queued =
              is_distinct-release_all (dependents_of nodes id) (record p { ready = queue })
                (is_distinct-dependents_of nodes id graph.distinct graph.each) queued
                (λ x m.
                  let unplaced = waiting x (sym (includes-dependents x id) ∙ m) in
                  let first = taken x in ground arith);
          once = ground (arith, is_distinct-append_one sorted id);
          apart = next_apart;
          ordered = Follows-append dependencies [] sorted id h.ordered (λ d m.
              let done = open_count-none sorted (dependencies id) d (ground arith) m in
              ground arith);
        }
