-- ===== src/Domain/Graph/Topological/Dependents.antt =====
-- The first loop of `topologicalIds`: its two maps against the dependencies of the nodes.
use pi_build_conductor.Prelude.{
  String, Bool, true, false, ◌&&◌, some, List, [], ◌∷◌, ◌++◌, append-nil, append_assoc, ◌≡◌, refl,
  sym, ◌∙◌, arith, Dict, get, put, get-put, or_else, includes, is_distinct, All, eqb, length,
  if◌then◌else◌, ◌==◌, string_eq, nat_eq, eq_of_beq, Bool-cases, inl, inr,
}
use pi_build_conductor.Domain.Graph.{Node}
use pi_build_conductor.Domain.Graph.Cycle.{dependency_map_from, dependency_map, ids}
use pi_build_conductor.Domain.Graph.Topological.{
  Counts, no_counts, add_dependents, count_dependencies, initially_ready,
}

abbrev pub listed : String → Dict (List String) → List String
listed id m = or_else (get id m) []

-- The ids of the nodes whose dependencies pass a test.
unfoldable pub selected : (List String → Bool) → List Node → List String
selected p [] = []
selected p (node ∷ nodes) =
    let rest = selected p nodes in if p node.dependencies then node.id ∷ rest else rest

initially_ready-selected :
    (nodes : List Node) → initially_ready nodes ≡ selected (λ ds. eqb (length ds) 0) nodes
unfolding initially_ready selected
initially_ready-selected [] = refl
initially_ready-selected (node ∷ nodes) = rw (initially_ready-selected nodes) refl

dependency_map_from-other :
    (nodes : List Node) (m : Dict (List String)) (x : String)
    → includes x (ids nodes) ≡ false
    → get x (dependency_map_from nodes m) ≡ get x m
unfolding dependency_map_from
dependency_map_from-other [] m x h = refl
dependency_map_from-other (node ∷ nodes) m x h =
    let rest = dependency_map_from-other nodes (put node.id node.dependencies m) x (ground arith) in
    ground (arith, get-put node.id x node.dependencies m)

includes-selected_from :
    (p : List String → Bool) (nodes : List Node) (m : Dict (List String)) (x : String)
    → is_distinct (ids nodes) ≡ true
    → includes x (selected p nodes)
      ≡ (includes x (ids nodes) && p (listed x (dependency_map_from nodes m)))
unfolding selected dependency_map_from
includes-selected_from p [] m x h = refl
includes-selected_from p (node ∷ nodes) m x h =
    let next = put node.id node.dependencies m in
    let rest = includes-selected_from p nodes next x (ground arith) in
    elim (Bool-cases (node.id == x)) [
      | inl q ↦
          let same = eq_of_beq node.id x q in
          let once : includes node.id (ids nodes) ≡ false = ground arith in
          let gone : includes x (ids nodes) ≡ false = rw same at once in
          let found : get x (dependency_map_from nodes next) ≡ some node.dependencies =
            dependency_map_from-other nodes next x gone
            ∙ get-put node.id x node.dependencies m
            ∙ rw q refl in
          let value : listed x (dependency_map_from nodes next) ≡ node.dependencies =
            rw found refl in
          rw (q, value) (ground arith)
      | inr q ↦ ground arith
    ]

abbrev pub dependencies_of : List Node → String → List String
dependencies_of nodes id = listed id (dependency_map nodes)

module _ (nodes : List Node) (distinct : is_distinct (ids nodes) ≡ true) where
  includes-selected :
      (p : List String → Bool) (x : String)
      → includes x (selected p nodes) ≡ (includes x (ids nodes) && p (dependencies_of nodes x))
  unfolding dependency_map
  includes-selected p x = includes-selected_from p nodes [] x distinct

  pub includes-initially_ready :
      (x : String)
      → includes x (initially_ready nodes)
        ≡ (includes x (ids nodes) && eqb (length (dependencies_of nodes x)) 0)
  includes-initially_ready x =
      rw (initially_ready-selected nodes) (includes-selected (λ ds. eqb (length ds) 0) x)

is_distinct-selected :
    (p : List String → Bool) (nodes : List Node)
    → is_distinct (ids nodes) ≡ true
    → is_distinct (selected p nodes) ≡ true
unfolding selected
is_distinct-selected p [] h = refl
is_distinct-selected p (node ∷ nodes) h =
    let rest = is_distinct-selected p nodes (ground arith) in
    let within = includes-selected_from p nodes [] node.id (ground arith) in ground arith

pub is_distinct-initially_ready :
    (nodes : List Node)
    → is_distinct (ids nodes) ≡ true
    → is_distinct (initially_ready nodes) ≡ true
is_distinct-initially_ready nodes h =
    rw (initially_ready-selected nodes) (is_distinct-selected _ nodes h)

-- An id that is not declared has no dependencies.
pub undeclared :
    (nodes : List Node) (x : String) → includes x (ids nodes) ≡ false → dependencies_of nodes x ≡ []
unfolding dependency_map
undeclared nodes x h = rw (dependency_map_from-other nodes [] x h) refl

All-dependencies_from :
    (P : List String → Type 0) (nodes : List Node) (m : Dict (List String))
    → All (λ node. P node.dependencies) nodes
    → ((x : String) → P (listed x m))
    → (x : String) → P (listed x (dependency_map_from nodes m))
unfolding dependency_map_from
All-dependencies_from P [] m h before = before
All-dependencies_from P (node ∷ nodes) m h before =
    All-dependencies_from P nodes (put node.id node.dependencies m) h.1 λ x.
      elim (Bool-cases (node.id == x)) [
        | inl q ↦ rw (get-put node.id x node.dependencies m, q) (h.0)
        | inr q ↦ rw (get-put node.id x node.dependencies m, q) (before x)
      ]

-- What holds of the dependencies of every node, and of no dependencies, holds of those of any id.
pub All-dependencies_of :
    (P : List String → Type 0) (nodes : List Node)
    → All (λ node. P node.dependencies) nodes
    → P []
    → (x : String) → P (dependencies_of nodes x)
unfolding dependency_map
All-dependencies_of P nodes h none_of x = All-dependencies_from P nodes [] h (λ y. none_of) x

listed-add_dependents :
    (id y : String) (ds : List String) (m : Dict (List String))
    → is_distinct ds ≡ true
    → listed y (add_dependents id ds m) ≡ listed y m ++ (if includes y ds then id ∷ [] else [])
unfolding add_dependents
listed-add_dependents id y [] m h = sym (append-nil (listed y m))
listed-add_dependents id y (d ∷ ds) m h =
    let next = put d (listed d m ++ id ∷ []) m in
    let rest = listed-add_dependents id y ds next (ground arith) in
    elim (Bool-cases (d == y)) [
      | inl q ↦
          let same = eq_of_beq d y q in
          let once : includes d ds ≡ false = ground arith in
          let gone : includes y ds ≡ false = rw same at once in
          rw (rest, get-put d y (listed d m ++ id ∷ []) m, q, gone, same)
            (append-nil (listed y m ++ id ∷ []))
      | inr q ↦ rw (rest, get-put d y (listed d m ++ id ∷ []) m, q) refl
    ]

-- The ids of the nodes that depend on an id.
abbrev users : String → List Node → List String
users y nodes = selected (includes y) nodes

listed-count_dependencies :
    (y : String) (nodes : List Node) (c : Counts)
    → All (λ node. is_distinct node.dependencies ≡ true) nodes
    → listed y (count_dependencies nodes c).dependents ≡ listed y c.dependents ++ users y nodes
unfolding count_dependencies selected
listed-count_dependencies y [] c h = sym (append-nil (listed y c.dependents))
listed-count_dependencies y (node ∷ nodes) c h =
    let next : Counts = record {
      dependents = add_dependents node.id node.dependencies c.dependents;
      remaining = put node.id (length node.dependencies) c.remaining;
    } in
    let rest = listed-count_dependencies y nodes next h.1 in
    let first = listed-add_dependents node.id y node.dependencies c.dependents h.0 in
    elim (Bool-cases (includes y node.dependencies)) [
      | inl q ↦
          rw (rest, first, q) (append_assoc (listed y c.dependents) (node.id ∷ []) (users y nodes))
      | inr q ↦ rw (rest, first, q) (append_assoc (listed y c.dependents) [] (users y nodes))
    ]

-- The ids that the first loop lists under an id, which are released with it.
abbrev pub dependents_of : List Node → String → List String
dependents_of nodes id = listed id (count_dependencies nodes no_counts).dependents

pub includes-dependents_of :
    (nodes : List Node) (x y : String)
    → is_distinct (ids nodes) ≡ true
    → All (λ node. is_distinct node.dependencies ≡ true) nodes
    → includes x (dependents_of nodes y)
      ≡ (includes x (ids nodes) && includes y (dependencies_of nodes x))
includes-dependents_of nodes x y distinct each =
    rw (listed-count_dependencies y nodes no_counts each)
      (includes-selected nodes distinct (includes y) x)

pub is_distinct-dependents_of :
    (nodes : List Node) (y : String)
    → is_distinct (ids nodes) ≡ true
    → All (λ node. is_distinct node.dependencies ≡ true) nodes
    → is_distinct (dependents_of nodes y) ≡ true
is_distinct-dependents_of nodes y distinct each =
    rw (listed-count_dependencies y nodes no_counts each)
      (is_distinct-selected (includes y) nodes distinct)

left-count_dependencies :
    (nodes : List Node) (c : Counts) (m : Dict (List String))
    → ((x : String) → or_else (get x c.remaining) 0 ≡ length (listed x m))
    → (x : String)
    → or_else (get x (count_dependencies nodes c).remaining) 0
      ≡ length (listed x (dependency_map_from nodes m))
unfolding count_dependencies dependency_map_from
left-count_dependencies [] c m before x = before x
left-count_dependencies (node ∷ nodes) c m before x =
    left-count_dependencies nodes
      (record {
        dependents = add_dependents node.id node.dependencies c.dependents;
        remaining = put node.id (length node.dependencies) c.remaining;
      })
      (put node.id node.dependencies m)
      (λ y. ground (
        arith,
        before y,
        get-put node.id y (length node.dependencies) c.remaining,
        get-put node.id y node.dependencies m,
      ))
      x

-- At first every dependency of an id is counted.
pub left-at_first :
    (nodes : List Node) (x : String)
    → or_else (get x (count_dependencies nodes no_counts).remaining) 0
      ≡ length (dependencies_of nodes x)
unfolding dependency_map
left-at_first nodes x = left-count_dependencies nodes no_counts [] (λ y. refl) x
