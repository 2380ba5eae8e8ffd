-- ===== src/Domain/Graph/Topological/Complete.antt =====
-- The order of `topologicalIds`: every id after its dependencies, and all of them if there is no cycle.
use pi_build_conductor.Prelude.{
  ℕ, zero, suc, ◌*◌, String, true, false, ◌||◌, some, List, [], ◌∷◌, ◌++◌, ◌≡◌, refl, sym, ◌∙◌,
  subst, arith, includes, is_distinct, All, All-includes, All-of, length, ◌==◌, string_eq, nat_eq,
  eq_of_beq, Bool-cases, List-cases, Option-cases, inl, inr, some-injective,
}
use pi_build_conductor.Domain.Graph.{Node}
use pi_build_conductor.Domain.Graph.Cycle.{dependency_map, ids}
use pi_build_conductor.Domain.Graph.Cycle.Acyclic.{DepsBelow, find_cycle-DepsBelow}
use pi_build_conductor.Domain.Graph.Cycle.Found.{IsCycle}
use pi_build_conductor.Domain.Graph.Cycle.Exact.{find_cycle-done_iff}
use pi_build_conductor.Domain.Graph.Topological.{
  Progress, sort_by, drain, topological_ids?, topological_ids, declaration_order,
  count_dependencies, initially_ready, no_counts,
}
use pi_build_conductor.Domain.Graph.Topological.Fuel.{topological_ids?-ne-none}
use pi_build_conductor.Domain.Graph.Topological.Counted.{
  open_count, includes-sort_by, is_distinct-sort_by,
}
use pi_build_conductor.Domain.Graph.Topological.Dependents.{
  dependencies_of, All-dependencies_of, left-at_first, includes-initially_ready,
  is_distinct-initially_ready,
}
use pi_build_conductor.Domain.Graph.Topological.Ordered.{
  Follows, IsGraph, IsProgress, is_free, next, next-IsProgress, open_count-all,
}

-- The loop ends with every id whose dependencies are sorted.
record IsFinal (nodes : List Node) (sorted : List String) : Type 0 where
  placed : (x : String) → includes x sorted ≡ is_free nodes sorted x
  once : is_distinct sorted ≡ true
  ordered : Follows (dependencies_of nodes) [] sorted

module _ (nodes : List Node) (graph : IsGraph nodes) where
  finished :
      (p : Progress) (sorted : List String)
      → IsProgress nodes p sorted
      → ((x : String) → includes x p.ready ≡ false)
      → IsFinal nodes sorted
  finished p sorted h none_left = record {
    placed = λ x. ground (arith, h.placed x, none_left x);
    once = h.once;
    ordered = h.ordered;
  }

  drain-IsFinal :
      (fuel : ℕ) (p : Progress) (sorted last : List String)
      → IsProgress nodes p sorted
      → drain
          (declaration_order nodes)
          (count_dependencies nodes no_counts).dependents
          fuel
          p
          sorted
        ≡ some last
      → IsFinal nodes last
  unfolding drain
  drain-IsFinal zero p sorted last h e = elim (List-cases p.ready) [
    | inl q ↦
        subst (IsFinal nodes) (some-injective (rw (q, drain) at e))
          (finished p sorted h (λ x. rw q refl))
    | inr (id, queue, q) ↦ absurd (cc (rw (q, drain) at e))
  ]
  drain-IsFinal (suc fuel) p sorted last h e =
      let order = declaration_order nodes in
      elim (List-cases (sort_by order p.ready)) [
        | inl q ↦
            subst (IsFinal nodes) (some-injective (rw (q, drain) at e))
              (finished p sorted h λ x. sym (includes-sort_by order x p.ready) ∙ rw q refl)
        | inr (id, queue, q) ↦
            let taken : (x : String) → includes x p.ready ≡ (id == x || includes x queue) =
              λ x. sym (includes-sort_by order x p.ready) ∙ rw q refl in
            let apart : is_distinct (id ∷ queue) ≡ true =
              rw q at (is_distinct-sort_by order p.ready ∙ h.queued) in
            elim (Bool-cases (id == "")) [
              | inl empty ↦
                  let no_name = graph.named in
                  let same = eq_of_beq id "" empty in
                  let ready_id = taken "" in let place = h.placed "" in absurd (ground arith)
              | inr named ↦
                  drain-IsFinal fuel
                    (next nodes graph p sorted id queue h taken (ground arith) (ground arith))
                    (sorted ++ id ∷ []) last
                    (next-IsProgress nodes graph p sorted id queue h taken (ground arith)
                      (ground arith))
                    (rw (q, named, drain) at e)
            ]
      ]

  open_count-nil : (ds : List String) → open_count [] ds ≡ length ds
  open_count-nil [] = refl
  open_count-nil (d ∷ ds) = omega (arith, open_count-nil ds)

  at_first :
      IsProgress nodes
        (record {
          remaining = (count_dependencies nodes no_counts).remaining;
          ready = initially_ready nodes;
        })
        []
  at_first = record {
    counts = λ x. left-at_first nodes x ∙ sym (open_count-nil (dependencies_of nodes x));
    placed = λ x. ground (
      arith,
      includes-initially_ready nodes graph.distinct x,
      open_count-nil (dependencies_of nodes x),
    );
    queued = is_distinct-initially_ready nodes graph.distinct;
    once = refl;
    apart = λ x m. refl;
    ordered = tt;
  }

  topological_ids-IsFinal : IsFinal nodes (topological_ids nodes)
  unfolding topological_ids topological_ids?
  topological_ids-IsFinal = elim (Option-cases (topological_ids? nodes)) [
    | inl q ↦ absurd (topological_ids?-ne-none nodes q)
    | inr (order, q) ↦ rw q (drain-IsFinal (2 * length nodes) _ [] order at_first q)
  ]

  -- A list in which every id comes after its dependencies holds only sorted ids.
  DepsBelow-sorted :
      (sorted visited : List String)
      → IsFinal nodes sorted
      → DepsBelow (dependency_map nodes) visited
      → (x : String) → includes x visited ≡ true
      → includes x (ids nodes) ≡ true
      → includes x sorted ≡ true
  DepsBelow-sorted sorted [] final below x m d = absurd (cc)
  DepsBelow-sorted sorted (id ∷ visited) final below x m d = elim (Bool-cases (id == x)) [
    | inr q ↦ DepsBelow-sorted sorted visited final below.1 x (rw q at m) d
    | inl q ↦
        let same = eq_of_beq id x q in
        let earlier : All (λ y. includes y visited ≡ true) (dependencies_of nodes x) =
          rw same at (below.0) in
        let known =
          All-dependencies_of (All (λ y. includes y (ids nodes) ≡ true)) nodes graph.known tt x in
        let closed = open_count-all sorted (dependencies_of nodes x) (
          All-of _ (dependencies_of nodes x) λ y k.
            DepsBelow-sorted sorted visited final below.1 y
              (All-includes (λ z. includes z visited ≡ true) y (dependencies_of nodes x) earlier k)
              (All-includes (λ z. includes z (ids nodes) ≡ true) y (dependencies_of nodes x) known
                k)) in
        ground (arith, final.placed x)
  ]

pub record IsOrder (nodes : List Node) (order : List String) : Type 0 where
  pub follows : Follows (dependencies_of nodes) [] order
  pub once : is_distinct order ≡ true
  pub exact : (x : String) → includes x order ≡ includes x (ids nodes)

-- If the ids of a graph are distinct and not empty, no node repeats a dependency or has one that
-- is not declared, and the dependencies have no cycle, the order holds exactly the declared ids,
-- each of them once and after its dependencies.
pub topological_ids-IsOrder :
    (nodes : List Node)
    → IsGraph nodes
    → ((cycle : List String) → ¬ (IsCycle (dependency_map nodes) cycle))
    → IsOrder nodes (topological_ids nodes)
topological_ids-IsOrder nodes graph acyclic =
    let (s, e) = (find_cycle-done_iff nodes).1 acyclic in
    let (below, seen) = find_cycle-DepsBelow nodes s e in
    let final = topological_ids-IsFinal nodes graph in
    record {
      follows = final.ordered;
      once = final.once;
      exact = λ x. elim (Bool-cases (includes x (ids nodes))) [
        | inl q ↦
            DepsBelow-sorted nodes graph (topological_ids nodes) s.visited final below x
              (All-includes (λ y. includes y s.visited ≡ true) x (ids nodes) seen q) q
            ∙ sym q
        | inr q ↦ ground (arith, final.placed x)
      ];
    }
