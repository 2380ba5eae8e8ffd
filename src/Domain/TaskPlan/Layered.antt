-- ===== src/Domain/TaskPlan/Layered.antt =====
-- `analyzeTaskPlan` of src/domain/dag.ts: a task is in the earliest layer after its dependencies.
use pi_build_conductor.Prelude.{
  ℕ, zero, suc, ◌<◌, String, true, ◌&&◌, ◌||◌, List, [], ◌∷◌, ok, ◌≡◌, inl, inr, refl, ap, ◌∙◌,
  arith, Dict, includes, includes-append, All, All-includes, eqb, ◌==◌, string_eq, nat_eq,
  eq_of_beq, Bool-cases,
}
use pi_build_conductor.Domain.Types.{TaskPlan}
use pi_build_conductor.Domain.Graph.{Node}
use pi_build_conductor.Domain.Graph.Cycle.{dependency_map, ids}
use pi_build_conductor.Domain.Graph.Topological.{topological_ids}
use pi_build_conductor.Domain.Graph.Topological.Dependents.{dependencies_of, All-dependencies_of}
use pi_build_conductor.Domain.Graph.Topological.Ordered.{IsGraph}
use pi_build_conductor.Domain.Graph.Topological.Complete.{IsOrder, topological_ids-IsOrder}
use pi_build_conductor.Domain.TaskPlan.{task_nodes}
use pi_build_conductor.Domain.TaskPlan.Valid.{IsTaskPlan}
use pi_build_conductor.Domain.TaskPlan.RoundTrip.{validate_task_plan_result-task_plan_value}
use pi_build_conductor.Domain.TaskPlan.Ordered.{task_nodes-IsGraph}
use pi_build_conductor.Domain.TaskPlan.Analysis.{
  TaskPlanAnalysis, layer_of, layers_by_task, push_layer, group_layers, analysis_of,
  analyze_task_plan,
}
use pi_build_conductor.Domain.TaskPlan.Levels.{
  level, layer_of-rises, layer_of-tight, layers_by_task-level,
}

abbrev pub layer_at : ℕ → List (List String) → List String
layer_at n [] = []
layer_at zero (layer ∷ layers) = layer
layer_at (suc n) (layer ∷ layers) = layer_at n layers

layer_at-push_layer :
    (n k : ℕ) (id x : String) (layers : List (List String))
    → includes x (layer_at n (push_layer k id layers))
      ≡ (includes x (layer_at n layers) || (eqb k n && id == x))
unfolding push_layer
layer_at-push_layer zero zero id x [] = ground arith
layer_at-push_layer (suc n) zero id x [] = ground arith
layer_at-push_layer zero (suc k) id x [] = ground arith
layer_at-push_layer (suc n) (suc k) id x [] = ground (arith, layer_at-push_layer n k id x [])
layer_at-push_layer zero zero id x (layer ∷ layers) =
    ground (arith, includes-append x layer (id ∷ []))
layer_at-push_layer (suc n) zero id x (layer ∷ layers) = ground arith
layer_at-push_layer zero (suc k) id x (layer ∷ layers) = ground arith
layer_at-push_layer (suc n) (suc k) id x (layer ∷ layers) =
    ground (arith, layer_at-push_layer n k id x layers)

layer_at-group_layers :
    (by_task : Dict ℕ) (n : ℕ) (x : String) (order : List String) (layers : List (List String))
    → includes x (layer_at n (group_layers by_task order layers))
      ≡ (includes x (layer_at n layers) || (includes x order && eqb (level by_task x) n))
unfolding group_layers
layer_at-group_layers by_task n x [] layers = ground arith
layer_at-group_layers by_task n x (id ∷ order) layers =
    let next = push_layer (level by_task id) id layers in
    let rest = layer_at-group_layers by_task n x order next in
    let first = layer_at-push_layer n (level by_task id) id x layers in
    elim (Bool-cases (id == x)) [
      | inl q ↦
          let same : level by_task id ≡ level by_task x = ap (level by_task) (eq_of_beq id x q) in
          ground arith
      | inr q ↦ ground arith
    ]

-- Layers of a graph: every id is in one layer, its dependencies are in earlier ones, and one of
-- them is in the layer just before.
pub record IsLayering (nodes : List Node) (layers : List (List String)) : Type 0 where
  pub located :
      (x : String)
      → includes x (ids nodes) ≡ true
      → (n : ℕ) × (includes x (layer_at n layers) ≡ true)
        × ((k : ℕ) → includes x (layer_at k layers) ≡ true → k ≡ n)
  pub declared :
      (x : String) (n : ℕ) → includes x (layer_at n layers) ≡ true → includes x (ids nodes) ≡ true
  pub rising :
      (x d : String) (n k : ℕ)
      → includes x (layer_at n layers) ≡ true
      → includes d (dependencies_of nodes x) ≡ true
      → includes d (layer_at k layers) ≡ true
      → k < n
  pub tight :
      (x : String) (n : ℕ)
      → includes x (layer_at (suc n) layers) ≡ true
      → (d : String) × (includes d (dependencies_of nodes x) ≡ true)
        × (includes d (layer_at n layers) ≡ true)

module _ (nodes : List Node) (order : List String) (graph : IsGraph nodes)
    (sorted : IsOrder nodes order) where
  abbrev by_task : Dict ℕ
  by_task = layers_by_task (dependency_map nodes) order []

  abbrev layers_of : List (List String)
  layers_of = group_layers by_task order []

  in_layer :
      (x : String) (n : ℕ)
      → includes x (layer_at n layers_of) ≡ (includes x (ids nodes) && eqb (level by_task x) n)
  in_layer x n =
      let grouped = layer_at-group_layers by_task n x order [] in
      let exact = sorted.exact x in ground arith

  level_of :
      (x : String)
      → includes x (ids nodes) ≡ true
      → level by_task x ≡ layer_of by_task (dependencies_of nodes x) 0
  level_of x k =
      layers_by_task-level (dependency_map nodes) [] order [] x sorted.follows sorted.once
        (λ y h. absurd (cc)) (sorted.exact x ∙ k)

  declared_dependency :
      (x d : String) → includes d (dependencies_of nodes x) ≡ true → includes d (ids nodes) ≡ true
  declared_dependency x d m =
      All-includes (λ y. includes y (ids nodes) ≡ true) d (dependencies_of nodes x)
        (All-dependencies_of (All (λ y. includes y (ids nodes) ≡ true)) nodes graph.known tt x) m

  pub layers-IsLayering : IsLayering nodes layers_of
  layers-IsLayering = record {
    located = λ x k. (
      level by_task x,
      ground (arith, in_layer x (level by_task x)),
      λ n h. ground (arith, in_layer x n),
    );
    declared = λ x n h. ground (arith, in_layer x n);
    rising = λ x d n k hx m hd.
        let rises = layer_of-rises by_task (dependencies_of nodes x) 0 d m in
        let own = level_of x (ground (arith, in_layer x n)) in
        ground (arith, in_layer x n, in_layer d k);
    tight = λ x n hx.
        let own = level_of x (ground (arith, in_layer x (suc n))) in
        elim (layer_of-tight by_task (dependencies_of nodes x) 0) [
          | inl e ↦ absurd (ground (arith, in_layer x (suc n)))
          | inr (d, m, e) ↦
              let known = declared_dependency x d m in
              (d, m, ground (arith, in_layer x (suc n), in_layer d n))
        ];
  }

-- If a task plan is well formed, its analysis returns an order of its tasks and layers in which
-- every task is in exactly one layer, each dependency of a task is in an earlier layer, and a
-- task that is not in the first layer has a dependency in the layer just before.
pub analyze_task_plan-IsLayering :
    (plan : TaskPlan)
    → IsTaskPlan plan
    → (analysis : TaskPlanAnalysis) × (analyze_task_plan plan ≡ ok analysis)
      × IsOrder (task_nodes plan.tasks) analysis.topological_order
      × IsLayering (task_nodes plan.tasks) analysis.layers
unfolding analyze_task_plan
analyze_task_plan-IsLayering plan h =
    let nodes = task_nodes plan.tasks in
    let graph = task_nodes-IsGraph plan h in
    let sorted = topological_ids-IsOrder nodes graph h.acyclic in
    (
      analysis_of plan,
      rw (validate_task_plan_result-task_plan_value plan h, analyze_task_plan) refl,
      sorted,
      layers-IsLayering nodes (topological_ids nodes) graph sorted,
    )
