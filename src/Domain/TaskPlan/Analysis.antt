-- ===== src/Domain/TaskPlan/Analysis.antt =====
-- src/domain/dag.ts: the analysis of a task plan.
use pi_build_conductor.Prelude.{
  ℕ, zero, suc, ◌+◌, String, List, [], ◌∷◌, ◌++◌, Dict, get, put, or_else, leb, eqb, length,
  string_eq, if◌then◌else◌, Result, ok, ◌>>=◌,
}
use pi_build_conductor.Domain.Types.{TaskDefinition, TaskPlan}
use pi_build_conductor.Domain.Graph.Cycle.{dependency_map}
use pi_build_conductor.Domain.Graph.Topological.{
  topological_ids, count_dependencies, no_counts, initially_ready,
}
use pi_build_conductor.Domain.Reading.{PlanValidationIssue}
use pi_build_conductor.Domain.TaskPlan.{task_nodes, validate_task_plan_result}
use pi_build_conductor.Domain.TaskPlan.Document.{task_plan_value}

pub record TaskPlanEdge : Type 0 where
  pub from : String
  pub to : String

pub record TaskPlanAnalysis : Type 0 where
  pub topological_order : List String
  pub layers : List (List String)
  pub edges : List TaskPlanEdge
  pub roots : List String
  pub leaves : List String
  pub widest_layer : ℕ

abbrev edges_to : String → List String → List TaskPlanEdge
edges_to id [] = []
edges_to id (dependency ∷ dependencies) =
    record { from = dependency; to = id } ∷ edges_to id dependencies

unfoldable pub edges_of : List TaskDefinition → List TaskPlanEdge
edges_of [] = []
edges_of (task ∷ tasks) = edges_to task.id task.dependencies ++ edges_of tasks

abbrev max : ℕ → ℕ → ℕ
max a b = if leb a b then b else a

-- The fold over the dependencies of a task.
unfoldable pub layer_of : Dict ℕ → List String → ℕ → ℕ
layer_of layers [] maximum = maximum
layer_of layers (dependency ∷ dependencies) maximum =
    layer_of layers dependencies (max maximum (or_else (get dependency layers) 0 + 1))

unfoldable pub layers_by_task : Dict (List String) → List String → Dict ℕ → Dict ℕ
unfolding layer_of
layers_by_task dependencies [] layers = layers
layers_by_task dependencies (id ∷ ids) layers =
    layers_by_task dependencies ids
      (put id (layer_of layers (or_else (get id dependencies) []) 0) layers)

-- `layers[layer] = [...(layers[layer] ?? []), id]`; a layer that is passed over stays empty.
unfoldable pub push_layer : ℕ → String → List (List String) → List (List String)
push_layer zero id [] = (id ∷ []) ∷ []
push_layer zero id (layer ∷ layers) = (layer ++ id ∷ []) ∷ layers
push_layer (suc n) id [] = [] ∷ push_layer n id []
push_layer (suc n) id (layer ∷ layers) = layer ∷ push_layer n id layers

unfoldable pub group_layers : Dict ℕ → List String → List (List String) → List (List String)
unfolding push_layer
group_layers by_task [] layers = layers
group_layers by_task (id ∷ ids) layers =
    group_layers by_task ids (push_layer (or_else (get id by_task) 0) id layers)

unfoldable pub leaves_of : Dict (List String) → List TaskDefinition → List String
leaves_of dependents [] = []
leaves_of dependents (task ∷ tasks) =
    let rest = leaves_of dependents tasks in
    if eqb (length (or_else (get task.id dependents) [])) 0 then task.id ∷ rest else rest

unfoldable pub widest : List (List String) → ℕ
widest [] = 0
widest (layer ∷ layers) = max (length layer) (widest layers)

-- What is computed of a plan that has been validated.
abbrev pub analysis_of : TaskPlan → TaskPlanAnalysis
analysis_of validated =
    let nodes = task_nodes validated.tasks in
    let order = topological_ids nodes in
    let layers = group_layers (layers_by_task (dependency_map nodes) order []) order [] in
    record {
      topological_order = order;
      layers = layers;
      edges = edges_of validated.tasks;
      roots = initially_ready nodes;
      leaves = leaves_of (count_dependencies nodes no_counts).dependents validated.tasks;
      widest_layer = widest layers;
    }

unfoldable pub analyze_task_plan : TaskPlan → Result (List PlanValidationIssue) TaskPlanAnalysis
unfolding edges_of layers_by_task group_layers leaves_of widest
analyze_task_plan plan = do
  validated ← validate_task_plan_result (task_plan_value plan)
  ok (analysis_of validated)

-- `topologicalTaskIds`; what it throws for an invalid plan are the issues.
unfoldable pub topological_task_ids : TaskPlan → Result (List PlanValidationIssue) (List String)
unfolding analyze_task_plan
topological_task_ids plan = do analysis ← analyze_task_plan plan; ok (analysis.topological_order)
