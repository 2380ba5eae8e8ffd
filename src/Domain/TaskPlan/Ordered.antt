-- ===== src/Domain/TaskPlan/Ordered.antt =====
-- src/domain/dag.ts: the order of a plan that is valid already.
use pi_build_conductor.Prelude.{String, List, ok, ◌≡◌, refl, true, is_distinct, All-map, string_eq}
use pi_build_conductor.Domain.Types.{TaskPlan, TaskDefinition}
use pi_build_conductor.Domain.Artifacts.Identity.{is_name}
use pi_build_conductor.Domain.Graph.Cycle.{ids}
use pi_build_conductor.Domain.Graph.Topological.{topological_ids}
use pi_build_conductor.Domain.Graph.Topological.Ordered.{IsGraph}
use pi_build_conductor.Domain.Graph.Topological.Complete.{IsOrder, topological_ids-IsOrder}
use pi_build_conductor.Domain.Graph.Topological.Declared.{ids-nodes_of, nodes_of-IsGraph}
use pi_build_conductor.Domain.TaskPlan.{task_nodes, task_ids}
use pi_build_conductor.Domain.TaskPlan.Valid.{IsTaskPlan, IsNode}
use pi_build_conductor.Domain.TaskPlan.RoundTrip.{validate_task_plan_result-task_plan_value}
use pi_build_conductor.Domain.TaskPlan.Analysis.{topological_task_ids}

pub topological_task_ids-valid :
    (plan : TaskPlan)
    → IsTaskPlan plan
    → topological_task_ids plan ≡ ok (topological_ids (task_nodes plan.tasks))
unfolding topological_task_ids
topological_task_ids-valid plan h = rw (validate_task_plan_result-task_plan_value plan h) refl

pub ids-task_nodes : (tasks : List TaskDefinition) → ids (task_nodes tasks) ≡ task_ids tasks
ids-task_nodes = ids-nodes_of (λ task. task.id) (λ task. task.dependencies)

pub task_nodes-IsGraph : (plan : TaskPlan) → IsTaskPlan plan → IsGraph (task_nodes plan.tasks)
task_nodes-IsGraph plan h =
    nodes_of-IsGraph (λ task. task.id) (λ task. task.dependencies) plan.tasks
      (All-map IsNode (λ task. is_name task.id ≡ true) plan.tasks (λ task node. node.named) h.nodes)
      h.distinct
      (All-map IsNode (λ task. is_distinct task.dependencies ≡ true) plan.tasks
        (λ task node. node.distinct) h.nodes)
      h.known

pub topological_task_ids-IsOrder :
    (plan : TaskPlan)
    → IsTaskPlan plan
    → (order : List String) × (topological_task_ids plan ≡ ok order)
      × IsOrder (task_nodes plan.tasks) order
topological_task_ids-IsOrder plan h = (
  topological_ids (task_nodes plan.tasks),
  topological_task_ids-valid plan h,
  topological_ids-IsOrder (task_nodes plan.tasks) (task_nodes-IsGraph plan h) h.acyclic,
)
