-- ===== src/Domain/StepPlan/Ordered.antt =====
-- src/domain/steps.ts: the order of the steps of a well-formed plan.
use pi_build_conductor.Prelude.{true, string_eq, is_distinct, All-map, ◌≡◌}
use pi_build_conductor.Domain.Artifacts.Identity.{is_name}
use pi_build_conductor.Domain.Steps.{WorkflowPlan, step_nodes, topological_step_ids}
use pi_build_conductor.Domain.Graph.Topological.Complete.{IsOrder, topological_ids-IsOrder}
use pi_build_conductor.Domain.Graph.Topological.Declared.{nodes_of-IsGraph}
use pi_build_conductor.Domain.StepPlan.Across.{IsStepNode}
use pi_build_conductor.Domain.StepPlan.Accepted.{IsWorkflowPlan}

pub topological_step_ids-IsOrder :
    (plan : WorkflowPlan)
    → IsWorkflowPlan plan
    → IsOrder (step_nodes plan.steps) (topological_step_ids plan)
unfolding topological_step_ids
topological_step_ids-IsOrder plan h =
    topological_ids-IsOrder (step_nodes plan.steps)
      (nodes_of-IsGraph (λ step. step.id) (λ step. step.dependencies) plan.steps
        (All-map IsStepNode (λ step. is_name step.id ≡ true) plan.steps (λ step node. node.named)
          h.nodes)
        h.distinct
        (All-map IsStepNode (λ step. is_distinct step.dependencies ≡ true) plan.steps
          (λ step node. node.distinct) h.nodes)
        h.known)
      h.acyclic
