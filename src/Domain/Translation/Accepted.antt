-- ===== src/Domain/Translation/Accepted.antt =====
-- src/domain/plan-translation.ts: what a plan document is read as.
use pi_build_conductor.Prelude.{
  some, get, ok, ◌≡◌, refl, inl, inr, Bool-cases, Option-cases, bound, string_eq,
}
use pi_build_conductor.Domain.Types.{TaskPlan}
use pi_build_conductor.Domain.Json.{Json, as_record}
use pi_build_conductor.Domain.Steps.{WorkflowPlan, step_nodes, topological_step_ids}
use pi_build_conductor.Domain.Graph.Topological.{topological_ids}
use pi_build_conductor.Domain.Graph.Topological.Complete.{IsOrder}
use pi_build_conductor.Domain.TaskPlan.{
  is_version, plan_schema_version, task_nodes, validate_task_plan_result,
}
use pi_build_conductor.Domain.TaskPlan.Accepted.{validate_task_plan_result-IsTaskPlan}
use pi_build_conductor.Domain.StepPlan.{workflow_plan_schema_version}
use pi_build_conductor.Domain.StepPlan.Accepted.{
  IsWorkflowPlan, validate_workflow_plan_result-IsWorkflowPlan,
}
use pi_build_conductor.Domain.StepPlan.Ordered.{topological_step_ids-IsOrder}
use pi_build_conductor.Domain.Translation.{
  workflow_plan_value, translate_legacy_task_plan, read_workflow_plan_document,
}
use pi_build_conductor.Domain.Translation.Legacy.{
  steps_plan, step_nodes-map, validate_workflow_plan_result-workflow_plan_value,
}

-- If the validation of a JSON value returns a task plan, the translation of the value returns the
-- plan that has one change step for each task, with the task's texts, dependencies, paths and
-- commands and nothing else declared, and the ids of the steps are ordered as those of the tasks.
pub translate_legacy_task_plan-steps_plan :
    (value : Json) (plan : TaskPlan)
    → validate_task_plan_result value ≡ ok plan
    → (translate_legacy_task_plan value ≡ ok (steps_plan plan))
      × (topological_step_ids (steps_plan plan) ≡ topological_ids (task_nodes plan.tasks))
unfolding translate_legacy_task_plan topological_step_ids
translate_legacy_task_plan-steps_plan value plan h = (
  rw h (
      validate_workflow_plan_result-workflow_plan_value plan
        (validate_task_plan_result-IsTaskPlan value plan h)),
  rw (step_nodes-map plan.tasks) refl,
)

translate_legacy_task_plan-IsWorkflowPlan :
    (value : Json) (plan : WorkflowPlan)
    → translate_legacy_task_plan value ≡ ok plan
    → IsWorkflowPlan plan
unfolding translate_legacy_task_plan
translate_legacy_task_plan-IsWorkflowPlan value plan h =
    let (legacy, _, read) = bound {m = validate_task_plan_result value} h in
    validate_workflow_plan_result-IsWorkflowPlan (workflow_plan_value legacy) plan read

-- If a plan document of either schema is read without an error, the plan of steps is well formed:
-- its texts are trimmed and not empty; every step has the fields of its kind, locks and paths
-- that pass the path checks, a timeout and an attempt budget within their bounds, and a profile
-- and capabilities that its kind allows; the ids are distinct and of the required form; every
-- dependency is another step of the plan; every input is an output that a dependency declares; a
-- plan with a change has a final command; the dependencies have no cycle; and the order of the
-- step ids holds each of them once and after its dependencies.
pub read_workflow_plan_document-IsWorkflowPlan :
    (value : Json) (plan : WorkflowPlan)
    → read_workflow_plan_document value ≡ ok plan
    → IsWorkflowPlan plan × IsOrder (step_nodes plan.steps) (topological_step_ids plan)
unfolding read_workflow_plan_document
read_workflow_plan_document-IsWorkflowPlan value plan h =
    let whole : IsWorkflowPlan plan = elim (Option-cases (as_record (some value))) [
      | inl q ↦ absurd (cc (rw (q, read_workflow_plan_document) at h))
      | inr (fields, q) ↦
          elim (Bool-cases (is_version workflow_plan_schema_version (get "version" fields))) [
            | inl p ↦
                validate_workflow_plan_result-IsWorkflowPlan value plan
                  (rw (q, p, read_workflow_plan_document) at h)
            | inr p ↦ elim (Bool-cases (is_version plan_schema_version (get "version" fields))) [
              | inl r ↦
                  translate_legacy_task_plan-IsWorkflowPlan value plan
                    (rw (q, p, r, read_workflow_plan_document) at h)
              | inr r ↦ absurd (cc (rw (q, p, r, read_workflow_plan_document) at h))
            ]
          ]
    ] in
    (whole, topological_step_ids-IsOrder plan whole)
