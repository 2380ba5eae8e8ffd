-- ===== src/Domain/Translation.antt =====
-- src/domain/plan-translation.ts: plan documents of both schemas, read as plans of steps.
pub mod Legacy
pub mod Accepted
use pi_build_conductor.Prelude.{
  String, List, [], ◌∷◌, Option, none, some, Dict, get, map, if◌then◌else◌, Result, ok, err, ◌>>=◌,
}
use pi_build_conductor.Domain.Types.{TaskDefinition, TaskPlan}
use pi_build_conductor.Domain.Json.{Json, num, str, arr, obj, to_items, to_fields, as_record}
use pi_build_conductor.Domain.Steps.{WorkflowPlan}
use pi_build_conductor.Domain.Reading.{PlanValidationIssue, issue}
use pi_build_conductor.Domain.TaskPlan.{is_version, plan_schema_version, validate_task_plan_result}
use pi_build_conductor.Domain.TaskPlan.Document.{strings_value, commands_value}
use pi_build_conductor.Domain.StepPlan.{workflow_plan_schema_version, validate_workflow_plan_result}

-- The object of a change step; the fields that every step may leave out are left out.
unfoldable pub change_step_value : TaskDefinition → Json
change_step_value task = obj (
    to_fields (
      ("id", str task.id)
      ∷ ("kind", str "change")
      ∷ ("title", str task.title)
      ∷ ("description", str task.description)
      ∷ ("dependencies", strings_value task.dependencies)
      ∷ ("acceptanceCriteria", strings_value task.acceptance_criteria)
      ∷ ("allowedPaths", strings_value task.allowed_paths)
      ∷ ("validationCommands", commands_value task.validation_commands)
      ∷ []))

unfoldable pub workflow_plan_value : TaskPlan → Json
workflow_plan_value legacy = obj (
    to_fields (
      ("version", num workflow_plan_schema_version)
      ∷ ("title", str legacy.title)
      ∷ ("steps", arr (to_items (map change_step_value legacy.tasks)))
      ∷ ("finalValidationCommands", commands_value legacy.final_validation_commands)
      ∷ []))

-- The plan that is given is validated, whatever its type says.
unfoldable pub translate_legacy_task_plan : Json → Result (List PlanValidationIssue) WorkflowPlan
translate_legacy_task_plan value = do
  legacy ← validate_task_plan_result value
  validate_workflow_plan_result (workflow_plan_value legacy)

unfoldable pub read_workflow_plan_document : Json → Result (List PlanValidationIssue) WorkflowPlan
read_workflow_plan_document value = elim (as_record (some value)) [
  | none ↦ err (issue "plan_object" "plan" ∷ [])
  | some fields ↦
      if is_version workflow_plan_schema_version (get "version" fields)
      then validate_workflow_plan_result value
      else if is_version plan_schema_version (get "version" fields)
      then translate_legacy_task_plan value
      else err (issue "unsupported_plan_version" "version" ∷ [])
]
