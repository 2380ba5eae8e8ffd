-- ===== src/Domain/StepPlan.antt =====
-- src/domain/steps.ts: reading a plan of steps from JSON.
pub mod Fields
pub mod Step
pub mod Valid
pub mod Declared
pub mod Sound
pub mod Across
pub mod Accepted
pub mod Ordered
pub mod Document
use pi_build_conductor.Prelude.{
  ℕ, String, Bool, true, false, not, ◌&&◌, ◌||◌, List, [], ◌∷◌, Option, none, some, Dict, get, put,
  any, map, includes, is_distinct, leb, eqb, length, ◌==◌, string_eq, if◌then◌else◌, or_else,
  Result, ok, err,
}
use pi_build_conductor.Domain.Types.{
  CapabilityProfileName, StepCapability, capability_eq, ValidationCommand,
}
use pi_build_conductor.Domain.Artifacts.Identity.{is_name}
use pi_build_conductor.Domain.Json.{Json, num, as_array, as_record, as_text}
use pi_build_conductor.Domain.Graph.{Node}
use pi_build_conductor.Domain.Graph.Cycle.{Visit, found, done, out_of_fuel, find_cycle}
use pi_build_conductor.Domain.Steps.{
  StepKind, StepInputReference, StepBody, StepDefinition, step_kind, WorkflowPlan,
  step_kind_profiles, step_kind_capability_maxima, step_nodes,
}
use pi_build_conductor.Domain.Reading.{
  PlanValidationIssue, Reading, ◌>>=◌, ◌>>◌, pure, failing, report_if, issue, at_field, at_index,
  read_each, check_each, names_of, check_new,
}
use pi_build_conductor.Domain.Reading.Texts.{read_non_empty_string, read_string_array}
use pi_build_conductor.Domain.Reading.Paths.{read_allowed_paths}
use pi_build_conductor.Domain.Reading.Commands.{read_command_object, read_validation_commands}
use pi_build_conductor.Domain.TaskPlan.{is_version}
use pi_build_conductor.Domain.StepPlan.Fields.{
  Declarations, read_declarations, profile_text, capability_text, known_capabilities,
}
use pi_build_conductor.Domain.StepPlan.Step.{read_steps}

abbrev is_change : StepKind → Bool
is_change StepKind.change = true
is_change _ = false

abbrev pub has_change : List StepDefinition → Bool
has_change steps = any (λ step. is_change (step_kind step)) steps

abbrev final_path : String
final_path = "finalValidationCommands"

-- The commands are required if the plan has a change, and may be empty or absent otherwise.
unfoldable pub read_final_commands : Bool → Option Json → Reading (List ValidationCommand)
read_final_commands true value = elim (as_array value) [
  | none ↦ failing [] (issue "required_final_validation" final_path)
  | some [] ↦ failing [] (issue "required_final_validation" final_path)
  | some (item ∷ items) ↦ read_validation_commands value final_path
]
read_final_commands false none = pure []
read_final_commands false (some value) = elim (as_array (some value)) [
  | none ↦ failing [] (issue "command_array" final_path)
  | some [] ↦ pure []
  | some (item ∷ items) ↦ read_validation_commands (some value) final_path
]

unfoldable pub check_step : List String → StepDefinition → ℕ → Reading (Unit {0})
check_step ids step index = do
  let id_path = at_field (at_index "steps" index) "id"
  let dependencies_path = at_field (at_index "steps" index) "dependencies"
  report_if (not (is_name step.id)) (issue "step_id_format" id_path)
  report_if (includes step.id ids) (issue "duplicate_step_id" id_path)
  report_if (not (is_distinct step.dependencies)) (issue "duplicate_dependency" dependencies_path)
  report_if (includes step.id step.dependencies) (issue "self_dependency" dependencies_path)

abbrev pub step_ids : List StepDefinition → List String
step_ids steps = names_of (λ step. step.id) steps

unfoldable pub check_step_dependencies : List String → StepDefinition → ℕ → Reading (Unit {0})
check_step_dependencies ids step index =
    check_each
      (λ dependency dependency_index. report_if (not (includes dependency ids)) (
        issue "unknown_dependency"
          (at_index (at_field (at_index "steps" index) "dependencies") dependency_index)))
      0 step.dependencies

-- `outputsByStep`.
unfoldable pub outputs_by_step : List StepDefinition → Dict (List String) → Dict (List String)
outputs_by_step [] outputs = outputs
outputs_by_step (step ∷ steps) outputs =
    outputs_by_step steps (put step.id (or_else step.outputs []) outputs)

unfoldable pub check_input :
    Dict (List String) → List String → String → StepInputReference → Reading (Unit {0})
check_input outputs dependencies path input =
    if input.step_id == "" || input.output == ""
    then pure tt
    else if not (includes input.step_id dependencies)
    then report_if true (issue "input_without_dependency" path)
    else report_if (not (includes input.output (or_else (get input.step_id outputs) [])))
        (issue "unknown_input_output" path)

unfoldable pub check_inputs : Dict (List String) → StepDefinition → ℕ → Reading (Unit {0})
check_inputs outputs step index =
    check_each
      (λ input input_index.
        check_input outputs step.dependencies
          (at_index (at_field (at_index "steps" index) "inputs") input_index) input)
      0 (or_else step.inputs [])

abbrev pub workflow_plan_schema_version : ℕ
workflow_plan_schema_version = 4

unfoldable pub read_workflow_plan : Dict Json → Reading WorkflowPlan
read_workflow_plan value = do
  report_if (not (is_version workflow_plan_schema_version (get "version" value)))
      (issue "schema_version" "version")
  title ← read_non_empty_string (get "title" value) "title"
  steps ← read_steps (get "steps" value)
  final_validation_commands ←
      read_final_commands (has_change steps) (get "finalValidationCommands" value)
  check_new check_step (λ step. step.id) [] 0 steps
  check_each (check_step_dependencies (step_ids steps)) 0 steps
  check_each (check_inputs (outputs_by_step steps [])) 0 steps
  pure (record {
    title = title;
    steps = steps;
    final_validation_commands = final_validation_commands;
  })

abbrev cycle_issues : Visit → List PlanValidationIssue
cycle_issues (found cycle) = issue "dependency_cycle" "steps" ∷ []
cycle_issues (done s) = []
cycle_issues out_of_fuel = []

-- The search for a cycle runs only if there is no other issue.
unfoldable pub conclude_plan : Reading WorkflowPlan → Result (List PlanValidationIssue) WorkflowPlan
conclude_plan (plan, first ∷ issues) = err (first ∷ issues)
conclude_plan (plan, []) = elim (cycle_issues (find_cycle (step_nodes plan.steps))) [
  | [] ↦ ok plan
  | first ∷ issues ↦ err (first ∷ issues)
]

unfoldable pub validate_workflow_plan_result : Json → Result (List PlanValidationIssue) WorkflowPlan
validate_workflow_plan_result value = elim (as_record (some value)) [
  | none ↦ err (issue "plan_object" "plan" ∷ [])
  | some fields ↦ conclude_plan (read_workflow_plan fields)
]
