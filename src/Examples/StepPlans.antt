-- ===== src/Examples/StepPlans.antt =====
-- The example plan as a document, and a task plan that is translated.
use pi_build_conductor.Domain.Types.{execute_commands}
use pi_build_conductor.Prelude.{none, some, [], ◌∷◌, err, ok, ◌≡◌, refl}
use pi_build_conductor.Domain.Json.{Json, num, str, arr, obj, to_items, to_fields}
use pi_build_conductor.Domain.Text.{is_space}
use pi_build_conductor.Domain.Artifacts.Identity.{is_name, decimal}
use pi_build_conductor.Domain.Graph.Cycle.{find_cycle}
use pi_build_conductor.Domain.Graph.Topological.{topological_ids}
use pi_build_conductor.Domain.Graph.Topological.Complete.{IsOrder}
use pi_build_conductor.Domain.Steps.{StepBody, WorkflowPlan, step_nodes, topological_step_ids}
use pi_build_conductor.Domain.Reading.{issue, check_new}
use pi_build_conductor.Domain.Reading.Texts.{read_non_empty_string, read_string_array}
use pi_build_conductor.Domain.Reading.Paths.{read_safe_repository_paths, read_allowed_paths}
use pi_build_conductor.Domain.Reading.Commands.{read_command_object, read_validation_commands}
use pi_build_conductor.Domain.TaskPlan.{task_nodes}
use pi_build_conductor.Domain.TaskPlan.Document.{
  strings_value, command_value, commands_value, task_plan_value,
}
use pi_build_conductor.Domain.TaskPlan.RoundTrip.{validate_task_plan_result-task_plan_value}
use pi_build_conductor.Domain.StepPlan.{
  read_final_commands, check_step, check_step_dependencies, outputs_by_step, check_input,
  check_inputs, read_workflow_plan, conclude_plan, validate_workflow_plan_result,
}
use pi_build_conductor.Domain.StepPlan.Document.{plan_value, step_value}
use pi_build_conductor.Domain.StepPlan.Fields.{
  read_inputs, read_input, read_named_identifiers, read_capabilities, read_declarations,
}
use pi_build_conductor.Domain.StepPlan.Step.{
  read_questions, read_body, check_authority, read_kind, read_step_fields, read_step, read_steps,
}
use pi_build_conductor.Domain.StepPlan.Accepted.{IsWorkflowPlan}
use pi_build_conductor.Domain.Translation.{translate_legacy_task_plan, read_workflow_plan_document}
use pi_build_conductor.Domain.Translation.Legacy.{steps_plan}
use pi_build_conductor.Domain.Translation.Accepted.{
  translate_legacy_task_plan-steps_plan, read_workflow_plan_document-IsWorkflowPlan,
}
use pi_build_conductor.Examples.{plan, unit_tests}
use pi_build_conductor.Examples.TaskPlans.{two_tasks, two_tasks-IsTaskPlan}

abbrev build_value : Json
build_value = obj (
    to_fields (
      ("id", str "build")
      ∷ ("kind", str "change")
      ∷ ("title", str " Build ")
      ∷ ("description", str "Build the feature")
      ∷ ("dependencies", strings_value [])
      ∷ ("outputs", strings_value ("evidence" ∷ []))
      ∷ ("capabilities", strings_value ("read-repository" ∷ "mutate-repository" ∷ []))
      ∷ ("retry", obj (to_fields (("maxAttempts", num 2) ∷ [])))
      ∷ ("acceptanceCriteria", strings_value ("it builds" ∷ []))
      ∷ ("allowedPaths", strings_value ("src/" ∷ []))
      ∷ ("validationCommands", commands_value (unit_tests ∷ []))
      ∷ []))

abbrev explain_value : Json
explain_value = obj (
    to_fields (
      ("id", str "explain")
      ∷ ("kind", str "investigation")
      ∷ ("title", str "Explain")
      ∷ ("description", str "Explain the feature")
      ∷ ("dependencies", strings_value ("build" ∷ []))
      ∷ ("questions", strings_value ("what changed?" ∷ []))
      ∷ []))

-- A command that asks to change the repository, and reads what no step declares.
abbrev refused_value : Json
refused_value = obj (
    to_fields (
      ("id", str "lint")
      ∷ ("kind", str "command")
      ∷ ("title", str "Lint")
      ∷ ("description", str "Run the linter")
      ∷ ("dependencies", strings_value ("build" ∷ []))
      ∷ (
        "inputs",
        arr (
            to_items
              (obj (to_fields (("stepId", str "build") ∷ ("output", str "report") ∷ [])) ∷ [])),
      )
      ∷ ("capabilities", strings_value ("mutate-repository" ∷ []))
      ∷ ("command", command_value unit_tests)
      ∷ []))

abbrev pub document : Json
document = obj (
    to_fields (
      ("version", num 4)
      ∷ ("title", str "Feature")
      ∷ ("steps", arr (to_items (build_value ∷ explain_value ∷ [])))
      ∷ ("finalValidationCommands", commands_value (unit_tests ∷ []))
      ∷ []))

pub document_is_read : read_workflow_plan_document document ≡ ok plan
unfolding read_workflow_plan_document validate_workflow_plan_result conclude_plan read_workflow_plan
    read_steps read_step read_step_fields read_kind read_body read_questions check_authority
    read_declarations read_inputs read_input read_named_identifiers read_capabilities
    read_final_commands check_new check_step check_step_dependencies check_inputs check_input
    outputs_by_step read_non_empty_string is_space read_string_array read_allowed_paths
    read_safe_repository_paths read_validation_commands command_value find_cycle is_name
document_is_read = refl

read_workflow_plan_document-IsWorkflowPlan_example :
    IsWorkflowPlan plan × IsOrder (step_nodes plan.steps) (topological_step_ids plan)
read_workflow_plan_document-IsWorkflowPlan_example =
    read_workflow_plan_document-IsWorkflowPlan document plan document_is_read

lint_is_refused :
    validate_workflow_plan_result (
      obj (
        to_fields (
          ("version", num 4)
          ∷ ("title", str "Feature")
          ∷ ("steps", arr (to_items (build_value ∷ refused_value ∷ [])))
          ∷ ("finalValidationCommands", commands_value (unit_tests ∷ []))
          ∷ [])))
    ≡ err (
        issue "capability_not_allowed" "steps[1].capabilities[0]"
        ∷ issue "unknown_input_output" "steps[1].inputs[0]"
        ∷ [])
unfolding validate_workflow_plan_result conclude_plan read_workflow_plan read_steps read_step
    read_step_fields read_kind read_body read_questions check_authority read_declarations
    read_inputs read_input read_named_identifiers read_capabilities read_final_commands check_new
    check_step check_step_dependencies check_inputs check_input outputs_by_step
    read_non_empty_string is_space read_string_array read_allowed_paths read_safe_repository_paths
    read_validation_commands read_command_object command_value find_cycle is_name decimal
lint_is_refused = refl

translate_legacy_task_plan-steps_plan_example :
    (translate_legacy_task_plan (task_plan_value two_tasks) ≡ ok (steps_plan two_tasks))
    × (topological_step_ids (steps_plan two_tasks) ≡ topological_ids (task_nodes two_tasks.tasks))
translate_legacy_task_plan-steps_plan_example =
    translate_legacy_task_plan-steps_plan (task_plan_value two_tasks) two_tasks
      (validate_task_plan_result-task_plan_value two_tasks two_tasks-IsTaskPlan)

-- The plan as a value is read as itself.
plan_value_is_read : read_workflow_plan_document (plan_value plan) ≡ ok plan
unfolding read_workflow_plan_document validate_workflow_plan_result conclude_plan read_workflow_plan
    read_steps read_step read_step_fields read_kind read_body read_questions check_authority
    read_declarations read_inputs read_input read_named_identifiers read_capabilities
    read_final_commands check_new check_step check_step_dependencies check_inputs check_input
    outputs_by_step read_non_empty_string is_space read_string_array read_allowed_paths
    read_safe_repository_paths read_validation_commands command_value plan_value step_value
    find_cycle is_name
plan_value_is_read = refl

-- A command that may run and not read.
abbrev pub run_value : Json
run_value = obj (
    to_fields (
      ("version", num 4)
      ∷ ("title", str "Checks")
      ∷ (
        "steps",
        arr (
            to_items (
              obj (
                to_fields (
                  ("id", str "test")
                  ∷ ("kind", str "command")
                  ∷ ("title", str "Test")
                  ∷ ("description", str "Run the tests")
                  ∷ ("dependencies", strings_value [])
                  ∷ ("capabilities", strings_value ("execute-commands" ∷ []))
                  ∷ ("command", command_value unit_tests)
                  ∷ []))
              ∷ [])),
      )
      ∷ []))

abbrev pub run_plan : WorkflowPlan
run_plan = record {
  title = "Checks";
  steps =
      record {
        id = "test";
        title = "Test";
        description = "Run the tests";
        dependencies = [];
        inputs = none;
        outputs = none;
        profile = none;
        capabilities = some (execute_commands ∷ []);
        path_locks = none;
        resource_locks = none;
        timeout_ms = none;
        retry = none;
        body = StepBody.command unit_tests;
      }
      ∷ [];
  final_validation_commands = [];
}

pub run_value_is_read : read_workflow_plan_document run_value ≡ ok run_plan
unfolding read_workflow_plan_document validate_workflow_plan_result conclude_plan read_workflow_plan
    read_steps read_step read_step_fields read_kind read_body read_questions check_authority
    read_declarations read_inputs read_input read_named_identifiers read_capabilities
    read_final_commands check_new check_step check_step_dependencies check_inputs check_input
    outputs_by_step read_non_empty_string is_space read_string_array read_allowed_paths
    read_safe_repository_paths read_validation_commands read_command_object command_value find_cycle
    is_name
run_value_is_read = refl
