-- ===== src/Examples/TaskPlans.antt =====
-- A task plan, as a value and read back, and a run of it.
use pi_build_conductor.Prelude.{[], ◌∷◌, ok, err, ◌≡◌, refl}
use pi_build_conductor.Domain.Types.{TaskDefinition, TaskPlan, ValidationCommand}
use pi_build_conductor.Domain.Json.{Json, num, str, arr, obj, to_items, to_fields}
use pi_build_conductor.Domain.Reading.{issue}
use pi_build_conductor.Domain.TaskPlan.{
  read_tasks, check_tasks, check_dependencies, read_task_plan, conclude, validate_task_plan_result,
}
use pi_build_conductor.Domain.Text.{is_space}
use pi_build_conductor.Domain.Graph.Cycle.{find_cycle}
use pi_build_conductor.Domain.Reading.Texts.{read_non_empty_string, read_string_array}
use pi_build_conductor.Domain.Reading.Paths.{read_safe_repository_paths, read_allowed_paths}
use pi_build_conductor.Domain.Reading.Commands.{read_validation_commands}
use pi_build_conductor.Domain.TaskPlan.Valid.{IsTaskPlan}
use pi_build_conductor.Domain.TaskPlan.Document.{task_value, commands_value, task_plan_value}
use pi_build_conductor.Prelude.{true, false}
use pi_build_conductor.Domain.TaskPlan.{task_nodes}
use pi_build_conductor.Domain.Graph.Topological.Complete.{IsOrder}
use pi_build_conductor.Domain.Reading.Paths.{is_unsafe_path, is_non_canonical_path}
use pi_build_conductor.Domain.TaskPlan.Analysis.{TaskPlanAnalysis, analyze_task_plan}
use pi_build_conductor.Domain.TaskPlan.Layered.{IsLayering, analyze_task_plan-IsLayering}
use pi_build_conductor.Domain.TaskPlan.Accepted.{validate_task_plan_result-IsTaskPlan}
use pi_build_conductor.Domain.TaskPlan.RoundTrip.{validate_task_plan_result-task_plan_value}

abbrev pub tests : ValidationCommand
tests = record { command = "npm"; args = "test" ∷ [] }

abbrev pub api : TaskDefinition
api = record {
  id = "api";
  title = "Add the endpoint";
  description = "Serve the new resource";
  dependencies = [];
  acceptance_criteria = "it answers" ∷ [];
  allowed_paths = "src/api/" ∷ [];
  validation_commands = tests ∷ [];
}

abbrev pub ui : TaskDefinition
ui = record {
  id = "ui";
  title = "Show the resource";
  description = "Add a page";
  dependencies = "api" ∷ [];
  acceptance_criteria = [];
  allowed_paths = "src/ui/" ∷ "docs/ui.md" ∷ [];
  validation_commands = tests ∷ [];
}

abbrev pub two_tasks : TaskPlan
two_tasks = record {
  title = "Feature";
  tasks = ui ∷ api ∷ [];
  final_validation_commands = tests ∷ [];
}

-- The text around a title is trimmed.
abbrev written : Json
written = obj (
    to_fields (
      ("version", num 3)
      ∷ ("title", str "  Feature ")
      ∷ ("tasks", arr (to_items (task_value ui ∷ task_value api ∷ [])))
      ∷ ("finalValidationCommands", commands_value (tests ∷ []))
      ∷ []))

written_is_read : validate_task_plan_result written ≡ ok two_tasks
unfolding validate_task_plan_result conclude read_task_plan read_non_empty_string is_space
    read_tasks task_value read_string_array read_allowed_paths read_safe_repository_paths
    read_validation_commands check_tasks check_dependencies find_cycle
written_is_read = refl

validate_task_plan_result-IsTaskPlan_example : IsTaskPlan two_tasks
validate_task_plan_result-IsTaskPlan_example =
    validate_task_plan_result-IsTaskPlan written two_tasks written_is_read

pub two_tasks-IsTaskPlan : IsTaskPlan two_tasks
two_tasks-IsTaskPlan = validate_task_plan_result-IsTaskPlan written two_tasks written_is_read

validate_task_plan_result-task_plan_value_example :
    validate_task_plan_result (task_plan_value two_tasks) ≡ ok two_tasks
validate_task_plan_result-task_plan_value_example =
    validate_task_plan_result-task_plan_value two_tasks two_tasks-IsTaskPlan

-- A plan that names no task.
empty_is_refused :
    validate_task_plan_result (
      obj (
        to_fields (
          ("version", num 3)
          ∷ ("title", str "T")
          ∷ ("tasks", arr (to_items []))
          ∷ ("finalValidationCommands", commands_value (tests ∷ []))
          ∷ [])))
    ≡ err (issue "required_tasks" "tasks" ∷ [])
unfolding validate_task_plan_result conclude read_task_plan read_non_empty_string is_space
    read_tasks task_value read_string_array read_allowed_paths read_safe_repository_paths
    read_validation_commands check_tasks check_dependencies find_cycle
empty_is_refused = refl

-- The endpoint without the page.
abbrev pub one_task : TaskPlan
one_task = record two_tasks { tasks = api ∷ [] }

one_task_is_read : validate_task_plan_result (task_plan_value one_task) ≡ ok one_task
unfolding validate_task_plan_result conclude read_task_plan read_non_empty_string is_space
    read_tasks task_plan_value read_string_array read_allowed_paths read_safe_repository_paths
    read_validation_commands check_tasks check_dependencies find_cycle
one_task_is_read = refl

pub one_task-IsTaskPlan : IsTaskPlan one_task
one_task-IsTaskPlan =
    validate_task_plan_result-IsTaskPlan (task_plan_value one_task) one_task one_task_is_read

analyze_task_plan-IsLayering_example :
    (analysis : TaskPlanAnalysis) × (analyze_task_plan two_tasks ≡ ok analysis)
    × IsOrder (task_nodes two_tasks.tasks) analysis.topological_order
    × IsLayering (task_nodes two_tasks.tasks) analysis.layers
analyze_task_plan-IsLayering_example = analyze_task_plan-IsLayering two_tasks two_tasks-IsTaskPlan

-- Two slashes at the end are not noticed, three are.
two_slashes_are_accepted : is_unsafe_path "src//" ≡ false × is_non_canonical_path "src//" ≡ false
unfolding is_unsafe_path is_non_canonical_path
two_slashes_are_accepted = (refl, refl)

three_slashes_are_refused : is_non_canonical_path "src///" ≡ true
unfolding is_non_canonical_path
three_slashes_are_refused = refl
