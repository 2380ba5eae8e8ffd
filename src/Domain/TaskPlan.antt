-- ===== src/Domain/TaskPlan.antt =====
-- src/domain/dag.ts: reading a task plan.
pub mod Ordered
pub mod Layered
pub mod Levels
pub mod Analysis
pub mod RoundTrip
pub mod Document
pub mod Accepted
pub mod Valid
use pi_build_conductor.Prelude.{
  ℕ, suc, String, Bool, true, false, List, [], ◌∷◌, ◌++◌, Option, none, some, Dict, get, not, eqb,
  ◌==◌, string_eq, if◌then◌else◌, is_distinct, includes, Result, ok, err,
}
use pi_build_conductor.Domain.Types.{TaskDefinition, TaskPlan, ValidationCommand}
use pi_build_conductor.Domain.Artifacts.Identity.{is_name}
use pi_build_conductor.Domain.Json.{Json, num, as_array, as_record}
use pi_build_conductor.Domain.Graph.{Node, nodes_of}
use pi_build_conductor.Domain.Graph.Cycle.{Visit, found, done, out_of_fuel, find_cycle}
use pi_build_conductor.Domain.Reading.{
  PlanValidationIssue, Reading, ◌>>=◌, ◌>>◌, pure, failing, report_if, issue, task_issue, at_field,
  at_index, read_each, check_each, names_of, check_new,
}
use pi_build_conductor.Domain.Reading.Texts.{read_non_empty_string, read_string_array}
use pi_build_conductor.Domain.Reading.Paths.{read_allowed_paths}
use pi_build_conductor.Domain.Reading.Commands.{read_validation_commands}

abbrev unread_task : TaskDefinition
unread_task = record {
  id = "";
  title = "";
  description = "";
  dependencies = [];
  acceptance_criteria = [];
  allowed_paths = [];
  validation_commands = [];
}

unfoldable pub read_task_fields : Dict Json → String → Reading TaskDefinition
read_task_fields value path = do
  id ← read_non_empty_string (get "id" value) (at_field path "id")
  title ← read_non_empty_string (get "title" value) (at_field path "title")
  description ← read_non_empty_string (get "description" value) (at_field path "description")
  dependencies ← read_string_array (get "dependencies" value) (at_field path "dependencies")
  acceptance_criteria ←
      read_string_array (get "acceptanceCriteria" value) (at_field path "acceptanceCriteria")
  allowed_paths ← read_allowed_paths (get "allowedPaths" value) (at_field path "allowedPaths")
  validation_commands ←
      read_validation_commands (get "validationCommands" value) (at_field path "validationCommands")
  pure (record {
    id = id;
    title = title;
    description = description;
    dependencies = dependencies;
    acceptance_criteria = acceptance_criteria;
    allowed_paths = allowed_paths;
    validation_commands = validation_commands;
  })

unfoldable pub read_task : Json → ℕ → Reading TaskDefinition
unfolding read_task_fields
read_task value index = elim (as_record (some value)) [
  | none ↦ failing unread_task (issue "task_object" (at_index "tasks" index))
  | some fields ↦ read_task_fields fields (at_index "tasks" index)
]

-- An empty array is read as well, to no tasks.
unfoldable pub read_tasks : Option Json → Reading (List TaskDefinition)
unfolding read_task read_each
read_tasks value = elim (as_array value) [
  | none ↦ failing [] (issue "required_tasks" "tasks")
  | some [] ↦ failing [] (issue "required_tasks" "tasks")
  | some (task ∷ tasks) ↦ read_each read_task 0 (task ∷ tasks)
]

-- The body of the loop over the tasks, with the ids of the earlier ones.
unfoldable pub check_task : List String → TaskDefinition → ℕ → Reading (Unit {0})
unfolding is_name
check_task ids task index = do
  let id_path = at_field (at_index "tasks" index) "id"
  let dependencies_path = at_field (at_index "tasks" index) "dependencies"
  report_if (not (is_name task.id)) (task_issue "task_id_format" id_path task.id)
  report_if (includes task.id ids) (task_issue "duplicate_task_id" id_path task.id)
  report_if (not (is_distinct task.dependencies))
      (task_issue "duplicate_dependency" dependencies_path task.id)
  report_if (includes task.id task.dependencies)
      (task_issue "self_dependency" dependencies_path task.id)

unfoldable pub check_tasks : List String → ℕ → List TaskDefinition → Reading (Unit {0})
unfolding check_task check_new
check_tasks ids index tasks = check_new check_task (λ task. task.id) ids index tasks

abbrev pub task_ids : List TaskDefinition → List String
task_ids tasks = names_of (λ task. task.id) tasks

unfoldable pub check_dependencies : List String → TaskDefinition → ℕ → Reading (Unit {0})
unfolding check_each
check_dependencies ids task index =
    check_each
      (λ dependency dependency_index.
        report_if (not (includes dependency ids))
          (record (task_issue "unknown_dependency"
            (at_index (at_field (at_index "tasks" index) "dependencies") dependency_index)
            task.id) { related_task_ids = some (dependency ∷ []) }))
      0 task.dependencies

abbrev pub task_nodes : List TaskDefinition → List Node
task_nodes tasks = nodes_of (λ task. task.id) (λ task. task.dependencies) tasks

-- A search without enough fuel would report nothing.
abbrev pub cycle_issues : Visit → List PlanValidationIssue
cycle_issues (found cycle) =
    record (issue "dependency_cycle" "tasks") { related_task_ids = some cycle } ∷ []
cycle_issues (done s) = []
cycle_issues out_of_fuel = []

abbrev pub is_version : ℕ → Option Json → Bool
is_version version (some (num n)) = eqb n version
is_version version _ = false

abbrev pub plan_schema_version : ℕ
plan_schema_version = 3

unfoldable pub read_task_plan : Dict Json → Reading TaskPlan
read_task_plan value = do
  report_if (not (is_version plan_schema_version (get "version" value)))
      (issue "schema_version" "version")
  title ← read_non_empty_string (get "title" value) "title"
  tasks ← read_tasks (get "tasks" value)
  final_validation_commands ←
      read_validation_commands (get "finalValidationCommands" value) "finalValidationCommands"
  check_tasks [] 0 tasks
  check_each (check_dependencies (task_ids tasks)) 0 tasks
  pure (record {
    title = title;
    tasks = tasks;
    final_validation_commands = final_validation_commands;
  })

-- The search for a cycle runs only if there is no other issue.
unfoldable pub conclude : Reading TaskPlan → Result (List PlanValidationIssue) TaskPlan
conclude (plan, first ∷ issues) = err (first ∷ issues)
conclude (plan, []) = elim (cycle_issues (find_cycle (task_nodes plan.tasks))) [
  | [] ↦ ok plan
  | first ∷ issues ↦ err (first ∷ issues)
]

unfoldable pub validate_task_plan_result : Json → Result (List PlanValidationIssue) TaskPlan
validate_task_plan_result value = elim (as_record (some value)) [
  | none ↦ err (issue "plan_object" "plan" ∷ [])
  | some fields ↦ conclude (read_task_plan fields)
]
