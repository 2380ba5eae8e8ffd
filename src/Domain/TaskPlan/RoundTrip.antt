-- ===== src/Domain/TaskPlan/RoundTrip.antt =====
-- src/domain/dag.ts: a valid task plan, written as a value, is read as itself.
use pi_build_conductor.Prelude.{
  ℕ, String, true, false, List, [], ◌∷◌, some, Dict, string_eq, is_distinct, includes, map, All, ok,
  ◌≡◌, ◌≢◌, refl,
}
use pi_build_conductor.Domain.Types.{TaskDefinition, TaskPlan}
use pi_build_conductor.Domain.Json.{Json, num, str, arr, to_items, items_of-to_items}
use pi_build_conductor.Domain.Graph.Cycle.{Search, done, find_cycle}
use pi_build_conductor.Domain.Graph.Cycle.Exact.{find_cycle-done_iff}
use pi_build_conductor.Domain.Reading.{at_field, at_index}
use pi_build_conductor.Domain.TaskPlan.{
  read_task, read_tasks, check_task, check_tasks, check_dependencies, task_ids, task_nodes,
  read_task_plan, conclude, validate_task_plan_result,
}
use pi_build_conductor.Domain.TaskPlan.Valid.{IsTask, IsNode, DependsOn, IsTaskPlan}
use pi_build_conductor.Domain.TaskPlan.Document.{
  task_value, commands_value, task_plan_value, read_each-map, check_each-none, check_new-none,
  apart_from_none, read_non_empty_string-str, read_string_array-strings_value,
  read_allowed_paths-strings_value, read_validation_commands-commands_value,
}

read_task-task_value :
    (task : TaskDefinition) (index : ℕ)
    → IsTask task
    → read_task (task_value task) index ≡ (task, [])
unfolding read_task task_value
read_task-task_value task index h =
    let path = at_index "tasks" index in
    rw
      (
        read_non_empty_string-str task.id (at_field path "id") h.identified,
        read_non_empty_string-str task.title (at_field path "title") h.titled,
        read_non_empty_string-str task.description (at_field path "description") h.described,
        read_string_array-strings_value task.dependencies (at_field path "dependencies") h.depends,
        read_string_array-strings_value task.acceptance_criteria
            (at_field path "acceptanceCriteria") h.criteria,
        read_allowed_paths-strings_value task.allowed_paths (at_field path "allowedPaths")
            h.some_paths h.paths,
        read_validation_commands-commands_value task.validation_commands
            (at_field path "validationCommands") h.commands,
      )
      refl

read_tasks-map :
    (tasks : List TaskDefinition)
    → tasks ≢ []
    → All IsTask tasks
    → read_tasks (some (arr (to_items (map task_value tasks)))) ≡ (tasks, [])
unfolding read_tasks
read_tasks-map [] nonempty h = absurd (nonempty refl)
read_tasks-map (task ∷ tasks) nonempty h =
    rw (items_of-to_items (map task_value tasks))
      (read_each-map read_task IsTask task_value read_task-task_value 0 (task ∷ tasks) h)

check_task-none :
    (ids : List String) (task : TaskDefinition) (index : ℕ)
    → IsNode task
    → includes task.id ids ≡ false
    → (check_task ids task index).1 ≡ []
unfolding check_task
check_task-none ids task index h fresh = rw (h.named, fresh, h.distinct, h.no_self) refl

check_tasks-none :
    (ids : List String) (index : ℕ) (tasks : List TaskDefinition)
    → All IsNode tasks
    → is_distinct (task_ids tasks) ≡ true
    → All (λ id. includes id ids ≡ false) (task_ids tasks)
    → (check_tasks ids index tasks).1 ≡ []
unfolding check_tasks
check_tasks-none = check_new-none check_task (λ task. task.id) IsNode check_task-none

check_dependencies-none :
    (ids : List String) (task : TaskDefinition) (index : ℕ)
    → DependsOn ids task
    → (check_dependencies ids task index).1 ≡ []
unfolding check_dependencies
check_dependencies-none ids task index h =
    check_each-none _ (λ dependency. includes dependency ids ≡ true) (λ dependency i k. rw k refl) 0
      task.dependencies h

-- The fields of a plan's value.
abbrev plan_fields : TaskPlan → Dict Json
plan_fields plan =
    ("version", num 3)
    ∷ ("title", str plan.title)
    ∷ ("tasks", arr (to_items (map task_value plan.tasks)))
    ∷ ("finalValidationCommands", commands_value plan.final_validation_commands)
    ∷ []

read_task_plan-plan_fields :
    (plan : TaskPlan) → IsTaskPlan plan → read_task_plan (plan_fields plan) ≡ (plan, [])
unfolding read_task_plan
read_task_plan-plan_fields plan h =
    rw
      (
        read_non_empty_string-str plan.title "title" h.titled,
        read_tasks-map plan.tasks h.some_tasks h.tasks,
        read_validation_commands-commands_value plan.final_validation_commands
            "finalValidationCommands" h.commands,
        check_tasks-none [] 0 plan.tasks h.nodes h.distinct (apart_from_none (task_ids plan.tasks)),
        check_each-none (check_dependencies (task_ids plan.tasks)) (DependsOn (task_ids plan.tasks))
            (λ task i k. check_dependencies-none (task_ids plan.tasks) task i k) 0 plan.tasks
            h.known,
      )
      refl

conclude-done :
    (plan : TaskPlan) (s : Search)
    → find_cycle (task_nodes plan.tasks) ≡ done s
    → conclude (plan, []) ≡ ok plan
unfolding conclude
conclude-done plan s e = rw (e, conclude) refl

-- A well-formed task plan that is written as JSON is read back as the same plan.
pub validate_task_plan_result-task_plan_value :
    (plan : TaskPlan) → IsTaskPlan plan → validate_task_plan_result (task_plan_value plan) ≡ ok plan
unfolding validate_task_plan_result task_plan_value
validate_task_plan_result-task_plan_value plan h =
    let (s, e) = (find_cycle-done_iff (task_nodes plan.tasks)).1 h.acyclic in
    rw (read_task_plan-plan_fields plan h) (conclude-done plan s e)
