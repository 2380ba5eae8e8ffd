-- ===== src/Domain/Translation/Legacy.antt =====
-- src/domain/plan-translation.ts: a task plan that is accepted is a plan of change steps.
use pi_build_conductor.Prelude.{
  ℕ, suc, String, true, false, List, [], ◌∷◌, none, some, Dict, string_eq, includes, map, All,
  All-map, ok, ◌≡◌, ◌≢◌, refl,
}
use pi_build_conductor.Domain.Types.{TaskDefinition, TaskPlan, ValidationCommand}
use pi_build_conductor.Domain.Json.{Json, num, str, arr, to_items, items_of-to_items}
use pi_build_conductor.Domain.Graph.Cycle.{Search, done, find_cycle}
use pi_build_conductor.Domain.Graph.Cycle.Exact.{find_cycle-done_iff}
use pi_build_conductor.Domain.Steps.{StepBody, StepDefinition, WorkflowPlan, step_nodes}
use pi_build_conductor.Domain.Reading.{at_field, at_index, read_each, check_each}
use pi_build_conductor.Domain.TaskPlan.{task_ids, task_nodes}
use pi_build_conductor.Domain.TaskPlan.Valid.{IsTask, IsNode, IsTaskPlan}
use pi_build_conductor.Domain.TaskPlan.Document.{
  commands_value, check_each-none, check_new-none, apart_from_none, read_non_empty_string-str,
  read_string_array-strings_value, read_allowed_paths-strings_value,
  read_validation_commands-commands_value,
}
use pi_build_conductor.Domain.StepPlan.{
  has_change, read_final_commands, check_step, step_ids, check_step_dependencies, outputs_by_step,
  check_inputs, read_workflow_plan, conclude_plan, validate_workflow_plan_result,
}
use pi_build_conductor.Domain.Reading.Valid.{AreCommands}
use pi_build_conductor.Domain.StepPlan.{workflow_plan_schema_version}
use pi_build_conductor.Domain.StepPlan.Across.{IsStepNode, DependsOnSteps}
use pi_build_conductor.Domain.StepPlan.Fields.{read_declarations}
use pi_build_conductor.Domain.StepPlan.Step.{
  read_body, check_authority, read_kind, read_step_fields, read_step, read_steps,
}
use pi_build_conductor.Domain.Translation.{change_step_value, workflow_plan_value}

-- The step of a task: it declares nothing beyond the task.
abbrev pub change_step : TaskDefinition → StepDefinition
change_step task = record {
  id = task.id;
  title = task.title;
  description = task.description;
  dependencies = task.dependencies;
  inputs = none;
  outputs = none;
  profile = none;
  capabilities = none;
  path_locks = none;
  resource_locks = none;
  timeout_ms = none;
  retry = none;
  body = StepBody.change task.acceptance_criteria task.allowed_paths task.validation_commands;
}

abbrev pub steps_plan : TaskPlan → WorkflowPlan
steps_plan plan = record {
  title = plan.title;
  steps = map change_step plan.tasks;
  final_validation_commands = plan.final_validation_commands;
}

read_step-change_step_value :
    (task : TaskDefinition) (index : ℕ)
    → IsTask task
    → read_step (change_step_value task) index ≡ (change_step task, [])
unfolding read_step read_step_fields read_declarations read_kind read_body check_authority
    check_each change_step_value
read_step-change_step_value task index h =
    let path = at_index "steps" index in
    rw
      (
        read_non_empty_string-str task.id (at_field path "id") h.identified,
        read_non_empty_string-str task.title (at_field path "title") h.titled,
        read_non_empty_string-str task.description (at_field path "description") h.described,
        read_string_array-strings_value task.dependencies (at_field path "dependencies") h.depends,
        read_string_array-strings_value task.acceptance_criteria
            (at_field path "acceptanceCriteria") h.criteria,
        read_allowed_paths-strings_value task.allowed_paths (at_field path "allowedPaths")
            h.some_paths h.paths,
        read_validation_commands-commands_value task.validation_commands
            (at_field path "validationCommands") h.commands,
      )
      refl

read_each-change_step :
    (index : ℕ) (tasks : List TaskDefinition)
    → All IsTask tasks
    → read_each read_step index (map change_step_value tasks) ≡ (map change_step tasks, [])
unfolding read_each
read_each-change_step index [] h = refl
read_each-change_step index (task ∷ tasks) h =
    rw (read_step-change_step_value task index h.0, read_each-change_step (suc index) tasks h.1)
      refl

read_steps-map :
    (tasks : List TaskDefinition)
    → tasks ≢ []
    → All IsTask tasks
    → read_steps (some (arr (to_items (map change_step_value tasks)))) ≡ (map change_step tasks, [])
unfolding read_steps
read_steps-map [] nonempty h = absurd (nonempty refl)
read_steps-map (task ∷ tasks) nonempty h =
    rw (items_of-to_items (map change_step_value tasks)) (read_each-change_step 0 (task ∷ tasks) h)

-- A step list made of tasks has the ids, the nodes and the inputs that the tasks have.
pub step_nodes-map :
    (tasks : List TaskDefinition) → step_nodes (map change_step tasks) ≡ task_nodes tasks
step_nodes-map [] = refl
step_nodes-map (task ∷ tasks) = rw (step_nodes-map tasks) refl

step_ids-map : (tasks : List TaskDefinition) → step_ids (map change_step tasks) ≡ task_ids tasks
step_ids-map [] = refl
step_ids-map (task ∷ tasks) = rw (step_ids-map tasks) refl

All-change_step :
    (P : StepDefinition → Type 0) (tasks : List TaskDefinition)
    → All (λ task. P (change_step task)) tasks
    → All P (map change_step tasks)
All-change_step P [] h = tt
All-change_step P (task ∷ tasks) h = (h.0, All-change_step P tasks h.1)

check_step-none :
    (ids : List String) (step : StepDefinition) (index : ℕ)
    → IsStepNode step
    → includes step.id ids ≡ false
    → (check_step ids step index).1 ≡ []
unfolding check_step
check_step-none ids step index h fresh = rw (h.named, fresh, h.distinct, h.no_self) refl

check_step_dependencies-none :
    (ids : List String) (step : StepDefinition) (index : ℕ)
    → DependsOnSteps ids step
    → (check_step_dependencies ids step index).1 ≡ []
unfolding check_step_dependencies
check_step_dependencies-none ids step index h =
    check_each-none _ (λ dependency. includes dependency ids ≡ true) (λ dependency i k. rw k refl) 0
      step.dependencies h

check_inputs-none :
    (outputs : Dict (List String)) (step : StepDefinition) (index : ℕ)
    → step.inputs ≡ none
    → (check_inputs outputs step index).1 ≡ []
unfolding check_inputs check_each
check_inputs-none outputs step index h = rw h refl

node-IsStepNode : (task : TaskDefinition) → IsNode task → IsStepNode (change_step task)
node-IsStepNode task h = record { named = h.named; distinct = h.distinct; no_self = h.no_self }

without_inputs :
    (tasks : List TaskDefinition) → All (λ step. step.inputs ≡ none) (map change_step tasks)
without_inputs [] = tt
without_inputs (task ∷ tasks) = (refl, without_inputs tasks)

has_change-map :
    (tasks : List TaskDefinition) → tasks ≢ [] → has_change (map change_step tasks) ≡ true
has_change-map [] h = absurd (h refl)
has_change-map (task ∷ tasks) h = refl

read_final_commands-commands_value :
    (commands : List ValidationCommand)
    → AreCommands commands
    → read_final_commands true (some (commands_value commands)) ≡ (commands, [])
unfolding read_final_commands
read_final_commands-commands_value [] h = absurd (h.0 refl)
read_final_commands-commands_value (c ∷ commands) h =
    read_validation_commands-commands_value (c ∷ commands) "finalValidationCommands" h

-- The fields of the value that is validated.
abbrev plan_fields : TaskPlan → Dict Json
plan_fields plan =
    ("version", num workflow_plan_schema_version)
    ∷ ("title", str plan.title)
    ∷ ("steps", arr (to_items (map change_step_value plan.tasks)))
    ∷ ("finalValidationCommands", commands_value plan.final_validation_commands)
    ∷ []

read_workflow_plan-plan_fields :
    (plan : TaskPlan)
    → IsTaskPlan plan
    → read_workflow_plan (plan_fields plan) ≡ (steps_plan plan, [])
unfolding read_workflow_plan
read_workflow_plan-plan_fields plan h =
    let steps = map change_step plan.tasks in
    let same = step_ids-map plan.tasks in
    rw
      (
        read_non_empty_string-str plan.title "title" h.titled,
        read_steps-map plan.tasks h.some_tasks h.tasks,
        has_change-map plan.tasks h.some_tasks,
        read_final_commands-commands_value plan.final_validation_commands h.commands,
        check_new-none check_step (λ step. step.id) IsStepNode check_step-none [] 0 steps
            (All-change_step IsStepNode plan.tasks (
              All-map IsNode (λ task. IsStepNode (change_step task)) plan.tasks node-IsStepNode
                h.nodes))
            (rw same h.distinct) (apart_from_none (step_ids steps)),
        check_each-none (check_step_dependencies (step_ids steps)) (DependsOnSteps (step_ids steps))
            (check_step_dependencies-none (step_ids steps)) 0 steps
            (All-change_step (DependsOnSteps (step_ids steps)) plan.tasks (rw same h.known)),
        check_each-none (check_inputs (outputs_by_step steps [])) (λ step. step.inputs ≡ none)
            (check_inputs-none (outputs_by_step steps [])) 0 steps (without_inputs plan.tasks),
      )
      refl

conclude_plan-done :
    (plan : WorkflowPlan) (s : Search)
    → find_cycle (step_nodes plan.steps) ≡ done s
    → conclude_plan (plan, []) ≡ ok plan
unfolding conclude_plan
conclude_plan-done plan s e = rw (e, conclude_plan) refl

pub validate_workflow_plan_result-workflow_plan_value :
    (plan : TaskPlan)
    → IsTaskPlan plan
    → validate_workflow_plan_result (workflow_plan_value plan) ≡ ok (steps_plan plan)
unfolding validate_workflow_plan_result workflow_plan_value
validate_workflow_plan_result-workflow_plan_value plan h =
    let (s, e) = (find_cycle-done_iff (task_nodes plan.tasks)).1 h.acyclic in
    rw (read_workflow_plan-plan_fields plan h)
      (conclude_plan-done (steps_plan plan) s (rw (step_nodes-map plan.tasks) e))
