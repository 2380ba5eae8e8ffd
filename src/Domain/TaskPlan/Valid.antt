-- ===== src/Domain/TaskPlan/Valid.antt =====
-- src/domain/dag.ts: what a task plan that is accepted satisfies.
use pi_build_conductor.Prelude.{
  ℕ, String, true, false, List, [], ◌∷◌, Option, some, Dict, get, not, string_eq, is_distinct,
  includes, All, ◌≡◌, ◌≢◌, arith, inl, inr, Option-cases,
}
use pi_build_conductor.Domain.Types.{TaskDefinition, TaskPlan}
use pi_build_conductor.Domain.Artifacts.Identity.{is_name}
use pi_build_conductor.Domain.Json.{Json, as_array, as_record}
use pi_build_conductor.Domain.Graph.Cycle.{dependency_map}
use pi_build_conductor.Domain.Graph.Cycle.Found.{IsCycle}
use pi_build_conductor.Domain.Reading.{at_field, at_index}
use pi_build_conductor.Domain.Reading.Valid.{
  IsText, AreCommands, ArePaths, nil-append, report_if-none, read_each-All,
  read_non_empty_string-IsText, read_string_array-All, read_allowed_paths-ArePaths,
  read_validation_commands-AreCommands,
}
use pi_build_conductor.Domain.TaskPlan.{
  read_task_fields, read_task, read_tasks, check_task, task_ids, task_nodes,
}

pub record IsTask (task : TaskDefinition) : Type 0 where
  pub identified : IsText task.id
  pub titled : IsText task.title
  pub described : IsText task.description
  pub depends : All IsText task.dependencies
  pub criteria : All IsText task.acceptance_criteria
  pub some_paths : task.allowed_paths ≢ []
  pub paths : ArePaths task.allowed_paths
  pub commands : AreCommands task.validation_commands

-- A task as a node of the plan's graph.
pub record IsNode (task : TaskDefinition) : Type 0 where
  pub named : is_name task.id ≡ true
  pub distinct : is_distinct task.dependencies ≡ true
  pub no_self : includes task.id task.dependencies ≡ false

abbrev pub DependsOn : List String → TaskDefinition → Type 0
DependsOn ids task = All (λ dependency. includes dependency ids ≡ true) task.dependencies

pub record IsTaskPlan (plan : TaskPlan) : Type 0 where
  pub titled : IsText plan.title
  pub some_tasks : plan.tasks ≢ []
  pub tasks : All IsTask plan.tasks
  pub commands : AreCommands plan.final_validation_commands
  pub nodes : All IsNode plan.tasks
  pub distinct : is_distinct (task_ids plan.tasks) ≡ true
  pub known : All (DependsOn (task_ids plan.tasks)) plan.tasks
  pub acyclic : (cycle : List String) → ¬ (IsCycle (dependency_map (task_nodes plan.tasks)) cycle)

read_task_fields-IsTask :
    (value : Dict Json) (path : String)
    → (read_task_fields value path).1 ≡ []
    → IsTask (read_task_fields value path).0
unfolding read_task_fields
read_task_fields-IsTask value path h =
    let (a, h1) = nil-append _ _ h in
    let (b, h2) = nil-append _ _ h1 in
    let (c, h3) = nil-append _ _ h2 in
    let (d, h4) = nil-append _ _ h3 in
    let (e, h5) = nil-append _ _ h4 in
    let (f, h6) = nil-append _ _ h5 in
    let (g, _) = nil-append _ [] h6 in
    let (some_paths, paths) = read_allowed_paths-ArePaths (get "allowedPaths" value) _ f in
    record {
      identified = read_non_empty_string-IsText (get "id" value) (at_field path "id") a;
      titled = read_non_empty_string-IsText (get "title" value) (at_field path "title") b;
      described =
          read_non_empty_string-IsText (get "description" value) (at_field path "description") c;
      depends = read_string_array-All (get "dependencies" value) (at_field path "dependencies") d;
      criteria =
          read_string_array-All (get "acceptanceCriteria" value)
            (at_field path "acceptanceCriteria") e;
      some_paths = some_paths;
      paths = paths;
      commands =
          read_validation_commands-AreCommands (get "validationCommands" value)
            (at_field path "validationCommands") g;
    }

read_task-IsTask :
    (value : Json) (index : ℕ) → (read_task value index).1 ≡ [] → IsTask (read_task value index).0
unfolding read_task
read_task-IsTask value index h = elim (Option-cases (as_record (some value))) [
  | inl q ↦ absurd (cc (rw (q, read_task) at h))
  | inr (fields, q) ↦
      rw (q, read_task)
        (read_task_fields-IsTask fields (at_index "tasks" index) (rw (q, read_task) at h))
]

pub read_tasks-All :
    (value : Option Json)
    → (read_tasks value).1 ≡ []
    → ((read_tasks value).0 ≢ []) × All IsTask (read_tasks value).0
unfolding read_tasks
read_tasks-All value h = elim (Option-cases (as_array value)) [
  | inl q ↦ absurd (cc (rw (q, read_tasks) at h))
  | inr ([], q) ↦ absurd (cc (rw (q, read_tasks) at h))
  | inr (task ∷ tasks, q) ↦
      rw (q, read_tasks)
        (
          λ empty. absurd (cc),
          read_each-All _ IsTask read_task-IsTask 0 (task ∷ tasks) (rw (q, read_tasks) at h),
        )
]

pub check_task-IsNode :
    (ids : List String) (task : TaskDefinition) (index : ℕ)
    → (check_task ids task index).1 ≡ []
    → IsNode task × (includes task.id ids ≡ false)
unfolding check_task
check_task-IsNode ids task index h =
    let (a, h1) = nil-append _ _ h in
    let (b, h2) = nil-append _ _ h1 in
    let (c, d) = nil-append _ _ h2 in
    let named = report_if-none (not (is_name task.id)) _ a in
    let distinct = report_if-none (not (is_distinct task.dependencies)) _ c in
    (
      record {
        named = ground arith;
        distinct = ground arith;
        no_self = report_if-none (includes task.id task.dependencies) _ d;
      },
      report_if-none (includes task.id ids) _ b,
    )
