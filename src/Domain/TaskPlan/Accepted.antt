-- ===== src/Domain/TaskPlan/Accepted.antt =====
-- src/domain/dag.ts: the checks across the tasks, and the whole of `validateTaskPlanResult`.
use pi_build_conductor.Prelude.{
  ℕ, String, true, false, List, [], ◌∷◌, some, Dict, get, not, string_eq, is_distinct, includes,
  All, ok, ◌≡◌, refl, subst, arith, inl, inr, Option-cases, ok-injective,
}
use pi_build_conductor.Domain.Types.{TaskDefinition, TaskPlan}
use pi_build_conductor.Domain.Json.{Json, as_record}
use pi_build_conductor.Domain.Graph.Cycle.{Search, done, find_cycle}
use pi_build_conductor.Domain.Graph.Cycle.Restores.{Visit-cases}
use pi_build_conductor.Domain.Graph.Cycle.Fuel.{find_cycle-ends}
use pi_build_conductor.Domain.Graph.Cycle.Exact.{find_cycle-done_iff}
use pi_build_conductor.Domain.Reading.{Reading}
use pi_build_conductor.Domain.Reading.Valid.{
  nil-append, report_if-none, check_each-All, check_new-All, read_non_empty_string-IsText,
  read_validation_commands-AreCommands,
}
use pi_build_conductor.Domain.TaskPlan.{
  read_tasks, check_task, check_tasks, check_dependencies, task_ids, task_nodes, read_task_plan,
  conclude, validate_task_plan_result,
}
use pi_build_conductor.Domain.TaskPlan.Valid.{
  IsNode, DependsOn, IsTaskPlan, read_tasks-All, check_task-IsNode,
}

check_tasks-All :
    (ids : List String) (index : ℕ) (tasks : List TaskDefinition)
    → (check_tasks ids index tasks).1 ≡ []
    → All IsNode tasks
      × (is_distinct (task_ids tasks) ≡ true)
      × All (λ id. includes id ids ≡ false) (task_ids tasks)
unfolding check_tasks
check_tasks-All = check_new-All check_task (λ task. task.id) IsNode check_task-IsNode

check_dependencies-DependsOn :
    (ids : List String) (task : TaskDefinition) (index : ℕ)
    → (check_dependencies ids task index).1 ≡ []
    → DependsOn ids task
unfolding check_dependencies
check_dependencies-DependsOn ids task index h =
    check_each-All _ (λ dependency. includes dependency ids ≡ true)
      (λ dependency i k.
        let known = report_if-none (not (includes dependency ids)) _ k in ground arith)
      0 task.dependencies h

conclude-eq-ok :
    (read : Reading TaskPlan) (plan : TaskPlan)
    → conclude read ≡ ok plan
    → (read.1 ≡ [])
      × (read.0 ≡ plan)
      × (s : Search) × (find_cycle (task_nodes (read.0).tasks) ≡ done s)
unfolding conclude
conclude-eq-ok (read, first ∷ issues) plan h = absurd (cc)
conclude-eq-ok (read, []) plan h = elim (Visit-cases (find_cycle (task_nodes read.tasks))) [
  | inl q ↦ absurd (find_cycle-ends (task_nodes read.tasks) q)
  | inr (inl (cycle, q)) ↦ absurd (cc (rw (q, conclude) at h))
  | inr (inr (s, q)) ↦ (refl, ok-injective (rw (q, conclude) at h), s, q)
]

read_task_plan-IsTaskPlan :
    (value : Dict Json)
    → (read_task_plan value).1 ≡ []
    → (s : Search) → find_cycle (task_nodes (read_task_plan value).0.tasks) ≡ done s
    → IsTaskPlan (read_task_plan value).0
unfolding read_task_plan
read_task_plan-IsTaskPlan value h s e =
    let (_, h1) = nil-append _ _ h in
    let (b, h2) = nil-append _ _ h1 in
    let (c, h3) = nil-append _ _ h2 in
    let (d, h4) = nil-append _ _ h3 in
    let (f, h5) = nil-append _ _ h4 in
    let (g, _) = nil-append _ [] h5 in
    let (some_tasks, tasks) = read_tasks-All (get "tasks" value) c in
    let (nodes, distinct, _) = check_tasks-All [] 0 (read_tasks (get "tasks" value)).0 f in
    record {
      titled = read_non_empty_string-IsText (get "title" value) "title" b;
      some_tasks = some_tasks;
      tasks = tasks;
      commands =
          read_validation_commands-AreCommands (get "finalValidationCommands" value)
            "finalValidationCommands" d;
      nodes = nodes;
      distinct = distinct;
      known =
          check_each-All _ (DependsOn _) (λ task i k. check_dependencies-DependsOn _ task i k) 0
            (read_tasks (get "tasks" value)).0 g;
      acyclic = (find_cycle-done_iff (task_nodes (read_tasks (get "tasks" value)).0)).0 (s, e);
    }

-- If the validation of a JSON value returns a plan, the plan is well formed: its texts are
-- trimmed and not empty, its commands have no NUL, every task has allowed paths, which are
-- distinct and pass both path checks, the ids of the tasks have the required form and are
-- distinct, every dependency is another task of the plan and none is repeated, and the
-- dependencies have no cycle.
pub validate_task_plan_result-IsTaskPlan :
    (value : Json) (plan : TaskPlan) → validate_task_plan_result value ≡ ok plan → IsTaskPlan plan
unfolding validate_task_plan_result
validate_task_plan_result-IsTaskPlan value plan h = elim (Option-cases (as_record (some value))) [
  | inl q ↦ absurd (cc (rw (q, validate_task_plan_result) at h))
  | inr (fields, q) ↦
      let (no_issue, same, s, e) =
        conclude-eq-ok (read_task_plan fields) plan (rw (q, validate_task_plan_result) at h) in
      subst IsTaskPlan same (read_task_plan-IsTaskPlan fields no_issue s e)
]
