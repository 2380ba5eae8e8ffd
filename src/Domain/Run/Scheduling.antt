-- ===== src/Domain/Run/Scheduling.antt =====
-- src/domain/scheduler.ts: which tasks of a run may start.
pub mod Reconcile
pub mod Launch
pub mod Exact
use pi_build_conductor.Prelude.{
  ℕ, ◌-◌, String, Bool, true, false, not, ◌&&◌, List, [], ◌∷◌, Option, none, some, Dict, get, put,
  is_truthy, any, all, includes, filter, take, length, eqb, if◌then◌else◌, ◌==◌, string_eq, Result,
  ok, ◌>>=◌,
}
use pi_build_conductor.Domain.Types.{TaskState, ready, is_active_attempt_state}
use pi_build_conductor.Domain.Reading.{PlanValidationIssue}
use pi_build_conductor.Domain.TaskPlan.Analysis.{topological_task_ids}
use pi_build_conductor.Domain.Run.{RunState, RunTask, TaskAttempt, OrchestrationRun}

-- `TERMINAL_FAILURE_STATES.has(state)`.
unfoldable pub is_terminal_failure : TaskState → Bool
is_terminal_failure TaskState.failed = true
is_terminal_failure TaskState.blocked = true
is_terminal_failure TaskState.cancelled = true
is_terminal_failure _ = false

-- The states that `nextState` leaves alone.
unfoldable pub keeps_state : TaskState → Bool
keeps_state TaskState.running = true
keeps_state TaskState.validating = true
keeps_state TaskState.succeeded = true
keeps_state TaskState.failed = true
keeps_state TaskState.cancelled = true
keeps_state _ = false

abbrev pub stops_dependents : Option RunTask → Bool
stops_dependents none = true
stops_dependents (some dependency) = is_terminal_failure dependency.state

-- `dependency?.integratedCommit` as a condition.
abbrev pub is_integrated : Option RunTask → Bool
is_integrated none = false
is_integrated (some dependency) = is_truthy dependency.integrated_commit

unfoldable pub next_state : RunTask → Dict RunTask → TaskState
unfolding keeps_state is_terminal_failure
next_state run_task tasks =
    if keeps_state run_task.state
    then run_task.state
    else if any (λ id. stops_dependents (get id tasks)) run_task.definition.dependencies
    then TaskState.blocked
    else if all (λ id. is_integrated (get id tasks)) run_task.definition.dependencies
    then TaskState.ready
    else TaskState.planned

-- The body of the loop of `reconcileTaskStates`.
unfoldable pub reconcile_one : String → Dict RunTask → Dict RunTask
unfolding next_state
reconcile_one id tasks = elim (get id tasks) [
  | none ↦ tasks
  | some run_task ↦ put id (record run_task { state = next_state run_task tasks }) tasks
]

unfoldable pub reconcile_ids : List String → Dict RunTask → Dict RunTask
unfolding reconcile_one
reconcile_ids [] tasks = tasks
reconcile_ids (id ∷ ids) tasks = reconcile_ids ids (reconcile_one id tasks)

unfoldable pub reconcile_task_states :
    OrchestrationRun → Result (List PlanValidationIssue) OrchestrationRun
unfolding reconcile_ids
reconcile_task_states run = do
  order ← topological_task_ids run.plan
  ok (record run { tasks = reconcile_ids order run.tasks })

abbrev pub active_attempts : List TaskAttempt → List TaskAttempt
active_attempts attempts = filter (λ attempt. is_active_attempt_state attempt.state) attempts

abbrev pub attempt_task_ids : List TaskAttempt → List String
attempt_task_ids [] = []
attempt_task_ids (attempt ∷ attempts) = attempt.task_id ∷ attempt_task_ids attempts

unfoldable pub is_under_way : TaskState → Bool
is_under_way TaskState.running = true
is_under_way TaskState.validating = true
is_under_way _ = false

-- The running tasks that no active attempt tracks.
unfoldable pub untracked_running : List String → Dict RunTask → List String
unfolding is_under_way
untracked_running tracked [] = []
untracked_running tracked ((id, run_task) ∷ tasks) =
    let rest = untracked_running tracked tasks in
    if is_under_way run_task.state && not (includes id tracked) then id ∷ rest else rest

abbrev pub is_ready_state : TaskState → Bool
is_ready_state TaskState.ready = true
is_ready_state _ = false

abbrev pub is_ready : Option RunTask → Bool
is_ready none = false
is_ready (some run_task) = is_ready_state run_task.state

abbrev pub run_is_running : RunState → Bool
run_is_running RunState.running = true
run_is_running _ = false

-- Both subtractions stop at 0, as `Math.max(0, ...)` does.
unfoldable pub available_slots : OrchestrationRun → ℕ
unfolding untracked_running
available_slots run =
    let active = active_attempts run.attempts in
    (run.max_concurrent_workers - length active)
    - length (untracked_running (attempt_task_ids active) run.tasks)

unfoldable pub launchable_of : OrchestrationRun → List String → List String
unfolding available_slots
launchable_of run order =
    if eqb (available_slots run) 0
    then []
    else take (available_slots run) (
        filter
          (λ id.
            is_ready (get id run.tasks)
            && not (includes id (attempt_task_ids (active_attempts run.attempts))))
          order)

unfoldable pub launchable_task_ids :
    OrchestrationRun → Result (List PlanValidationIssue) (List String)
unfolding reconcile_task_states
launchable_task_ids run =
    if not (run_is_running run.state)
    then ok []
    else reconcile_task_states run >>= λ reconciled.
        topological_task_ids reconciled.plan >>= λ order. ok (launchable_of reconciled order)
