-- ===== src/Engine/Scheduler.antt =====
-- src/engine/scheduler.ts: which steps may start, and which may integrate.
pub mod Locks
pub mod Reconcile
pub mod Launch
pub mod Integrable
use pi_build_conductor.Prelude.{
  ℕ, zero, suc, ◌+◌, ◌-◌, String, Bool, true, false, not, ◌&&◌, ◌||◌, List, [], ◌∷◌, ◌++◌, Option,
  none, some, Dict, get, put, values, or_else, is_some, is_truthy, any, all, includes, filter,
  flat_map, map, length, eqb, if◌then◌else◌, ◌==◌, string_eq, Result, ok, err, ◌>>=◌,
}
use text.Mathlib.Text.{starts_with}
use pi_build_conductor.Domain.Types.{RunCapabilityProfiles, is_active_attempt_state}
unfoldable pub use pi_build_conductor.Domain.Steps.{step_nodes, topological_step_ids}
use pi_build_conductor.Domain.Steps.{
  StepDefinition, WorkflowPlan, step_path_locks, step_resource_locks,
}
use pi_build_conductor.Domain.Graph.{Node}
use pi_build_conductor.Domain.Graph.Topological.{topological_ids}
use pi_build_conductor.Security.Envelope.{ends_with_slash}
use pi_build_conductor.Engine.Workspaces.{step_consumes_worker_slot, step_requires_integration}
use pi_build_conductor.Engine.State.{
  StepRunState, planned, ready, blocked, is_terminal_step_state, is_terminal_step_failure,
  WorkflowRunLifecycleState, WorkflowStepAttempt, WorkflowStepRecord, WorkflowRunState, StateError,
  require_step,
}
use pi_build_conductor.Engine.Events.{stops}

abbrev pub is_running : StepRunState → Bool
is_running StepRunState.running = true
is_running _ = false

abbrev pub is_ready : StepRunState → Bool
is_ready StepRunState.ready = true
is_ready _ = false

abbrev pub is_succeeded : StepRunState → Bool
is_succeeded StepRunState.succeeded = true
is_succeeded _ = false

abbrev pub run_is_running : WorkflowRunLifecycleState → Bool
run_is_running WorkflowRunLifecycleState.running = true
run_is_running _ = false

-- `topologicalStepIds` of src/domain/steps.ts.
unfoldable pub step_satisfies_dependents : RunCapabilityProfiles → WorkflowStepRecord → Bool
step_satisfies_dependents profiles step =
    if is_succeeded step.state
    then not (step_requires_integration profiles step.definition) || is_some step.integrated_commit
    else false

-- `dependency ? stepSatisfiesDependents(state, dependency) : false`.
abbrev pub satisfies : RunCapabilityProfiles → Option WorkflowStepRecord → Bool
satisfies profiles none = false
satisfies profiles (some step) = step_satisfies_dependents profiles step

unfoldable pub next_step_state :
    RunCapabilityProfiles → WorkflowStepRecord → Dict WorkflowStepRecord → StepRunState
unfolding step_satisfies_dependents
next_step_state profiles step steps =
    if is_running step.state || is_terminal_step_state step.state
    then step.state
    else if any (λ id. stops (get id steps)) step.definition.dependencies
    then blocked
    else if all (λ id. satisfies profiles (get id steps)) step.definition.dependencies
    then ready
    else planned

-- The body of the loop of `reconcileWorkflowSteps`.
unfoldable pub reconcile_one :
    RunCapabilityProfiles → String → Dict WorkflowStepRecord → Dict WorkflowStepRecord
unfolding next_step_state
reconcile_one profiles id steps = elim (get id steps) [
  | none ↦ steps
  | some step ↦ put id (record step { state = next_step_state profiles step steps }) steps
]

unfoldable pub reconcile_ids :
    RunCapabilityProfiles → List String → Dict WorkflowStepRecord → Dict WorkflowStepRecord
unfolding reconcile_one
reconcile_ids profiles [] steps = steps
reconcile_ids profiles (id ∷ ids) steps =
    reconcile_ids profiles ids (reconcile_one profiles id steps)

unfoldable pub reconcile_workflow_steps : WorkflowRunState → WorkflowRunState
unfolding reconcile_ids topological_step_ids
reconcile_workflow_steps state = record state {
  steps = reconcile_ids state.capability_profiles (topological_step_ids state.plan) state.steps;
}

path_lock_covers : String → String → Bool
path_lock_covers prefix path = ends_with_slash prefix && starts_with path prefix

unfoldable pub path_locks_conflict : String → String → Bool
unfolding path_lock_covers
path_locks_conflict left right =
    left == right || (path_lock_covers left right || path_lock_covers right left)

pub record HeldLocks : Type 0 where
  pub paths : List String
  pub resources : List String

abbrev pub definitions_of : List WorkflowStepRecord → List StepDefinition
definitions_of [] = []
definitions_of (step ∷ steps) = step.definition ∷ definitions_of steps

unfoldable pub held_locks_of : List WorkflowStepRecord → HeldLocks
held_locks_of steps = record {
  paths = flat_map step_path_locks (definitions_of steps);
  resources = flat_map step_resource_locks (definitions_of steps);
}

unfoldable pub conflicts_with_held_locks : StepDefinition → HeldLocks → Bool
conflicts_with_held_locks step held =
    any (λ lock. any (λ held_lock. path_locks_conflict lock held_lock) held.paths)
      (step_path_locks step)
    || any (λ lock. includes lock held.resources) (step_resource_locks step)

unfoldable pub hold_locks : HeldLocks → StepDefinition → HeldLocks
hold_locks held step = record {
  paths = held.paths ++ step_path_locks step;
  resources = held.resources ++ step_resource_locks step;
}

abbrev pub active_attempts : List WorkflowStepAttempt → List WorkflowStepAttempt
active_attempts attempts = filter (λ attempt. is_active_attempt_state attempt.state) attempts

abbrev pub attempt_step_ids : List WorkflowStepAttempt → List String
attempt_step_ids [] = []
attempt_step_ids (attempt ∷ attempts) = attempt.step_id ∷ attempt_step_ids attempts

-- The entries of the running steps that no active attempt tracks.
unfoldable pub untracked_running : List String → Dict WorkflowStepRecord → List String
untracked_running tracked [] = []
untracked_running tracked ((step_id, step) ∷ entries) =
    let rest = untracked_running tracked entries in
    if is_running step.state && not (includes step_id tracked) then step_id ∷ rest else rest

-- `consumesSlot`, which throws for a step that is not in the state.
unfoldable pub consumes_slot : WorkflowRunState → String → Result StateError Bool
unfolding require_step
consumes_slot state step_id = do
  step ← require_step state step_id
  ok (step_consumes_worker_slot state.capability_profiles step.definition)

-- `ids.filter(consumesSlot).length`.
unfoldable pub count_slots : WorkflowRunState → List String → Result StateError ℕ
unfolding consumes_slot
count_slots state [] = ok 0
count_slots state (step_id ∷ step_ids) = do
  one ← consumes_slot state step_id
  others ← count_slots state step_ids
  ok (if one then suc others else others)

unfoldable pub occupied_slots : WorkflowRunState → Result StateError ℕ
unfolding count_slots untracked_running
occupied_slots state = do
  let tracked = attempt_step_ids (active_attempts state.attempts)
  with_attempt ← count_slots state tracked
  without_attempt ← count_slots state (untracked_running tracked state.steps)
  ok (with_attempt + without_attempt)

-- Whether the loop launches a step, given the locks held and the slots left.
unfoldable pub may_launch :
    RunCapabilityProfiles → List String → HeldLocks → ℕ → String → WorkflowStepRecord → Bool
may_launch profiles tracked held slots step_id step =
    is_ready step.state
    && not (includes step_id tracked)
    && not (conflicts_with_held_locks step.definition held)
    && not (step_consumes_worker_slot profiles step.definition && eqb slots 0)

abbrev pub slots_after : RunCapabilityProfiles → ℕ → StepDefinition → ℕ
slots_after profiles slots step =
    if step_consumes_worker_slot profiles step then slots - 1 else slots

-- The loop over the plan order.
unfoldable pub select_launchable :
    RunCapabilityProfiles
    → Dict WorkflowStepRecord
    → List String
    → List String
    → HeldLocks
    → ℕ
    → List String
unfolding may_launch
select_launchable profiles steps tracked [] held slots = []
select_launchable profiles steps tracked (step_id ∷ step_ids) held slots =
    elim (get step_id steps) [
      | none ↦ select_launchable profiles steps tracked step_ids held slots
      | some step ↦ elim (may_launch profiles tracked held slots step_id step) [
        | false ↦ select_launchable profiles steps tracked step_ids held slots
        | true ↦
            step_id
            ∷ select_launchable profiles steps tracked step_ids (hold_locks held step.definition)
                (slots_after profiles slots step.definition)
      ]
    ]

abbrev pub running_records : Dict WorkflowStepRecord → List WorkflowStepRecord
running_records steps = filter (λ step. is_running step.state) (values steps)

unfoldable pub launchable_step_ids : WorkflowRunState → Result StateError (List String)
unfolding reconcile_workflow_steps occupied_slots select_launchable topological_step_ids
launchable_step_ids state = if not (run_is_running state.state) then ok [] else do
  let reconciled = reconcile_workflow_steps state
  occupied ← occupied_slots reconciled
  ok (
      select_launchable reconciled.capability_profiles reconciled.steps
        (attempt_step_ids (active_attempts reconciled.attempts))
        (topological_step_ids reconciled.plan) (held_locks_of (running_records reconciled.steps))
        (reconciled.max_concurrent_workers - occupied))

-- The loop of `nextIntegrableStepId`.
unfoldable pub next_integrable :
    RunCapabilityProfiles → Dict WorkflowStepRecord → List String → Option String
next_integrable profiles steps [] = none
next_integrable profiles steps (step_id ∷ step_ids) = elim (get step_id steps) [
  | none ↦ next_integrable profiles steps step_ids
  | some step ↦
      elim (step_requires_integration profiles step.definition
        && not (is_truthy step.integrated_commit)) [
          | false ↦ next_integrable profiles steps step_ids
          | true ↦ if is_succeeded step.state then some step_id else none
        ]
]

unfoldable pub next_integrable_step_id : WorkflowRunState → Option String
unfolding next_integrable topological_step_ids
next_integrable_step_id state =
    next_integrable state.capability_profiles state.steps (topological_step_ids state.plan)
