-- ===== src/Engine/Launch.antt =====
-- src/engine/engine.ts: `launchStep`, whose transactions reserve a step and mark its attempt as
-- running, and `failStep`.
pub mod Reserved
use pi_build_conductor.Prelude.{
  ◌+◌, String, Bool, true, false, not, [], ◌∷◌, ◌++◌, Option, none, some, includes, truthy_text,
  length, if◌then◌else◌, Result, ok, err, ◌>>=◌, string_eq,
}
use pi_build_conductor.Domain.Types.{AttemptState}
use pi_build_conductor.Engine.Workspaces.{WorkspaceRequirement}
use pi_build_conductor.Engine.State.{
  StepRunState, WorkflowRunLifecycleState, WorkflowStepAttempt, WorkflowStepRecord,
  WorkflowRunState, StateError, terminal, could_not_start, step_launched, step_failed, require_step,
  update_step, update_step_attempt,
}
use pi_build_conductor.Engine.Events.{
  append_workflow_event, append_workflow_events, blocked_step_events,
}
use pi_build_conductor.Engine.Scheduler.{launchable_step_ids, reconcile_workflow_steps}

-- The `Workspace` that the executor acquired.
pub record Workspace : Type 0 where
  pub requirement : WorkspaceRequirement
  pub path : String
  pub branch : Option String
  pub base_commit : String

unfoldable pub new_attempt :
    WorkflowStepRecord → String → String → Workspace → String → WorkflowStepAttempt
new_attempt step step_id attempt_id workspace now = record {
  id = attempt_id;
  step_id = step_id;
  number = length step.attempt_ids + 1;
  state = AttemptState.prepared;
  workspace_requirement = workspace.requirement;
  workspace_path = workspace.path;
  branch = truthy_text workspace.branch;
  base_commit = workspace.base_commit;
  started_at = now;
  finished_at = none;
  summary = none;
  error = none;
  worker_id = none;
  commit = none;
  evidence = none;
  artifact_ids = none;
  workspace_release_error = none;
}

abbrev pub start_record : String → WorkflowStepRecord → WorkflowStepRecord
start_record attempt_id step = record step {
  state = StepRunState.running;
  attempt_ids = step.attempt_ids ++ attempt_id ∷ [];
}

-- The transaction that reserves a step, if it still may start; whether it did. One transaction
-- reads the clock once here.
unfoldable pub reserve_step :
    WorkflowRunState → WorkflowStepAttempt → String → Result StateError (WorkflowRunState × Bool)
reserve_step current attempt now = do
  ids ← launchable_step_ids current
  if not (includes attempt.step_id ids) then ok (current, false) else do
    next ← update_step current attempt.step_id (start_record attempt.id)
    ok (
      append_workflow_event
          (record next { attempts = current.attempts ++ attempt ∷ []; updated_at = now })
          (step_launched attempt.step_id attempt.id attempt.number attempt.workspace_requirement)
          now,
      true,
    )

-- The transaction after the reservation.
unfoldable pub mark_running : WorkflowRunState → String → String → WorkflowRunState
mark_running current attempt_id now =
    let next =
      update_step_attempt current attempt_id
        (λ attempt. record attempt { state = AttemptState.running }) in
    record next { updated_at = now }

abbrev pub fail_record : String → WorkflowStepRecord → WorkflowStepRecord
fail_record message step = record step { state = StepRunState.failed; error = some message }

abbrev pub keep_cancelled : WorkflowRunLifecycleState → WorkflowRunLifecycleState
keep_cancelled WorkflowRunLifecycleState.cancelled = WorkflowRunLifecycleState.cancelled
keep_cancelled _ = WorkflowRunLifecycleState.failed

unfoldable pub fail_step :
    WorkflowRunState → String → String → String → Result StateError WorkflowRunState
fail_step current step_id message now = do
  failed ← update_step current step_id (fail_record message)
  let reconciled = reconcile_workflow_steps failed
  ok (
      append_workflow_events
        (record reconciled { state = keep_cancelled reconciled.state; updated_at = now })
        (step_failed step_id "" message terminal could_not_start
          ∷ blocked_step_events failed reconciled)
        now)

-- `launchStep` as one call: what the executor's `prepare` returned decides between a failed step
-- and a reservation, and a reserved attempt is marked as running.
unfoldable pub launch_step :
    WorkflowRunState
    → String
    → String
    → Result String Workspace
    → String
    → Result StateError (WorkflowRunState × Bool)
unfolding new_attempt reserve_step mark_running fail_step
launch_step state step_id attempt_id prepared now = do
  step ← require_step state step_id
  elim prepared [
    | err message ↦ fail_step state step_id message now >>= λ failed. ok (failed, false)
    | ok workspace ↦
        reserve_step state (new_attempt step step_id attempt_id workspace now) now
        >>= λ (stored, reserved).
            ok (if reserved then mark_running stored attempt_id now else stored, reserved)
  ]
