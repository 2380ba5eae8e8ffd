-- ===== src/Engine/Settle.antt =====
-- src/engine/engine.ts: `settleStep` and `routeArtifacts`.
pub mod Outcome
pub mod Ended
use pi_build_conductor.Prelude.{
  ℕ, ◌+◌, String, Bool, true, false, not, ◌&&◌, List, [], ◌∷◌, ◌++◌, map, Option, none, some,
  or_else, truthy_text, length, eqb, if◌then◌else◌, Result, ok, err, ◌>>=◌,
}
use pi_build_conductor.Domain.Types.{AttemptState, TaskValidationEvidence}
use pi_build_conductor.Domain.Steps.{StepDefinition, step_retry_policy}
use pi_build_conductor.Domain.Artifacts.{StepArtifactDraft, ArtifactSummary}
use pi_build_conductor.Engine.State.{
  StepRunState, WorkflowRunLifecycleState, WorkflowStepAttempt, WorkflowStepRecord,
  WorkflowRunState, WorkflowEventBody, StateError, StepFailureClass, retryable, terminal,
  step_succeeded, step_failed, step_retry_scheduled, step_cancelled, artifact_published,
  require_step, update_step, update_step_attempt,
}
use pi_build_conductor.Engine.Events.{append_workflow_events, blocked_step_events}
use pi_build_conductor.Engine.Scheduler.{reconcile_workflow_steps, run_is_running}
use pi_build_conductor.Engine.Retry.{
  StepOutcome, FailedOutcome, StepFailureClassification, classify_step_failure,
}
use pi_build_conductor.Engine.Routing.{
  Writer, RouteFailure, no_artifact_store, write_failed, routing, declared_outputs,
  route_step_artifacts,
}

-- The fields of a `StepExecutionResult` that settling reads.
pub record StepExecutionResult : Type 0 where
  pub outcome : StepOutcome
  pub finished_at : String
  pub timed_out : Bool
  pub workspace_release_error : Option String

pub record Routed : Type 0 where
  pub artifact_ids : List String
  pub events : List WorkflowEventBody

abbrev published : String → String → ArtifactSummary → WorkflowEventBody
published step_id attempt_id summary =
    artifact_published step_id attempt_id summary.id summary.output summary.kind summary.size_bytes

abbrev with_store :
    Option Writer
    → String
    → StepDefinition
    → WorkflowStepAttempt
    → List StepArtifactDraft
    → Result RouteFailure Routed
with_store none run_id step attempt drafts = err no_artifact_store
with_store (some write) run_id step attempt drafts = do
  summaries ← route_step_artifacts write run_id step attempt.number drafts
  ok (record {
    artifact_ids = map (λ summary. summary.id) summaries;
    events = map (published step.id attempt.id) summaries;
  })

-- `routeArtifacts`, for the drafts of a successful outcome.
unfoldable pub route_artifacts :
    Option Writer
    → String
    → StepDefinition
    → WorkflowStepAttempt
    → List StepArtifactDraft
    → Result RouteFailure Routed
route_artifacts writer run_id step attempt drafts =
    if eqb (length drafts) 0 && eqb (length (declared_outputs step)) 0
    then ok (record { artifact_ids = []; events = [] })
    else with_store writer run_id step attempt drafts

-- The messages of the errors that routing throws.
abbrev pub Messages : Type 0
Messages = RouteFailure → String

-- A routing error is permanent; a failed write may be tried again.
abbrev routed_failure : Messages → RouteFailure → StepOutcome
routed_failure message (write_failed text) = StepOutcome.failed text none (some true)
routed_failure message failure = StepOutcome.failed (message failure) none (some false)

-- The first half of `settleStep`: the outcome after its artifacts were published.
unfoldable pub publish_outcome :
    Option Writer
    → Messages
    → String
    → StepDefinition
    → WorkflowStepAttempt
    → StepOutcome
    → StepOutcome × Routed
publish_outcome writer message run_id step attempt
      (StepOutcome.succeeded summary worker_id commit evidence artifacts) =
    elim (route_artifacts writer run_id step attempt (or_else artifacts [])) [
      | ok routed ↦ (StepOutcome.succeeded summary worker_id commit evidence artifacts, routed)
      | err failure ↦ (routed_failure message failure, record { artifact_ids = []; events = [] })
    ]
publish_outcome writer message run_id step attempt outcome =
    (outcome, record { artifact_ids = []; events = [] })

-- `undefined` for a successful outcome.
abbrev pub classification :
    StepDefinition → ℕ → Bool → StepOutcome → Option StepFailureClassification
classification step number timed_out (StepOutcome.succeeded _ _ _ _ _) = none
classification step number timed_out (StepOutcome.failed error worker_id declared) = some (
    classify_step_failure (record {
      outcome = FailedOutcome.failed error worker_id declared;
      timed_out = timed_out;
      attempt_number = number;
      max_attempts = (step_retry_policy step).max_attempts;
    }))
classification step number timed_out (StepOutcome.cancelled error worker_id) = some (
    classify_step_failure (record {
      outcome = FailedOutcome.cancelled error worker_id;
      timed_out = timed_out;
      attempt_number = number;
      max_attempts = (step_retry_policy step).max_attempts;
    }))

-- `value ? { field: value } : {}`: an update that is left out keeps the field.
abbrev pub keep_or {ℓ} : {A : Type ℓ} → Option A → Option A → Option A
keep_or old none = old
keep_or old (some new) = some new

-- A list that is spread only if it is not empty.
abbrev pub some_ids : List String → Option (List String)
some_ids [] = none
some_ids (id ∷ ids) = some (id ∷ ids)

unfoldable pub settle_attempt :
    StepExecutionResult → StepOutcome → List String → WorkflowStepAttempt → WorkflowStepAttempt
settle_attempt result (StepOutcome.succeeded summary worker_id commit evidence _) ids attempt =
    record attempt {
      state = AttemptState.succeeded;
      finished_at = some result.finished_at;
      worker_id = keep_or attempt.worker_id (truthy_text worker_id);
      summary = keep_or attempt.summary (truthy_text summary);
      commit = keep_or attempt.commit (truthy_text commit);
      evidence = keep_or attempt.evidence evidence;
      artifact_ids = keep_or attempt.artifact_ids (some_ids ids);
      workspace_release_error =
          keep_or attempt.workspace_release_error (truthy_text result.workspace_release_error);
    }
settle_attempt result (StepOutcome.cancelled error worker_id) ids attempt = record attempt {
  state = AttemptState.cancelled;
  finished_at = some result.finished_at;
  worker_id = keep_or attempt.worker_id (truthy_text worker_id);
  error = some error;
  workspace_release_error =
      keep_or attempt.workspace_release_error (truthy_text result.workspace_release_error);
}
settle_attempt result (StepOutcome.failed error worker_id _) ids attempt = record attempt {
  state = AttemptState.failed;
  finished_at = some result.finished_at;
  worker_id = keep_or attempt.worker_id (truthy_text worker_id);
  error = some error;
  workspace_release_error =
      keep_or attempt.workspace_release_error (truthy_text result.workspace_release_error);
}

-- `classification?.failureClass === "retryable"`.
abbrev pub is_retrying : Option StepFailureClassification → Bool
is_retrying none = false
is_retrying (some c) = elim c.failure_class [ retryable ↦ true | terminal ↦ false ]

unfoldable pub settle_record : StepOutcome → Bool → WorkflowStepRecord → WorkflowStepRecord
settle_record (StepOutcome.succeeded _ _ _ _ _) retrying step = record step {
  state = StepRunState.succeeded;
}
settle_record (StepOutcome.cancelled error _) retrying step =
    if retrying
    then record step { state = StepRunState.ready }
    else record step { state = StepRunState.cancelled; error = some error }
settle_record (StepOutcome.failed error _ _) retrying step =
    if retrying
    then record step { state = StepRunState.ready }
    else record step { state = StepRunState.failed; error = some error }

abbrev failure_events :
    String
    → WorkflowStepAttempt
    → String
    → Option StepFailureClassification
    → List WorkflowEventBody
failure_events step_id attempt error none = []
failure_events step_id attempt error (some c) =
    step_failed step_id attempt.id error c.failure_class c.reason
    ∷ (if is_retrying (some c)
        then step_retry_scheduled step_id attempt.id (attempt.number + 1) c.reason ∷ []
        else [])

unfoldable pub outcome_events :
    String
    → WorkflowStepAttempt
    → StepOutcome
    → Option StepFailureClassification
    → List WorkflowEventBody
outcome_events step_id attempt (StepOutcome.succeeded summary _ _ _ _) c =
    step_succeeded step_id attempt.id (truthy_text summary) ∷ []
outcome_events step_id attempt (StepOutcome.cancelled error _) c =
    step_cancelled step_id (some attempt.id) (some error) ∷ []
outcome_events step_id attempt (StepOutcome.failed error _ _) c =
    failure_events step_id attempt error c

-- The state of the run after a step settled.
unfoldable pub settled_run_state :
    WorkflowRunLifecycleState → StepOutcome → Bool → WorkflowRunLifecycleState
settled_run_state WorkflowRunLifecycleState.running (StepOutcome.cancelled _ _) retrying =
    WorkflowRunLifecycleState.cancelled
settled_run_state WorkflowRunLifecycleState.running (StepOutcome.failed _ _ _) retrying =
    if retrying then WorkflowRunLifecycleState.running else WorkflowRunLifecycleState.failed
settled_run_state WorkflowRunLifecycleState.running (StepOutcome.succeeded _ _ _ _ _) retrying =
    WorkflowRunLifecycleState.running
settled_run_state state outcome retrying = state

-- The transaction of `settleStep`.
unfoldable pub settle_step :
    WorkflowRunState
    → String
    → WorkflowStepAttempt
    → StepExecutionResult
    → StepOutcome
    → Routed
    → String
    → Result StateError WorkflowRunState
settle_step current step_id attempt result outcome routed now = do
  step ← require_step current step_id
  let c = classification step.definition attempt.number result.timed_out outcome
  next ←
      update_step
        (update_step_attempt current attempt.id (settle_attempt result outcome routed.artifact_ids))
        step_id (settle_record outcome (is_retrying c))
  let reconciled = reconcile_workflow_steps next
  ok (
      append_workflow_events
        (record reconciled {
          state = settled_run_state reconciled.state outcome (is_retrying c);
          updated_at = now;
        })
        ((routed.events ++ outcome_events step_id attempt outcome c)
          ++ blocked_step_events next reconciled)
        now)
