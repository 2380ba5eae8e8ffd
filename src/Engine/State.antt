-- ===== src/Engine/State.antt =====
-- src/engine/workflow-state.ts, and the event bodies of src/engine/events.ts that its state holds.
pub mod Updates
use pi_build_conductor.Prelude.{
  ℕ, String, Bool, true, false, List, [], ◌∷◌, Option, none, some, Dict, get, put, find_first,
  length, ltb, eqb, if◌then◌else◌, ◌==◌, string_eq, Result, ok, err, ◌>>=◌,
}
use pi_build_conductor.Domain.Types.{AttemptState, RunCapabilityProfiles, TaskValidationEvidence}
use pi_build_conductor.Domain.Steps.{StepDefinition, WorkflowPlan}
use pi_build_conductor.Domain.Artifacts.{ArtifactKind}
use pi_build_conductor.Security.Envelope.{FrozenAuthority}
use pi_build_conductor.Engine.Workspaces.{WorkspaceRequirement}

pub data StepRunState : Type 0 where
  planned ready running succeeded failed blocked cancelled : StepRunState

pub data WorkflowRunLifecycleState : Type 0 where
  running completed failed cancelled : WorkflowRunLifecycleState

-- `TERMINAL_STEP_STATES.has(state)`.
abbrev pub is_terminal_step_state : StepRunState → Bool
is_terminal_step_state StepRunState.planned = false
is_terminal_step_state StepRunState.ready = false
is_terminal_step_state StepRunState.running = false
is_terminal_step_state _ = true

-- `TERMINAL_STEP_FAILURE_STATES.has(state)`.
abbrev pub is_terminal_step_failure : StepRunState → Bool
is_terminal_step_failure StepRunState.failed = true
is_terminal_step_failure StepRunState.blocked = true
is_terminal_step_failure StepRunState.cancelled = true
is_terminal_step_failure _ = false

pub record WorkflowStepAttempt : Type 0 where
  pub id : String
  pub step_id : String
  pub number : ℕ
  pub state : AttemptState
  pub workspace_requirement : WorkspaceRequirement
  pub workspace_path : String
  pub branch : Option String
  pub base_commit : String
  pub started_at : String
  pub finished_at : Option String
  pub summary : Option String
  pub error : Option String
  pub worker_id : Option String
  pub commit : Option String
  pub evidence : Option TaskValidationEvidence
  pub artifact_ids : Option (List String)
  pub workspace_release_error : Option String

pub record WorkflowStepRecord : Type 0 where
  pub definition : StepDefinition
  pub state : StepRunState
  pub attempt_ids : List String
  pub integrated_commit : Option String
  pub integration_error : Option String
  pub error : Option String

pub data StepFailureClass : Type 0 where
  retryable terminal : StepFailureClass

-- The `reason` texts of failures and retries, one constructor for each text.
pub data FailureReason : Type 0 where
  was_cancelled cannot_be_resolved could_not_start could_not_integrate : FailureReason
  budget_exhausted : (max_attempts : ℕ) → FailureReason
  timed_out_remaining failed_remaining : (attempts : ℕ) → FailureReason
  interrupted_in_budget : (budget : ℕ) → FailureReason
  interrupted_for_good : FailureReason
  run_interrupted : (error : String) → FailureReason

pub data WorkflowEventBody : Type 0 where
  step_launched :
      (step_id attempt_id : String) (attempt_number : ℕ) → WorkspaceRequirement → WorkflowEventBody
  step_succeeded : (step_id attempt_id : String) (summary : Option String) → WorkflowEventBody
  step_failed :
      (step_id attempt_id error : String) → StepFailureClass → FailureReason → WorkflowEventBody
  step_retry_scheduled :
      (step_id attempt_id : String) (next_attempt_number : ℕ) → FailureReason → WorkflowEventBody
  step_cancelled : (step_id : String) (attempt_id error : Option String) → WorkflowEventBody
  step_blocked : (step_id : String) (blocked_by : List String) → WorkflowEventBody
  step_admitted : (step_id proposed_by reason : String) → WorkflowEventBody
  artifact_published :
      (step_id attempt_id artifact_id output : String) → ArtifactKind → ℕ → WorkflowEventBody
  step_integrated :
      (step_id : String) (commit : Option String) (integration_head : String) → WorkflowEventBody
  run_cancellation_requested : (reason : String) → WorkflowEventBody
  run_settled : WorkflowRunLifecycleState → (error : Option String) → WorkflowEventBody

pub record WorkflowEvent : Type 0 where
  pub sequence : ℕ
  pub at : String
  pub body : WorkflowEventBody

pub record WorkflowRunState : Type 0 where
  pub id : String
  pub state : WorkflowRunLifecycleState
  pub plan : WorkflowPlan
  pub repository_root : String
  pub base_branch : String
  pub base_commit : String
  pub integration_branch : String
  pub integration_head : String
  pub capability_profiles : RunCapabilityProfiles
  pub authority : Option FrozenAuthority
  pub steps : Dict WorkflowStepRecord
  pub attempts : List WorkflowStepAttempt
  pub events : List WorkflowEvent
  pub event_sequence : ℕ
  pub dropped_events : ℕ
  pub max_concurrent_workers : ℕ
  pub error : Option String
  pub created_at : String
  pub updated_at : String

pub data StateError : Type 0 where
  step_disappeared : (step_id : String) → StateError
  concurrency_not_positive : StateError

pub record CreateInput : Type 0 where
  pub id : String
  pub plan : WorkflowPlan
  pub repository_root : String
  pub base_branch : String
  pub base_commit : String
  pub integration_branch : String
  pub integration_head : String
  pub capability_profiles : RunCapabilityProfiles
  pub authority : Option FrozenAuthority
  pub max_concurrent_workers : ℕ
  pub created_at : String

abbrev pub fresh_record : StepRunState → StepDefinition → WorkflowStepRecord
fresh_record state definition = record {
  definition = definition;
  state = state;
  attempt_ids = [];
  integrated_commit = none;
  integration_error = none;
  error = none;
}

unfoldable pub initial_steps :
    List StepDefinition → Dict WorkflowStepRecord → Dict WorkflowStepRecord
initial_steps [] steps = steps
initial_steps (definition ∷ definitions) steps =
    let state =
      if eqb (length definition.dependencies) 0 then StepRunState.ready else StepRunState.planned in
    initial_steps definitions (put definition.id (fresh_record state definition) steps)

-- `Number.isSafeInteger` holds of the numbers here.
unfoldable pub create_workflow_run_state : CreateInput → Result StateError WorkflowRunState
unfolding initial_steps
create_workflow_run_state input =
    if ltb input.max_concurrent_workers 1
    then err concurrency_not_positive
    else ok (record {
      id = input.id;
      state = WorkflowRunLifecycleState.running;
      plan = input.plan;
      repository_root = input.repository_root;
      base_branch = input.base_branch;
      base_commit = input.base_commit;
      integration_branch = input.integration_branch;
      integration_head = input.integration_head;
      capability_profiles = input.capability_profiles;
      authority = input.authority;
      steps = initial_steps input.plan.steps [];
      attempts = [];
      events = [];
      event_sequence = 0;
      dropped_events = 0;
      max_concurrent_workers = input.max_concurrent_workers;
      error = none;
      created_at = input.created_at;
      updated_at = input.created_at;
    })

unfoldable pub require_step : WorkflowRunState → String → Result StateError WorkflowStepRecord
require_step state step_id = elim (get step_id state.steps) [
  | none ↦ err (step_disappeared step_id)
  | some step ↦ ok step
]

-- The spread `{ ...record, ...update }` is a function on the record.
unfoldable pub update_step :
    WorkflowRunState
    → String
    → (WorkflowStepRecord → WorkflowStepRecord)
    → Result StateError WorkflowRunState
unfolding require_step
update_step state step_id update = do
  step ← require_step state step_id
  ok (record state { steps = put step_id (update step) state.steps })

unfoldable pub update_attempts :
    String
    → (WorkflowStepAttempt → WorkflowStepAttempt)
    → List WorkflowStepAttempt
    → List WorkflowStepAttempt
update_attempts attempt_id update [] = []
update_attempts attempt_id update (attempt ∷ attempts) =
    (if attempt.id == attempt_id then update attempt else attempt)
    ∷ update_attempts attempt_id update attempts

unfoldable pub update_step_attempt :
    WorkflowRunState → String → (WorkflowStepAttempt → WorkflowStepAttempt) → WorkflowRunState
unfolding update_attempts
update_step_attempt state attempt_id update = record state {
  attempts = update_attempts attempt_id update state.attempts;
}

unfoldable pub find_step_attempt : WorkflowRunState → String → Option WorkflowStepAttempt
find_step_attempt state attempt_id = find_first (λ attempt. attempt.id == attempt_id) state.attempts
