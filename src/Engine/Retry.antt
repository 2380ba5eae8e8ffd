-- ===== src/Engine/Retry.antt =====
-- src/engine/retry.ts, and the step outcomes of src/engine/handlers.ts.
use pi_build_conductor.Prelude.{
  ℕ, ◌-◌, ◌<◌, String, Bool, true, false, List, Option, none, some, leb, if◌then◌else◌, ◌≡◌, ◌≢◌,
  ◌↔◌, refl, arith,
}
use pi_build_conductor.Domain.Types.{TaskValidationEvidence}
use pi_build_conductor.Domain.Artifacts.{StepArtifactDraft}
use pi_build_conductor.Engine.State.{
  StepFailureClass, retryable, terminal, FailureReason, was_cancelled, cannot_be_resolved,
  budget_exhausted, timed_out_remaining, failed_remaining,
}

pub data StepOutcome : Type 0 where
  succeeded :
      (summary worker_id commit : Option String)
      → (evidence : Option TaskValidationEvidence) → (artifacts : Option (List StepArtifactDraft))
      → StepOutcome
  failed : (error : String) (worker_id : Option String) (retryable : Option Bool) → StepOutcome
  cancelled : (error : String) (worker_id : Option String) → StepOutcome

-- `Exclude<StepOutcome, { status: "succeeded" }>`.
pub data FailedOutcome : Type 0 where
  failed : (error : String) (worker_id : Option String) (retryable : Option Bool) → FailedOutcome
  cancelled : (error : String) (worker_id : Option String) → FailedOutcome

pub record StepFailureClassification : Type 0 where
  pub failure_class : StepFailureClass
  pub reason : FailureReason

pub record ClassifyInput : Type 0 where
  pub outcome : FailedOutcome
  pub timed_out : Bool
  pub attempt_number : ℕ
  pub max_attempts : ℕ

abbrev within_budget : ClassifyInput → StepFailureClassification
within_budget input =
    if leb input.max_attempts input.attempt_number
    then record { failure_class = terminal; reason = budget_exhausted input.max_attempts }
    else record {
      failure_class = retryable;
      reason =
          if input.timed_out
          then timed_out_remaining (input.max_attempts - input.attempt_number)
          else failed_remaining (input.max_attempts - input.attempt_number);
    }

abbrev classify : FailedOutcome → ClassifyInput → StepFailureClassification
classify (FailedOutcome.cancelled error worker_id) input = record {
  failure_class = terminal;
  reason = was_cancelled;
}
classify (FailedOutcome.failed error worker_id (some false)) input = record {
  failure_class = terminal;
  reason = cannot_be_resolved;
}
classify (FailedOutcome.failed error worker_id _) input = within_budget input

unfoldable pub classify_step_failure : ClassifyInput → StepFailureClassification
classify_step_failure input = classify input.outcome input

-- What makes a failure retryable, apart from the budget.
abbrev pub MayRetry : FailedOutcome → Type 0
MayRetry (FailedOutcome.failed error worker_id declared) = declared ≢ some false
MayRetry (FailedOutcome.cancelled error worker_id) = ⊥

classify_iff :
    (outcome : FailedOutcome) (input : ClassifyInput)
    → ((classify outcome input).failure_class ≡ retryable)
      ↔ (MayRetry outcome × (input.attempt_number < input.max_attempts))
classify_iff (FailedOutcome.failed error worker_id none) input =
    (λ h. (λ e. cc, ground arith), λ h. ground arith)
classify_iff (FailedOutcome.failed error worker_id (some true)) input =
    (λ h. (λ e. cc, ground arith), λ h. ground arith)
classify_iff (FailedOutcome.failed error worker_id (some false)) input =
    (λ h. absurd (cc), λ h. absurd (h.0 refl))
classify_iff (FailedOutcome.cancelled error worker_id) input = (λ h. absurd (cc), λ h. absurd h.0)

-- A failure is retryable exactly when the step was not cancelled, its handler did not declare the
-- failure permanent, and fewer attempts were made than the budget allows.
pub classify_step_failure_iff :
    (input : ClassifyInput)
    → ((classify_step_failure input).failure_class ≡ retryable)
      ↔ (MayRetry input.outcome × (input.attempt_number < input.max_attempts))
unfolding classify_step_failure
classify_step_failure_iff input = classify_iff input.outcome input
