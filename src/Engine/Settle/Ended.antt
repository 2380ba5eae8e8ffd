-- ===== src/Engine/Settle/Ended.antt =====
-- src/engine/engine.ts: the record of a step that `settleStep` ends.
use pi_build_conductor.Prelude.{
  String, true, false, some, get, string_eq, ◌≡◌, refl, ◌∙◌, ap, subst, ok,
}
use pi_build_conductor.Engine.State.{
  StepRunState, WorkflowStepAttempt, WorkflowStepRecord, WorkflowRunState, is_terminal_step_state,
}
use pi_build_conductor.Engine.Retry.{StepOutcome}
use pi_build_conductor.Engine.Settle.{
  StepExecutionResult, Routed, classification, is_retrying, settle_record, settle_step,
}
use pi_build_conductor.Engine.Settle.Outcome.{reconciled-keeps, settle_step-stored}

settle_record-terminal :
    (outcome : StepOutcome) (step : WorkflowStepRecord)
    → is_terminal_step_state (settle_record outcome false step).state ≡ true
unfolding settle_record
settle_record-terminal (StepOutcome.succeeded _ _ _ _ _) step = refl
settle_record-terminal (StepOutcome.failed _ _ _) step = refl
settle_record-terminal (StepOutcome.cancelled _ _) step = refl

settle_step-settle_record :
    (s t : WorkflowRunState) (step_id : String) (step : WorkflowStepRecord)
    (attempt : WorkflowStepAttempt) (result : StepExecutionResult) (outcome : StepOutcome)
    (routed : Routed) (now : String)
    → get step_id s.steps ≡ some step
    → is_retrying (classification step.definition attempt.number result.timed_out outcome) ≡ false
    → settle_step s step_id attempt result outcome routed now ≡ ok t
    → get step_id t.steps ≡ some (settle_record outcome false step)
settle_step-settle_record s t step_id step attempt result outcome routed now g n h =
    let (r, e, next, got, steps, state) =
      settle_step-stored s t step_id step attempt result outcome routed now g h in
    let final =
      subst (λ b. get step_id next.steps ≡ some (settle_record outcome b step)) (e ∙ n) got in
    ap (λ m. get step_id m) steps
    ∙ reconciled-keeps next step_id (settle_record outcome false step) final
        (settle_record-terminal outcome step)

-- The state and the error of a step that ended with an outcome.
abbrev EndsWith : StepOutcome → WorkflowStepRecord → WorkflowStepRecord → Type 0
EndsWith (StepOutcome.succeeded _ _ _ _ _) step next =
    (next.state ≡ StepRunState.succeeded) × (next.error ≡ step.error)
EndsWith (StepOutcome.failed error worker_id declared) step next =
    (next.state ≡ StepRunState.failed) × (next.error ≡ some error)
EndsWith (StepOutcome.cancelled error worker_id) step next =
    (next.state ≡ StepRunState.cancelled) × (next.error ≡ some error)

-- `next` is the record of `step` after it ended with the outcome.
pub record IsEnded (outcome : StepOutcome) (step next : WorkflowStepRecord) : Type 0 where
  pub ends : EndsWith outcome step next
  pub same_definition : next.definition ≡ step.definition
  pub same_attempts : next.attempt_ids ≡ step.attempt_ids
  pub same_commit : next.integrated_commit ≡ step.integrated_commit
  pub same_integration_error : next.integration_error ≡ step.integration_error

settle_record-IsEnded :
    (outcome : StepOutcome) (step : WorkflowStepRecord)
    → IsEnded outcome step (settle_record outcome false step)
unfolding settle_record
settle_record-IsEnded (StepOutcome.succeeded _ _ _ _ _) step = record {
  ends = (refl, refl);
  same_definition = refl;
  same_attempts = refl;
  same_commit = refl;
  same_integration_error = refl;
}
settle_record-IsEnded (StepOutcome.failed _ _ _) step = record {
  ends = (refl, refl);
  same_definition = refl;
  same_attempts = refl;
  same_commit = refl;
  same_integration_error = refl;
}
settle_record-IsEnded (StepOutcome.cancelled _ _) step = record {
  ends = (refl, refl);
  same_definition = refl;
  same_attempts = refl;
  same_commit = refl;
  same_integration_error = refl;
}

-- If a known step settles with an outcome that is not retried, the step that the transaction
-- stores after its reconciliation has succeeded, failed or been cancelled as the outcome says,
-- with the error of a failure or cancellation, and is otherwise as it was.
pub settle_step-IsEnded :
    (s t : WorkflowRunState) (step_id : String) (step : WorkflowStepRecord)
    (attempt : WorkflowStepAttempt) (result : StepExecutionResult) (outcome : StepOutcome)
    (routed : Routed) (now : String)
    → get step_id s.steps ≡ some step
    → is_retrying (classification step.definition attempt.number result.timed_out outcome) ≡ false
    → settle_step s step_id attempt result outcome routed now ≡ ok t
    → (next : WorkflowStepRecord) × (get step_id t.steps ≡ some next) × IsEnded outcome step next
settle_step-IsEnded s t step_id step attempt result outcome routed now g n h = (
  settle_record outcome false step,
  settle_step-settle_record s t step_id step attempt result outcome routed now g n h,
  settle_record-IsEnded outcome step,
)
