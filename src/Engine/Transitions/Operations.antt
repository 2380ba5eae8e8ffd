-- ===== src/Engine/Transitions/Operations.antt =====
-- The transactions of src/engine/engine.ts, and what each keeps of a run.
use pi_build_conductor.Prelude.{
  bound, String, Bool, true, false, List, [], ◌∷◌, ◌++◌, Option, some, Dict, ◌≡◌, refl, subst, ap,
  inl, inr, Bool-cases, includes, string_eq, ok, ok-injective, if◌then◌else◌,
}
use pi_build_conductor.Domain.Types.{AttemptState}
use pi_build_conductor.Engine.State.{
  StepRunState, WorkflowStepAttempt, WorkflowStepRecord, WorkflowRunState, update_step,
  update_step_attempt, require_step,
}
use pi_build_conductor.Engine.Scheduler.{launchable_step_ids, reconcile_workflow_steps}
use pi_build_conductor.Engine.Retry.{StepOutcome}
use pi_build_conductor.Engine.Launch.{
  reserve_step, mark_running, fail_step, start_record, fail_record,
}
use pi_build_conductor.Engine.Settle.{
  StepExecutionResult, Routed, settle_step, settle_attempt, settle_record, classification,
  is_retrying,
}
use pi_build_conductor.Engine.Integrate.{record_integration, record_integration_failure}
use pi_build_conductor.Engine.Lifecycle.{
  request_cancellation, settle_run, cancel_unfinished, survives_cancellation, may_cancel,
}
use pi_build_conductor.Engine.State.Updates.{update_step-eq-ok}
use pi_build_conductor.Engine.Transitions.Follows.{
  identity, definitions, history, Follows, Follows-refl, touched-Follows, steps-Follows,
  attempts-Follows, update_step-Follows, update_step_attempt-Follows, reconciled-Follows,
  appended-Follows,
}

history-append : (xs ys : List WorkflowStepAttempt) → history (xs ++ ys) ≡ history xs ++ history ys
history-append [] ys = refl
history-append (x ∷ xs) ys = rw (history-append xs ys) refl

pub reserve_step-Follows :
    (s t : WorkflowRunState) (attempt : WorkflowStepAttempt) (now : String) (stored : Bool)
    → reserve_step s attempt now ≡ ok (t, stored)
    → Follows s t
unfolding reserve_step
reserve_step-Follows s t attempt now stored h =
    let (ids, listed, e) = bound {m = launchable_step_ids s} h in
    elim (Bool-cases (includes attempt.step_id ids)) [
      | inl q ↦
          let (next, updated, k) =
            bound {m = update_step s attempt.step_id (start_record attempt.id)} (rw q at e) in
          let (_, _, same) =
            update_step-eq-ok s next attempt.step_id (start_record attempt.id) updated in
          let kept : next.attempts ≡ s.attempts = ap (λ r. r.attempts) same in
          subst (Follows s) (ap (λ r. r.0) (ok-injective k)) (
            appended-Follows _ now (
              touched-Follows next.state next.error next.integration_head now (
                attempts-Follows (s.attempts ++ attempt ∷ []) (identity attempt ∷ [])
                  (rw (history-append s.attempts (attempt ∷ []), kept) refl)
                  (update_step-Follows attempt.step_id (start_record attempt.id) (λ step. refl)
                    updated (Follows-refl s)))))
      | inr q ↦ subst (Follows s) (ap (λ r. r.0) (ok-injective (rw q at e))) (Follows-refl s)
    ]

pub mark_running-Follows :
    (s : WorkflowRunState) (attempt_id now : String) → Follows s (mark_running s attempt_id now)
unfolding mark_running update_step_attempt
mark_running-Follows s attempt_id now = touched-Follows s.state s.error s.integration_head now (
    update_step_attempt-Follows attempt_id
      (λ attempt. record attempt { state = AttemptState.running }) (λ attempt. refl)
      (Follows-refl s))

pub fail_step-Follows :
    (s t : WorkflowRunState) (step_id message now : String)
    → fail_step s step_id message now ≡ ok t
    → Follows s t
unfolding fail_step
fail_step-Follows s t step_id message now h =
    let (failed, updated, e) = bound {m = update_step s step_id (fail_record message)} h in
    subst (Follows s) (ok-injective e) (
      appended-Follows _ now (
        touched-Follows _ _ _ now (
          reconciled-Follows (
            update_step-Follows step_id (fail_record message) (λ step. refl) updated
              (Follows-refl s)))))

settle_attempt-identity :
    (result : StepExecutionResult) (outcome : StepOutcome) (ids : List String)
    (attempt : WorkflowStepAttempt)
    → identity (settle_attempt result outcome ids attempt) ≡ identity attempt
unfolding settle_attempt
settle_attempt-identity result (StepOutcome.succeeded _ _ _ _ _) ids attempt = refl
settle_attempt-identity result (StepOutcome.failed _ _ _) ids attempt = refl
settle_attempt-identity result (StepOutcome.cancelled _ _) ids attempt = refl

settle_record-definition :
    (outcome : StepOutcome) (retrying : Bool) (step : WorkflowStepRecord)
    → (settle_record outcome retrying step).definition ≡ step.definition
unfolding settle_record
settle_record-definition (StepOutcome.succeeded _ _ _ _ _) retrying step = refl
settle_record-definition (StepOutcome.failed _ _ _) true step = refl
settle_record-definition (StepOutcome.failed _ _ _) false step = refl
settle_record-definition (StepOutcome.cancelled _ _) true step = refl
settle_record-definition (StepOutcome.cancelled _ _) false step = refl

pub settle_step-Follows :
    (s t : WorkflowRunState) (step_id : String) (attempt : WorkflowStepAttempt)
    (result : StepExecutionResult) (outcome : StepOutcome) (routed : Routed) (now : String)
    → settle_step s step_id attempt result outcome routed now ≡ ok t
    → Follows s t
unfolding settle_step
settle_step-Follows s t step_id attempt result outcome routed now h =
    let (step, _, e) = bound {m = require_step s step_id} h in
    let c = classification step.definition attempt.number result.timed_out outcome in
    let (next, updated, k) =
      bound
        {m = update_step
          (update_step_attempt s attempt.id (settle_attempt result outcome routed.artifact_ids))
          step_id (settle_record outcome (is_retrying c))}
        e in
    subst (Follows s) (ok-injective k) (
      appended-Follows _ now (
        touched-Follows _ _ _ now (
          reconciled-Follows (
            update_step-Follows step_id (settle_record outcome (is_retrying c))
              (settle_record-definition outcome (is_retrying c)) updated
              (update_step_attempt-Follows attempt.id
                (settle_attempt result outcome routed.artifact_ids)
                (settle_attempt-identity result outcome routed.artifact_ids) (Follows-refl s))))))

pub record_integration-Follows :
    (s t : WorkflowRunState) (step_id : String) (commit : Option String) (head now : String)
    → record_integration s step_id commit head now ≡ ok t
    → Follows s t
unfolding record_integration
record_integration-Follows s t step_id commit head now h =
    let update : WorkflowStepRecord → WorkflowStepRecord =
      λ step. record step { integrated_commit = some head } in
    let (next, updated, e) = bound {m = update_step s step_id update} h in
    subst (Follows s) (ok-injective e) (
      appended-Follows _ now (
        reconciled-Follows (
          touched-Follows _ _ head now
            (update_step-Follows step_id update (λ step. refl) updated (Follows-refl s)))))

pub record_integration_failure-Follows :
    (s t : WorkflowRunState) (step_id attempt_id message now : String)
    → record_integration_failure s step_id attempt_id message now ≡ ok t
    → Follows s t
unfolding record_integration_failure
record_integration_failure-Follows s t step_id attempt_id message now h =
    let update : WorkflowStepRecord → WorkflowStepRecord =
      λ step. record step { state = StepRunState.failed; integration_error = some message } in
    let (failed, updated, e) = bound {m = update_step s step_id update} h in
    subst (Follows s) (ok-injective e) (
      appended-Follows _ now (
        touched-Follows _ _ _ now (
          reconciled-Follows
            (update_step-Follows step_id update (λ step. refl) updated (Follows-refl s)))))

definitions-cancel_unfinished :
    (steps : Dict WorkflowStepRecord) → definitions (cancel_unfinished steps) ≡ definitions steps
unfolding cancel_unfinished
definitions-cancel_unfinished [] = refl
definitions-cancel_unfinished ((step_id, step) ∷ steps) =
    elim (Bool-cases (survives_cancellation step.state)) [
      | inl q ↦ rw (q, definitions-cancel_unfinished steps) refl
      | inr q ↦ rw (q, definitions-cancel_unfinished steps) refl
    ]

cancelled_or_kept :
    (cancelling : Bool) (steps : Dict WorkflowStepRecord)
    → definitions (if cancelling then cancel_unfinished steps else steps) ≡ definitions steps
cancelled_or_kept true steps = definitions-cancel_unfinished steps
cancelled_or_kept false steps = refl

pub settle_run-Follows :
    (s : WorkflowRunState) (cancelled : Bool) (now : String)
    → Follows s (settle_run s cancelled now)
unfolding settle_run
settle_run-Follows s cancelled now = appended-Follows _ now (
    touched-Follows _ _ _ now (
      steps-Follows _
        (cancelled_or_kept (may_cancel cancelled (reconcile_workflow_steps s).state)
          (reconcile_workflow_steps s).steps)
        (reconciled-Follows (Follows-refl s))))

pub request_cancellation-Follows :
    (s : WorkflowRunState) (reason now : String) → Follows s (request_cancellation s reason now)
unfolding request_cancellation
request_cancellation-Follows s reason now = appended-Follows _ now (Follows-refl s)
