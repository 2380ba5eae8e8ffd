-- ===== src/Engine/Recovery/Transaction.antt =====
-- src/engine/recovery.ts: the transaction of `recoverWorkflowRun`.
use pi_build_conductor.Prelude.{
  ◌+◌, String, Bool, true, false, not, ◌&&◌, List, [], ◌∷◌, ◌++◌, none, some, or_else, is_some,
  truthy_text, Dict, get, put, values, any, ltb, if◌then◌else◌, Result, ok, ◌>>=◌,
}
use pi_build_conductor.Domain.Types.{AttemptState, is_active_attempt_state}
use pi_build_conductor.Domain.Steps.{StepDefinition, step_retry_policy}
use pi_build_conductor.Engine.State.{
  StepRunState, WorkflowRunLifecycleState, WorkflowStepAttempt, WorkflowStepRecord,
  WorkflowRunState, WorkflowEventBody, StateError, retryable, terminal, interrupted_in_budget,
  interrupted_for_good, run_interrupted, step_succeeded, step_failed, step_retry_scheduled,
  require_step, update_step, update_step_attempt,
}
use pi_build_conductor.Engine.Events.{append_workflow_events, blocked_step_events, is_blocked}
use pi_build_conductor.Engine.Scheduler.{run_is_running, reconcile_workflow_steps}
use pi_build_conductor.Engine.Settle.{keep_or, some_ids}
use pi_build_conductor.Engine.Recovery.{
  RecoverySources, InterruptedAttemptDecision, no_decision, concat, inspect_interrupted_attempt,
}

unfoldable pub adopt_attempt :
    String → InterruptedAttemptDecision → String → WorkflowStepAttempt → WorkflowStepAttempt
adopt_attempt commit decision now attempt = record attempt {
  state = AttemptState.succeeded;
  finished_at = some now;
  commit = some commit;
  evidence = keep_or attempt.evidence decision.evidence;
  artifact_ids = keep_or attempt.artifact_ids (some_ids (or_else decision.artifact_ids []));
}

-- `decision.blockedReason ?? decision.retryReason`, as the error of the attempt.
unfoldable pub interruption_reason : InterruptedAttemptDecision → String
interruption_reason decision =
    elim (truthy_text
      (elim decision.blocked_reason [ some reason ↦ some reason | none ↦ decision.retry_reason ])) [
        | some obstacle ↦ concat "The run was interrupted and " obstacle
        | none ↦ "The run was interrupted before this attempt settled"
      ]

abbrev pub may_run_again : InterruptedAttemptDecision → WorkflowStepAttempt → StepDefinition → Bool
may_run_again decision attempt step =
    not (is_some (truthy_text decision.blocked_reason))
    && ltb attempt.number (step_retry_policy step).max_attempts

abbrev pub interrupt_record : Bool → String → WorkflowStepRecord → WorkflowStepRecord
interrupt_record true reason step = record step { state = StepRunState.ready }
interrupt_record false reason step = record step {
  state = StepRunState.failed;
  error = some reason;
}

abbrev interruption_events :
    Bool → String → WorkflowStepAttempt → StepDefinition → List WorkflowEventBody
interruption_events true reason attempt step =
    step_failed attempt.step_id attempt.id reason retryable
      (interrupted_in_budget (step_retry_policy step).max_attempts)
    ∷ step_retry_scheduled attempt.step_id attempt.id (attempt.number + 1) (run_interrupted reason)
    ∷ []
interruption_events false reason attempt step =
    step_failed attempt.step_id attempt.id reason terminal interrupted_for_good ∷ []

-- One active attempt is adopted with its commit, or interrupted.
unfoldable pub recover_attempt :
    WorkflowRunState
    → WorkflowStepAttempt
    → InterruptedAttemptDecision
    → String
    → Result StateError (WorkflowRunState × List WorkflowEventBody)
unfolding adopt_attempt interruption_reason
recover_attempt next attempt decision now = do
  step ← require_step next attempt.step_id
  elim (truthy_text decision.commit) [
    | some commit ↦
        update_step (update_step_attempt next attempt.id (adopt_attempt commit decision now))
          attempt.step_id (λ step. record step { state = StepRunState.succeeded })
        >>= λ adopted. ok (
          adopted,
          step_succeeded attempt.step_id attempt.id
                (some (concat "Adopted commit " (concat commit " created before the interruption")))
              ∷ [],
        )
    | none ↦
        let reason = interruption_reason decision in
        let again = may_run_again decision attempt step.definition in
        update_step
          (update_step_attempt next attempt.id (λ attempt. record attempt {
            state = AttemptState.interrupted;
            finished_at = some now;
            error = some reason;
          }))
          attempt.step_id (interrupt_record again reason)
        >>= λ interrupted.
            ok (interrupted, interruption_events again reason attempt step.definition)
  ]

-- The loop over the attempts of the state that the transaction started from.
unfoldable pub recover_attempts :
    WorkflowRunState
    → List WorkflowStepAttempt
    → Dict InterruptedAttemptDecision
    → String
    → Result StateError (WorkflowRunState × List WorkflowEventBody)
unfolding recover_attempt
recover_attempts next [] decisions now = ok (next, [])
recover_attempts next (attempt ∷ attempts) decisions now =
    elim (is_active_attempt_state attempt.state) [
      | false ↦ recover_attempts next attempts decisions now
      | true ↦
          recover_attempt next attempt (or_else (get attempt.id decisions) no_decision) now
          >>= λ (recovered, events).
              recover_attempts recovered attempts decisions now >>= λ (last, later).
              ok (last, events ++ later)
    ]

-- A blocked step waits again; reconciliation blocks what is still unreachable.
unfoldable pub unblock : Dict WorkflowStepRecord → Dict WorkflowStepRecord
unblock [] = []
unblock ((step_id, step) ∷ steps) =
    (step_id, if is_blocked step.state then record step { state = StepRunState.planned } else step)
    ∷ unblock steps

abbrev is_failed : StepRunState → Bool
is_failed StepRunState.failed = true
is_failed _ = false

unfoldable pub finish_recovery :
    WorkflowRunState → WorkflowRunState → List WorkflowEventBody → String → WorkflowRunState
unfolding unblock
finish_recovery current next [] now = current
finish_recovery current next (event ∷ events) now =
    let waiting = record next { steps = unblock next.steps } in
    let reconciled = reconcile_workflow_steps waiting in
    let failed = any (λ step. is_failed step.state) (values reconciled.steps) in
    append_workflow_events
      (record reconciled {
        state =
            if run_is_running current.state && failed
            then WorkflowRunLifecycleState.failed
            else current.state;
        updated_at = now;
      })
      ((event ∷ events) ++ blocked_step_events waiting reconciled) now

unfoldable pub recover_transaction :
    WorkflowRunState → Dict InterruptedAttemptDecision → String → Result StateError WorkflowRunState
unfolding recover_attempts finish_recovery
recover_transaction current decisions now = do
  (next, events) ← recover_attempts current current.attempts decisions now
  ok (finish_recovery current next events now)

-- The decisions, made from the loaded state before the transaction.
unfoldable pub inspect_attempts :
    RecoverySources
    → WorkflowRunState
    → List WorkflowStepAttempt
    → Dict InterruptedAttemptDecision
    → Result StateError (Dict InterruptedAttemptDecision)
unfolding inspect_interrupted_attempt
inspect_attempts sources state [] decisions = ok decisions
inspect_attempts sources state (attempt ∷ attempts) decisions =
    elim (is_active_attempt_state attempt.state) [
      | false ↦ inspect_attempts sources state attempts decisions
      | true ↦ inspect_interrupted_attempt sources state attempt >>= λ decision.
          inspect_attempts sources state attempts (put attempt.id decision decisions)
    ]

-- `recoverWorkflowRun`, with no transaction between its load and its own.
unfoldable pub recover_workflow_run :
    RecoverySources → WorkflowRunState → String → Result StateError WorkflowRunState
unfolding inspect_attempts recover_transaction
recover_workflow_run sources state now = do
  decisions ← inspect_attempts sources state state.attempts []
  recover_transaction state decisions now
