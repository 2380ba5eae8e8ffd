-- ===== src/Engine/Integrate.antt =====
-- src/engine/engine.ts: `integratePendingSteps`, one round of its loop in two transactions.
use Prim.Native.String
use pi_build_conductor.Prelude.{
  String, Bool, true, false, not, ◌&&◌, ◌∷◌, Option, none, some, truthy_text, find_last,
  if◌then◌else◌, ◌==◌, string_eq, Result, ok, err, ◌>>=◌,
}
use pi_build_conductor.Domain.Types.{AttemptState}
use pi_build_conductor.Engine.State.{
  StepRunState, WorkflowRunLifecycleState, WorkflowStepAttempt, WorkflowRunState, StateError,
  terminal, could_not_integrate, step_failed, step_integrated, update_step,
}
use pi_build_conductor.Engine.Events.{
  append_workflow_event, append_workflow_events, blocked_step_events,
}
use pi_build_conductor.Engine.Scheduler.{
  run_is_running, reconcile_workflow_steps, next_integrable_step_id,
}
use pi_build_conductor.Engine.Launch.{fail_step}

abbrev attempt_succeeded : AttemptState → Bool
attempt_succeeded AttemptState.succeeded = true
attempt_succeeded _ = false

-- What one round decides from the loaded state.
pub data IntegrationDecision : Type 0 where
  stop : IntegrationDecision
  no_attempt : (step_id : String) → IntegrationDecision
  integrate : (step_id : String) → WorkflowStepAttempt → IntegrationDecision

unfoldable pub integration_decision : WorkflowRunState → IntegrationDecision
integration_decision state =
    if not (run_is_running state.state) then stop else elim (next_integrable_step_id state) [
      | none ↦ stop
      | some step_id ↦
          elim (find_last
            (λ candidate. candidate.step_id == step_id && attempt_succeeded candidate.state)
            state.attempts) [ none ↦ no_attempt step_id | some attempt ↦ integrate step_id attempt ]
    ]

-- The transaction after a commit reached the integration branch. A step without a commit is
-- integrated at the head as it is.
unfoldable pub record_integration :
    WorkflowRunState → String → Option String → String → String → Result StateError WorkflowRunState
record_integration current step_id commit integrated_commit now = do
  next ←
      update_step current step_id
        (λ step. record step { integrated_commit = some integrated_commit })
  ok (
      append_workflow_event
        (reconcile_workflow_steps
          (record next { integration_head = integrated_commit; updated_at = now }))
        (step_integrated step_id (truthy_text commit) integrated_commit) now)

-- The transaction after the integration threw.
unfoldable pub record_integration_failure :
    WorkflowRunState → String → String → String → String → Result StateError WorkflowRunState
record_integration_failure current step_id attempt_id message now = do
  failed ←
      update_step current step_id
        (λ step. record step { state = StepRunState.failed; integration_error = some message })
  let reconciled = reconcile_workflow_steps failed
  ok (
      append_workflow_events
        (record reconciled { state = WorkflowRunLifecycleState.failed; updated_at = now })
        (step_failed step_id attempt_id message terminal could_not_integrate
          ∷ blocked_step_events failed reconciled)
        now)

-- The integrator, which is not modelled: it moves one commit onto the branch whose head is given.
abbrev pub Integrator : Type 0
Integrator = (expected_head step_id commit : String) → Result String String

abbrev concat : String → String → String
concat left right = String.◌++◌ left right

unfoldable pub integrated_commit :
    Integrator → WorkflowRunState → String → WorkflowStepAttempt → Result String String
integrated_commit integrator state step_id attempt = elim (truthy_text attempt.commit) [
  | none ↦ ok state.integration_head
  | some commit ↦ integrator state.integration_head step_id commit
]

abbrev pub apply_integration :
    WorkflowRunState
    → String
    → WorkflowStepAttempt
    → Result String String
    → String
    → Result StateError WorkflowRunState
apply_integration state step_id attempt (ok commit) now =
    record_integration state step_id attempt.commit commit now
apply_integration state step_id attempt (err error) now =
    record_integration_failure state step_id attempt.id
      (concat (concat "Failed to integrate step " step_id) (concat ": " error)) now

-- One round, when no other transaction comes between its load and its own: the next state, and
-- whether the loop goes on.
unfoldable pub integration_round :
    Integrator → WorkflowRunState → String → Result StateError (WorkflowRunState × Bool)
unfolding integration_decision integrated_commit record_integration record_integration_failure
integration_round integrator state now = elim (integration_decision state) [
  | stop ↦ ok (state, false)
  | no_attempt step_id ↦
      fail_step state step_id
        (concat (concat "Step " step_id) " succeeded without a recorded attempt") now
      >>= λ failed. ok (failed, false)
  | integrate step_id attempt ↦
      apply_integration state step_id attempt (integrated_commit integrator state step_id attempt)
        now
      >>= λ next. ok (next, run_is_running next.state)
]
