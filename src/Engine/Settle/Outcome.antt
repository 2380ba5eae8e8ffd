-- ===== src/Engine/Settle/Outcome.antt =====
-- src/engine/engine.ts: what `settleStep` makes of an outcome.
use pi_build_conductor.Prelude.{
  some-injective, ℕ, ◌<◌, String, Bool, true, false, List, [], ◌∷◌, some, Dict, get, put, get-put,
  beq_refl, ◌==◌, string_eq, ◌≡◌, ◌≢◌, ◌↔◌, refl, sym, ◌∙◌, ap, subst, inl, inr, Bool-cases,
  if◌then◌else◌, ok, bound, ok-injective,
}
use pi_build_conductor.Domain.Types.{RunCapabilityProfiles}
use pi_build_conductor.Domain.Steps.{StepDefinition, step_retry_policy}
use pi_build_conductor.Engine.State.{
  WorkflowRunLifecycleState, WorkflowStepAttempt, WorkflowStepRecord, WorkflowRunState,
  StepFailureClass, retryable, terminal, is_terminal_step_state, require_step, update_step,
  update_step_attempt,
}
use pi_build_conductor.Engine.Scheduler.{
  next_step_state, reconcile_one, reconcile_ids, reconcile_workflow_steps, topological_step_ids,
  is_running,
}
use pi_build_conductor.Engine.Scheduler.Reconcile.{get-reconcile_one}
use pi_build_conductor.Engine.Retry.{
  StepOutcome, FailedOutcome, classify_step_failure, classify_step_failure_iff, ClassifyInput,
}
use pi_build_conductor.Engine.Settle.{
  StepExecutionResult, Routed, classification, is_retrying, settle_attempt, settle_record,
  settled_run_state, settle_step,
}
use pi_build_conductor.Engine.Events.Kept.{append-same_state, append-same_steps}
use pi_build_conductor.Engine.State.Updates.{require_step-eq-ok, update_step-eq-ok}

next_step_state-keeps :
    (profiles : RunCapabilityProfiles) (step : WorkflowStepRecord) (steps : Dict WorkflowStepRecord)
    → is_terminal_step_state step.state ≡ true
    → next_step_state profiles step steps ≡ step.state
unfolding next_step_state
next_step_state-keeps profiles step steps h = elim (Bool-cases (is_running step.state)) [
  | inl q ↦ rw q refl
  | inr q ↦ rw (q, h) refl
]

reconcile_one-keeps :
    (profiles : RunCapabilityProfiles) (id j : String) (step : WorkflowStepRecord)
    (steps : Dict WorkflowStepRecord)
    → get id steps ≡ some step
    → is_terminal_step_state step.state ≡ true
    → get id (reconcile_one profiles j steps) ≡ some step
reconcile_one-keeps profiles id j step steps g h =
    get-reconcile_one profiles j id steps ∙ (elim (Bool-cases (j == id)) [
      | inl q ↦ rw (q, g, next_step_state-keeps profiles step steps h) refl
      | inr q ↦ rw (q, g) refl
    ])

reconcile_ids-keeps :
    (profiles : RunCapabilityProfiles) (id : String) (step : WorkflowStepRecord) (ids : List String)
    (steps : Dict WorkflowStepRecord)
    → get id steps ≡ some step
    → is_terminal_step_state step.state ≡ true
    → get id (reconcile_ids profiles ids steps) ≡ some step
unfolding reconcile_ids
reconcile_ids-keeps profiles id step [] steps g h = g
reconcile_ids-keeps profiles id step (j ∷ ids) steps g h =
    reconcile_ids-keeps profiles id step ids (reconcile_one profiles j steps)
      (reconcile_one-keeps profiles id j step steps g h) h

-- Reconciling never touches a step in a terminal state.
pub reconciled-keeps :
    (s : WorkflowRunState) (id : String) (step : WorkflowStepRecord)
    → get id s.steps ≡ some step
    → is_terminal_step_state step.state ≡ true
    → get id (reconcile_workflow_steps s).steps ≡ some step
unfolding reconcile_workflow_steps
reconciled-keeps s id step g h =
    reconcile_ids-keeps s.capability_profiles id step (topological_step_ids s.plan) s.steps g h

-- A successful step goes on; a failed one only if it may be retried within the budget of the step.
abbrev pub GoesOn : StepDefinition → ℕ → StepOutcome → Type 0
GoesOn step number (StepOutcome.succeeded _ _ _ _ _) = Unit
GoesOn step number (StepOutcome.failed error worker_id declared) =
    (declared ≢ some false) × (number < (step_retry_policy step).max_attempts)
GoesOn step number (StepOutcome.cancelled error worker_id) = ⊥

get-put_same :
    (k : String) (v : WorkflowStepRecord) (m : Dict WorkflowStepRecord) → get k (put k v m) ≡ some v
get-put_same k v m = get-put k k v m ∙ rw (beq_refl k) refl

-- What a transaction that settles a step stores of the step and of the run's state.
pub settle_step-stored :
    (s t : WorkflowRunState) (step_id : String) (step : WorkflowStepRecord)
    (attempt : WorkflowStepAttempt) (result : StepExecutionResult) (outcome : StepOutcome)
    (routed : Routed) (now : String)
    → get step_id s.steps ≡ some step
    → settle_step s step_id attempt result outcome routed now ≡ ok t
    → (r : Bool) × (r
        ≡ is_retrying (classification step.definition attempt.number result.timed_out outcome))
      × (next : WorkflowRunState) × (get step_id next.steps ≡ some (settle_record outcome r step))
      × (t.steps ≡ (reconcile_workflow_steps next).steps)
      × (t.state ≡ settled_run_state s.state outcome r)
unfolding settle_step update_step_attempt reconcile_workflow_steps
settle_step-stored s t step_id step attempt result outcome routed now g h =
    let (found, required, e) = bound {m = require_step s step_id} h in
    let same : found ≡ step =
      some-injective (sym (require_step-eq-ok s step_id found required) ∙ g) in
    let r = is_retrying (classification found.definition attempt.number result.timed_out outcome) in
    let before =
      update_step_attempt s attempt.id (settle_attempt result outcome routed.artifact_ids) in
    let (next, updated, k) = bound {m = update_step before step_id (settle_record outcome r)} e in
    let (old, there, q) = update_step-eq-ok before next step_id (settle_record outcome r) updated in
    let again : old ≡ step = some-injective (sym there ∙ g) in
    (
      r,
      ap (λ x. is_retrying (classification x.definition attempt.number result.timed_out outcome))
          same,
      next,
      ap (λ x. get step_id x.steps) q
          ∙ get-put_same step_id (settle_record outcome r old) s.steps
          ∙ ap (λ x. some (settle_record outcome r x)) again,
      ap (λ x. x.steps) (sym (ok-injective k)) ∙ append-same_steps _ _ now,
      ap (λ x. x.state) (sym (ok-injective k))
          ∙ append-same_state _ _ now
          ∙ ap (λ x. settled_run_state x.state outcome r) q,
    )

by_class :
    {P : Type 0} (k : StepFailureClass)
    → ((k ≡ retryable) ↔ P)
    → ((if elim k [ retryable ↦ true | terminal ↦ false ]
          then WorkflowRunLifecycleState.running
          else WorkflowRunLifecycleState.failed)
        ≡ WorkflowRunLifecycleState.running)
      ↔ P
by_class retryable h = (λ q. h.0 refl, λ p. refl)
by_class terminal h = (λ q. absurd (cc), λ p. absurd (let bad = h.1 p in cc))

stays_running :
    (step : StepDefinition) (number : ℕ) (timed_out : Bool) (outcome : StepOutcome)
    → (settled_run_state WorkflowRunLifecycleState.running outcome
          (is_retrying (classification step number timed_out outcome))
        ≡ WorkflowRunLifecycleState.running)
      ↔ GoesOn step number outcome
unfolding settled_run_state
stays_running step number timed_out (StepOutcome.succeeded _ _ _ _ _) = (λ h. tt, λ h. refl)
stays_running step number timed_out (StepOutcome.cancelled _ _) = (λ h. absurd (cc), λ h. absurd h)
stays_running step number timed_out (StepOutcome.failed error worker_id declared) =
    let input : ClassifyInput = record {
      outcome = FailedOutcome.failed error worker_id declared;
      timed_out = timed_out;
      attempt_number = number;
      max_attempts = (step_retry_policy step).max_attempts;
    } in
    by_class (classify_step_failure input).failure_class (classify_step_failure_iff input)

-- If a known step of a running run settles, the run is running afterwards exactly if the step
-- succeeded, or failed without its handler calling the failure permanent and with attempts left
-- in its budget.
pub settle_step-running_iff :
    (s t : WorkflowRunState) (step_id : String) (step : WorkflowStepRecord)
    (attempt : WorkflowStepAttempt) (result : StepExecutionResult) (outcome : StepOutcome)
    (routed : Routed) (now : String)
    → get step_id s.steps ≡ some step
    → s.state ≡ WorkflowRunLifecycleState.running
    → settle_step s step_id attempt result outcome routed now ≡ ok t
    → (t.state ≡ WorkflowRunLifecycleState.running) ↔ GoesOn step.definition attempt.number outcome
settle_step-running_iff s t step_id step attempt result outcome routed now g live h =
    let (r, e, next, got, steps, state) =
      settle_step-stored s t step_id step attempt result outcome routed now g h in
    subst
      (λ l. (l ≡ WorkflowRunLifecycleState.running) ↔ GoesOn step.definition attempt.number outcome)
      (sym (
        state
        ∙ ap (λ x. settled_run_state x outcome r) live
        ∙ ap (λ x. settled_run_state WorkflowRunLifecycleState.running outcome x) e))
      (stays_running step.definition attempt.number result.timed_out outcome)
