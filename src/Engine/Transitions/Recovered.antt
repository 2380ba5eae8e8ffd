-- ===== src/Engine/Transitions/Recovered.antt =====
-- The recovery transaction of src/engine/recovery.ts, and what it keeps of a run.
use pi_build_conductor.Prelude.{
  bound, String, Bool, true, false, List, [], ◌∷◌, some, Dict, ◌≡◌, refl, subst, ap, inl, inr,
  Bool-cases, or_else, get, string_eq, ok, ok-injective, truthy_text, Option-cases,
}
use pi_build_conductor.Domain.Types.{AttemptState, is_active_attempt_state}
use pi_build_conductor.Engine.State.{
  StepRunState, WorkflowStepAttempt, WorkflowStepRecord, WorkflowRunState, WorkflowEventBody,
  update_step, update_step_attempt, require_step,
}
use pi_build_conductor.Engine.Events.{is_blocked}
use pi_build_conductor.Engine.Recovery.{InterruptedAttemptDecision, no_decision}
use pi_build_conductor.Engine.Recovery.Transaction.{
  interruption_reason, may_run_again, interrupt_record, adopt_attempt, recover_attempt,
  recover_attempts, unblock, finish_recovery, recover_transaction,
}
use pi_build_conductor.Engine.Transitions.Follows.{
  identity, definitions, Follows, Follows-refl, Follows-trans, touched-Follows, steps-Follows,
  update_step-Follows, update_step_attempt-Follows, reconciled-Follows, appended-Follows,
}

interrupt_record-definition :
    (again : Bool) (reason : String) (step : WorkflowStepRecord)
    → (interrupt_record again reason step).definition ≡ step.definition
interrupt_record-definition true reason step = refl
interrupt_record-definition false reason step = refl

adopt_attempt-identity :
    (commit : String) (decision : InterruptedAttemptDecision) (now : String)
    (attempt : WorkflowStepAttempt)
    → identity (adopt_attempt commit decision now attempt) ≡ identity attempt
unfolding adopt_attempt
adopt_attempt-identity commit decision now attempt = refl

recover_attempt-Follows :
    (s t : WorkflowRunState) (attempt : WorkflowStepAttempt) (decision : InterruptedAttemptDecision)
    (now : String) (events : List WorkflowEventBody)
    → recover_attempt s attempt decision now ≡ ok (t, events)
    → Follows s t
unfolding recover_attempt
recover_attempt-Follows s t attempt decision now events h =
    let (step, _, e) = bound {m = require_step s attempt.step_id} h in
    elim (Option-cases (truthy_text decision.commit)) [
      | inl q ↦
          let reason = interruption_reason decision in
          let again = may_run_again decision attempt step.definition in
          let interrupt : WorkflowStepAttempt → WorkflowStepAttempt = λ attempt. record attempt {
            state = AttemptState.interrupted;
            finished_at = some now;
            error = some reason;
          } in
          let (next, updated, k) =
            bound
              {m = update_step (update_step_attempt s attempt.id interrupt) attempt.step_id
                (interrupt_record again reason)}
              (rw q at e) in
          subst (Follows s) (ap (λ r. r.0) (ok-injective k)) (
            update_step-Follows attempt.step_id (interrupt_record again reason)
              (interrupt_record-definition again reason) updated
              (update_step_attempt-Follows attempt.id interrupt (λ attempt. refl) (Follows-refl s)))
      | inr (commit, q) ↦
          let succeed : WorkflowStepRecord → WorkflowStepRecord =
            λ step. record step { state = StepRunState.succeeded } in
          let (next, updated, k) =
            bound
              {m = update_step
                (update_step_attempt s attempt.id (adopt_attempt commit decision now))
                attempt.step_id succeed}
              (rw q at e) in
          subst (Follows s) (ap (λ r. r.0) (ok-injective k)) (
            update_step-Follows attempt.step_id succeed (λ step. refl) updated
              (update_step_attempt-Follows attempt.id (adopt_attempt commit decision now)
                (adopt_attempt-identity commit decision now) (Follows-refl s)))
    ]

recover_attempts-Follows :
    (s t : WorkflowRunState) (attempts : List WorkflowStepAttempt)
    (decisions : Dict InterruptedAttemptDecision) (now : String) (events : List WorkflowEventBody)
    → recover_attempts s attempts decisions now ≡ ok (t, events)
    → Follows s t
unfolding recover_attempts
recover_attempts-Follows s t [] decisions now events h =
    subst (Follows s) (ap (λ r. r.0) (ok-injective h)) (Follows-refl s)
recover_attempts-Follows s t (attempt ∷ attempts) decisions now events h =
    elim (Bool-cases (is_active_attempt_state attempt.state)) [
      | inr q ↦
          recover_attempts-Follows s t attempts decisions now events (rw (q, recover_attempts) at h)
      | inl q ↦
          let decision = or_else (get attempt.id decisions) no_decision in
          let ((one, first), done, e) =
            bound {m = recover_attempt s attempt decision now} (rw (q, recover_attempts) at h) in
          let ((last, later), rest, k) =
            bound {m = recover_attempts one attempts decisions now} e in
          subst (Follows s) (ap (λ r. r.0) (ok-injective k)) (
            Follows-trans (recover_attempt-Follows s one attempt decision now first done)
              (recover_attempts-Follows one last attempts decisions now later rest))
    ]

definitions-unblock :
    (steps : Dict WorkflowStepRecord) → definitions (unblock steps) ≡ definitions steps
unfolding unblock
definitions-unblock [] = refl
definitions-unblock ((step_id, step) ∷ steps) = elim (Bool-cases (is_blocked step.state)) [
  | inl q ↦ rw (q, definitions-unblock steps) refl
  | inr q ↦ rw (q, definitions-unblock steps) refl
]

finish_recovery-Follows :
    (s next : WorkflowRunState) (events : List WorkflowEventBody) (now : String)
    → Follows s next
    → Follows s (finish_recovery s next events now)
unfolding finish_recovery
finish_recovery-Follows s next [] now f = Follows-refl s
finish_recovery-Follows s next (event ∷ events) now f = appended-Follows _ now (
    touched-Follows _ _ _ now
      (reconciled-Follows (steps-Follows (unblock next.steps) (definitions-unblock next.steps) f)))

pub recover_transaction-Follows :
    (s t : WorkflowRunState) (decisions : Dict InterruptedAttemptDecision) (now : String)
    → recover_transaction s decisions now ≡ ok t
    → Follows s t
unfolding recover_transaction
recover_transaction-Follows s t decisions now h =
    let ((next, events), done, e) = bound {m = recover_attempts s s.attempts decisions now} h in
    subst (Follows s) (ok-injective e) (
      finish_recovery-Follows s next events now
        (recover_attempts-Follows s next s.attempts decisions now events done))
