-- ===== src/Engine/Recovery/Returns.antt =====
-- src/engine/recovery.ts: when the recovery transaction returns a run.
use pi_build_conductor.Prelude.{
  String, Bool, true, not, ◌||◌, List, [], ◌∷◌, ◌++◌, some, or_else, Dict, get, put, get-put,
  is_some, All, All-map, ◌==◌, string_eq, ◌≡◌, refl, inl, inr, Bool-cases, Option-cases,
  truthy_text, ok, Result, ◌>>=◌,
}
use pi_build_conductor.Domain.Types.{AttemptState, is_active_attempt_state}
use pi_build_conductor.Engine.State.{
  StepRunState, StateError, WorkflowStepAttempt, WorkflowStepRecord, WorkflowRunState,
  WorkflowEventBody, require_step, update_step, update_step_attempt,
}
use pi_build_conductor.Engine.Recovery.{InterruptedAttemptDecision, no_decision}
use pi_build_conductor.Engine.Recovery.Transaction.{
  adopt_attempt, interruption_reason, may_run_again, interrupt_record, recover_attempt,
  recover_attempts, finish_recovery, recover_transaction,
}

abbrev is_known : WorkflowRunState → String → Bool
is_known s step_id = is_some (get step_id s.steps)

-- The step of an active attempt is stored.
abbrev pub has_step : WorkflowRunState → WorkflowStepAttempt → Bool
has_step s attempt = not (is_active_attempt_state attempt.state) || is_known s attempt.step_id

-- The steps of `s` are also steps of `t`.
abbrev KeepsSteps : WorkflowRunState → WorkflowRunState → Type 0
KeepsSteps s t = (step_id : String) → is_known s step_id ≡ true → is_known t step_id ≡ true

abbrev Recovers :
    WorkflowRunState → Result StateError (WorkflowRunState × List WorkflowEventBody) → Type 0
Recovers s result =
    (t : WorkflowRunState) × (events : List WorkflowEventBody) × (result ≡ ok (t, events))
    × KeepsSteps s t

require_step-known :
    (s : WorkflowRunState) (step_id : String)
    → is_known s step_id ≡ true
    → (step : WorkflowStepRecord) × (require_step s step_id ≡ ok step)
unfolding require_step
require_step-known s step_id h = elim (Option-cases (get step_id s.steps)) [
  | inl q ↦ absurd (cc (h, q))
  | inr (step, q) ↦ (step, rw (q, require_step) refl)
]

put-known :
    (steps : Dict WorkflowStepRecord) (k j : String) (step : WorkflowStepRecord)
    → is_some (get j steps) ≡ true
    → is_some (get j (put k step steps)) ≡ true
put-known steps k j step h =
    rw (get-put k j step steps) (elim (Bool-cases (k == j)) [ inl q ↦ rw q refl | inr q ↦ rw q h ])

update_step-known :
    (s : WorkflowRunState) (step_id : String) (update : WorkflowStepRecord → WorkflowStepRecord)
    → is_known s step_id ≡ true
    → (t : WorkflowRunState) × (update_step s step_id update ≡ ok t) × KeepsSteps s t
unfolding update_step
update_step-known s step_id update h =
    let (step, q) = require_step-known s step_id h in
    (
      record s { steps = put step_id (update step) s.steps },
      rw q refl,
      λ j known. put-known s.steps step_id j (update step) known,
    )

-- A changed run, returned with its events.
returned-Recovers :
    (s t : WorkflowRunState) (changed : Result StateError WorkflowRunState)
    (events : List WorkflowEventBody)
    → changed ≡ ok t
    → KeepsSteps s t
    → Recovers s (changed >>= λ next. ok (next, events))
returned-Recovers s t changed events h kept = (t, events, rw h refl, kept)

recover_attempt-known :
    (s : WorkflowRunState) (attempt : WorkflowStepAttempt) (decision : InterruptedAttemptDecision)
    (now : String)
    → is_known s attempt.step_id ≡ true
    → Recovers s (recover_attempt s attempt decision now)
unfolding recover_attempt update_step_attempt
recover_attempt-known s attempt decision now h =
    let (step, q) = require_step-known s attempt.step_id h in
    elim (Option-cases (truthy_text decision.commit)) [
      | inl p ↦
          let reason = interruption_reason decision in
          let again = may_run_again decision attempt step.definition in
          let interrupt : WorkflowStepAttempt → WorkflowStepAttempt = λ attempt. record attempt {
            state = AttemptState.interrupted;
            finished_at = some now;
            error = some reason;
          } in
          let (t, updated, kept) =
            update_step-known (update_step_attempt s attempt.id interrupt) attempt.step_id
              (interrupt_record again reason) h in
          rw (q, p, recover_attempt) (returned-Recovers s t _ _ updated kept)
      | inr (commit, p) ↦
          let succeed : WorkflowStepRecord → WorkflowStepRecord =
            λ step. record step { state = StepRunState.succeeded } in
          let (t, updated, kept) =
            update_step-known (update_step_attempt s attempt.id (adopt_attempt commit decision now))
              attempt.step_id succeed h in
          rw (q, p, recover_attempt) (returned-Recovers s t _ _ updated kept)
    ]

has_step-kept :
    (s t : WorkflowRunState) (a : WorkflowStepAttempt)
    → KeepsSteps s t
    → has_step s a ≡ true
    → has_step t a ≡ true
has_step-kept s t a kept h = elim (Bool-cases (is_active_attempt_state a.state)) [
  | inl q ↦ rw q (kept a.step_id (rw q at h))
  | inr q ↦ rw q refl
]

recover_attempts-known :
    (s : WorkflowRunState) (attempts : List WorkflowStepAttempt)
    (decisions : Dict InterruptedAttemptDecision) (now : String)
    → All (λ a. has_step s a ≡ true) attempts
    → Recovers s (recover_attempts s attempts decisions now)
unfolding recover_attempts
recover_attempts-known s [] decisions now h = (s, [], refl, λ j known. known)
recover_attempts-known s (attempt ∷ attempts) decisions now h =
    elim (Bool-cases (is_active_attempt_state attempt.state)) [
      | inr q ↦ rw (q, recover_attempts) (recover_attempts-known s attempts decisions now h.1)
      | inl q ↦
          let decision = or_else (get attempt.id decisions) no_decision in
          let (one, first, done, kept) =
            recover_attempt-known s attempt decision now (rw q at h.0) in
          let (last, later, rest, kept_later) =
            recover_attempts-known one attempts decisions now
              (All-map _ _ attempts (λ a k. has_step-kept s one a kept k) h.1) in
          (
            last,
            first ++ later,
            rw (q, done, rest, recover_attempts) refl,
            λ j known. kept_later j (kept j known),
          )
    ]

-- If the step of every active attempt is stored in the run, the recovery transaction returns a
-- run, whatever was decided of the attempts.
pub recover_transaction-returns :
    (s : WorkflowRunState) (decisions : Dict InterruptedAttemptDecision) (now : String)
    → All (λ a. has_step s a ≡ true) s.attempts
    → (t : WorkflowRunState) × (recover_transaction s decisions now ≡ ok t)
unfolding recover_transaction
recover_transaction-returns s decisions now h =
    let (next, events, done, _) = recover_attempts-known s s.attempts decisions now h in
    (finish_recovery s next events now, rw done refl)
