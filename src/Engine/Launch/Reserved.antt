-- ===== src/Engine/Launch/Reserved.antt =====
-- src/engine/engine.ts: what the transaction that reserves a step checks and stores.
use pi_build_conductor.Prelude.{
  String, Bool, true, false, List, [], ◌∷◌, ◌++◌, some, get, get-put, beq_refl, includes, string_eq,
  ◌≡◌, refl, ◌∙◌, ap, subst, inl, inr, Bool-cases, ok, bound, ok-injective,
}
use pi_build_conductor.Engine.State.{
  StepRunState, WorkflowStepAttempt, WorkflowStepRecord, WorkflowRunState, update_step,
}
use pi_build_conductor.Engine.Scheduler.{launchable_step_ids}
use pi_build_conductor.Engine.Launch.{reserve_step, start_record}
use pi_build_conductor.Engine.Events.Kept.{append-same_steps, append-same_attempts}
use pi_build_conductor.Engine.State.Updates.{update_step-eq-ok}

-- Whether the step of the attempt may start in `s`.
abbrev pub MayStart : WorkflowRunState → String → Type 0
MayStart s step_id =
    (ids : List String) × (launchable_step_ids s ≡ ok ids) × (includes step_id ids ≡ true)

-- `next` is the record of `step` after it was started with the attempt: it runs, the attempt is its
-- last one, and the rest is as before.
pub record IsStarted (attempt_id : String) (step next : WorkflowStepRecord) : Type 0 where
  pub runs : next.state ≡ StepRunState.running
  pub last_attempt : next.attempt_ids ≡ step.attempt_ids ++ attempt_id ∷ []
  pub same_definition : next.definition ≡ step.definition
  pub same_commit : next.integrated_commit ≡ step.integrated_commit
  pub same_integration_error : next.integration_error ≡ step.integration_error
  pub same_error : next.error ≡ step.error

-- A refused reservation changes nothing; a reserved step could start, runs, and has the attempt as
-- its last one.
abbrev pub IsReserved : WorkflowRunState → WorkflowRunState → WorkflowStepAttempt → Bool → Type 0
IsReserved s t attempt false = t ≡ s
IsReserved s t attempt true =
    MayStart s attempt.step_id
    × (t.attempts ≡ s.attempts ++ attempt ∷ [])
    × (step : WorkflowStepRecord) × (get attempt.step_id s.steps ≡ some step)
    × (next : WorkflowStepRecord) × (get attempt.step_id t.steps ≡ some next)
    × IsStarted attempt.id step next

started : (id : String) (step : WorkflowStepRecord) → IsStarted id step (start_record id step)
started id step = record {
  runs = refl;
  last_attempt = refl;
  same_definition = refl;
  same_commit = refl;
  same_integration_error = refl;
  same_error = refl;
}

-- If the reserving transaction returns, a refused reservation changes nothing, and an accepted
-- one was of a step that could start in the same state: the attempt is added as the last one of
-- the run, the stored step is running with the attempt as its last one, and nothing else of the
-- step's record changed.
pub reserve_step-IsReserved :
    (s t : WorkflowRunState) (attempt : WorkflowStepAttempt) (now : String) (stored : Bool)
    → reserve_step s attempt now ≡ ok (t, stored)
    → IsReserved s t attempt stored
unfolding reserve_step
reserve_step-IsReserved s t attempt now stored h =
    let (ids, listed, e) = bound {m = launchable_step_ids s} h in
    elim (Bool-cases (includes attempt.step_id ids)) [
      | inl q ↦
          let (next, updated, k) =
            bound {m = update_step s attempt.step_id (start_record attempt.id)} (rw q at e) in
          let (step, found, same) =
            update_step-eq-ok s next attempt.step_id (start_record attempt.id) updated in
          let done = ok-injective k in
          subst (λ r. IsReserved s r.0 attempt r.1) done
            (
              (ids, listed, q),
              append-same_attempts _ _ now,
              step,
              found,
              start_record attempt.id step,
              ap (λ m. get attempt.step_id m) (append-same_steps _ _ now)
                  ∙ ap (λ n. get attempt.step_id n.steps) same
                  ∙ get-put attempt.step_id attempt.step_id (start_record attempt.id step) s.steps
                  ∙ rw (beq_refl attempt.step_id) refl,
              started attempt.id step,
            )
      | inr q ↦ subst (λ r. IsReserved s r.0 attempt r.1) (ok-injective (rw q at e)) refl
    ]
