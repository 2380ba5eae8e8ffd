-- ===== src/Engine/Lifecycle/Final.antt =====
-- src/engine/engine.ts: what `settleRun` leaves behind.
use pi_build_conductor.Prelude.{
  String, Bool, true, false, not, List, [], ◌∷◌, Dict, all, any, ◌≡◌, ◌≢◌, ◌↔◌, refl, ◌∙◌, ap,
  arith, inl, inr, Bool-cases, if◌then◌else◌,
}
use pi_build_conductor.Engine.State.{
  StepRunState, WorkflowRunLifecycleState, WorkflowStepRecord, WorkflowRunState,
  is_terminal_step_state,
}
use pi_build_conductor.Engine.Events.Kept.{append-same_state, append-same_steps}
use pi_build_conductor.Engine.Scheduler.{is_succeeded, reconcile_workflow_steps}
use pi_build_conductor.Engine.Lifecycle.{
  cancel_unfinished, survives_cancellation, may_cancel, states_of, has_unfinished, final_state,
  settle_run, is_cancelled,
}

reconcile-same_state : (s : WorkflowRunState) → (reconcile_workflow_steps s).state ≡ s.state
unfolding reconcile_workflow_steps
reconcile-same_state s = refl

-- The steps that `settleRun` stores.
abbrev pub settled_steps : WorkflowRunState → Bool → Dict WorkflowStepRecord
settled_steps s cancelled =
    let reconciled = reconcile_workflow_steps s in
    if may_cancel cancelled reconciled.state
    then cancel_unfinished reconciled.steps
    else reconciled.steps

settle_run-steps :
    (s : WorkflowRunState) (cancelled : Bool) (now : String)
    → (settle_run s cancelled now).steps ≡ settled_steps s cancelled
unfolding settle_run
settle_run-steps s cancelled now = append-same_steps _ _ now

settle_run-state :
    (s : WorkflowRunState) (cancelled : Bool) (now : String)
    → (settle_run s cancelled now).state ≡ final_state s.state (settled_steps s cancelled)
unfolding settle_run
settle_run-state s cancelled now =
    append-same_state _ _ now
    ∙ ap (λ state. final_state state (settled_steps s cancelled)) (reconcile-same_state s)

final_state-keeps :
    (state : WorkflowRunLifecycleState) (steps : Dict WorkflowStepRecord)
    → state ≢ WorkflowRunLifecycleState.running
    → final_state state steps ≡ state
unfolding final_state
final_state-keeps WorkflowRunLifecycleState.running steps h = absurd (h refl)
final_state-keeps WorkflowRunLifecycleState.completed steps h = refl
final_state-keeps WorkflowRunLifecycleState.failed steps h = refl
final_state-keeps WorkflowRunLifecycleState.cancelled steps h = refl

-- If a run is not running, settling it keeps its state.
settle_run-keeps :
    (s : WorkflowRunState) (cancelled : Bool) (now : String)
    → s.state ≢ WorkflowRunLifecycleState.running
    → (settle_run s cancelled now).state ≡ s.state
settle_run-keeps s cancelled now h =
    settle_run-state s cancelled now ∙ final_state-keeps s.state (settled_steps s cancelled) h

all_succeeded_finished :
    (states : List StepRunState)
    → all is_succeeded states ≡ true
    → any (λ state. not (is_terminal_step_state state)) states ≡ false
all_succeeded_finished [] h = refl
all_succeeded_finished (StepRunState.succeeded ∷ states) h = all_succeeded_finished states h
all_succeeded_finished (StepRunState.planned ∷ states) h = absurd (cc)
all_succeeded_finished (StepRunState.ready ∷ states) h = absurd (cc)
all_succeeded_finished (StepRunState.running ∷ states) h = absurd (cc)
all_succeeded_finished (StepRunState.failed ∷ states) h = absurd (cc)
all_succeeded_finished (StepRunState.blocked ∷ states) h = absurd (cc)
all_succeeded_finished (StepRunState.cancelled ∷ states) h = absurd (cc)

-- The choice of the final state, for any three tests of which the second excludes the first.
choice :
    (unfinished succeeded cancelled : Bool)
    → (succeeded ≡ true → unfinished ≡ false)
    → (chosen : WorkflowRunLifecycleState)
    → chosen ≡ (
        if unfinished
        then WorkflowRunLifecycleState.failed
        else if succeeded
        then WorkflowRunLifecycleState.completed
        else if cancelled
        then WorkflowRunLifecycleState.cancelled
        else WorkflowRunLifecycleState.failed)
    → (chosen ≢ WorkflowRunLifecycleState.running)
      × ((chosen ≡ WorkflowRunLifecycleState.completed) ↔ (succeeded ≡ true))
choice true true c h chosen e = absurd (let bad = h refl in cc)
choice true false c h chosen e = (λ q. cc, (λ q. absurd (cc), λ q. absurd (cc)))
choice false true c h chosen e = (λ q. cc, (λ q. refl, λ q. e))
choice false false true h chosen e = (λ q. cc, (λ q. absurd (cc), λ q. absurd (cc)))
choice false false false h chosen e = (λ q. cc, (λ q. absurd (cc), λ q. absurd (cc)))

final_state-running :
    (steps : Dict WorkflowStepRecord)
    → (final_state WorkflowRunLifecycleState.running steps ≢ WorkflowRunLifecycleState.running)
      × ((final_state WorkflowRunLifecycleState.running steps ≡ WorkflowRunLifecycleState.completed)
          ↔ (all is_succeeded (states_of steps) ≡ true))
unfolding final_state
final_state-running steps =
    choice (has_unfinished steps) (all is_succeeded (states_of steps))
      (any is_cancelled (states_of steps)) (all_succeeded_finished (states_of steps))
      (final_state WorkflowRunLifecycleState.running steps) refl

-- If a run is running, after it settles it is not running any more, and it is completed exactly
-- if every step that is then stored has succeeded.
pub settle_run-completed_iff :
    (s : WorkflowRunState) (cancelled : Bool) (now : String)
    → s.state ≡ WorkflowRunLifecycleState.running
    → ((settle_run s cancelled now).state ≢ WorkflowRunLifecycleState.running)
      × (((settle_run s cancelled now).state ≡ WorkflowRunLifecycleState.completed)
          ↔ (all is_succeeded (states_of (settle_run s cancelled now).steps) ≡ true))
settle_run-completed_iff s cancelled now h =
    let settled =
      settle_run-state s cancelled now
      ∙ ap (λ state. final_state state (settled_steps s cancelled)) h in
    rw (settled, settle_run-steps s cancelled now) (final_state-running (settled_steps s cancelled))

cancel_unfinished-survives :
    (steps : Dict WorkflowStepRecord)
    → all survives_cancellation (states_of (cancel_unfinished steps)) ≡ true
unfolding cancel_unfinished
cancel_unfinished-survives [] = refl
cancel_unfinished-survives ((step_id, step) ∷ steps) =
    elim (Bool-cases (survives_cancellation step.state)) [
      | inl q ↦ ground (arith, cancel_unfinished-survives steps)
      | inr q ↦ ground (arith, cancel_unfinished-survives steps)
    ]

-- If a run is cancelled, or is running with a cancellation asked for, every step that it stores
-- when it settles has succeeded, failed or been cancelled.
pub settle_run-leaves_nothing :
    (s : WorkflowRunState) (cancelled : Bool) (now : String)
    → may_cancel cancelled s.state ≡ true
    → all survives_cancellation (states_of (settle_run s cancelled now).steps) ≡ true
settle_run-leaves_nothing s cancelled now h =
    rw (settle_run-steps s cancelled now, reconcile-same_state s, h)
      (cancel_unfinished-survives (reconcile_workflow_steps s).steps)
