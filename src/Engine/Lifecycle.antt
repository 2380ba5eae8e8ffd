-- ===== src/Engine/Lifecycle.antt =====
-- src/engine/engine.ts: `cancel` and `settleRun`.
pub mod Final
use pi_build_conductor.Prelude.{
  ℕ, suc, String, Bool, true, false, not, ◌&&◌, ◌||◌, List, [], ◌∷◌, ◌++◌, Option, none, some,
  is_some, Dict, values, all, any, map, filter, length, ltb, if◌then◌else◌,
}
use pi_build_conductor.Engine.State.{
  StepRunState, WorkflowRunLifecycleState, WorkflowStepRecord, WorkflowRunState, WorkflowEventBody,
  is_terminal_step_state, step_cancelled, run_cancellation_requested, run_settled,
}
use pi_build_conductor.Engine.Events.{append_workflow_event, append_workflow_events}
use pi_build_conductor.Engine.Scheduler.{run_is_running, is_succeeded, reconcile_workflow_steps}

-- The transaction of `cancel`.
unfoldable pub request_cancellation : WorkflowRunState → String → String → WorkflowRunState
request_cancellation current reason now =
    append_workflow_event current (run_cancellation_requested reason) now

abbrev pub is_cancelled : StepRunState → Bool
is_cancelled StepRunState.cancelled = true
is_cancelled _ = false

-- The states that a cancelled run leaves as they are.
abbrev pub survives_cancellation : StepRunState → Bool
survives_cancellation StepRunState.succeeded = true
survives_cancellation StepRunState.failed = true
survives_cancellation StepRunState.cancelled = true
survives_cancellation _ = false

unfoldable pub cancel_unfinished : Dict WorkflowStepRecord → Dict WorkflowStepRecord
cancel_unfinished [] = []
cancel_unfinished ((step_id, step) ∷ steps) =
    (
      step_id,
      if survives_cancellation step.state
          then step
          else record step { state = StepRunState.cancelled },
    )
    ∷ cancel_unfinished steps

unfoldable pub cancellation_events : Dict WorkflowStepRecord → List WorkflowEventBody
cancellation_events [] = []
cancellation_events ((step_id, step) ∷ steps) =
    let rest = cancellation_events steps in
    if survives_cancellation step.state then rest else step_cancelled step_id none none ∷ rest

abbrev pub may_cancel : Bool → WorkflowRunLifecycleState → Bool
may_cancel cancelled WorkflowRunLifecycleState.running = cancelled
may_cancel cancelled WorkflowRunLifecycleState.cancelled = true
may_cancel cancelled _ = false

abbrev pub states_of : Dict WorkflowStepRecord → List StepRunState
states_of [] = []
states_of ((step_id, step) ∷ steps) = step.state ∷ states_of steps

abbrev pub has_unfinished : Dict WorkflowStepRecord → Bool
has_unfinished steps = any (λ state. not (is_terminal_step_state state)) (states_of steps)

-- The lifecycle state that a run settles to.
unfoldable pub final_state :
    WorkflowRunLifecycleState → Dict WorkflowStepRecord → WorkflowRunLifecycleState
final_state WorkflowRunLifecycleState.running steps =
    if has_unfinished steps
    then WorkflowRunLifecycleState.failed
    else if all is_succeeded (states_of steps)
    then WorkflowRunLifecycleState.completed
    else if any is_cancelled (states_of steps)
    then WorkflowRunLifecycleState.cancelled
    else WorkflowRunLifecycleState.failed
final_state state steps = state

abbrev is_failed_run : WorkflowRunLifecycleState → Bool
is_failed_run WorkflowRunLifecycleState.failed = true
is_failed_run _ = false

unfoldable pub stop_error : WorkflowRunLifecycleState → Dict WorkflowStepRecord → Option String
stop_error state steps =
    if is_failed_run state && has_unfinished steps
    then some "The workflow stopped while steps were still waiting to run"
    else none

abbrev replace_error : Option String → Option String → Option String
replace_error old none = old
replace_error old (some error) = some error

-- The transaction of `settleRun`.
unfoldable pub settle_run : WorkflowRunState → Bool → String → WorkflowRunState
unfolding cancel_unfinished cancellation_events final_state stop_error
settle_run current cancelled now =
    let reconciled = reconcile_workflow_steps current in
    let cancelling = may_cancel cancelled reconciled.state in
    let steps = if cancelling then cancel_unfinished reconciled.steps else reconciled.steps in
    let events = if cancelling then cancellation_events reconciled.steps else [] in
    let state = final_state reconciled.state steps in
    let error = stop_error state steps in
    append_workflow_events
      (record reconciled {
        steps = steps;
        state = state;
        error = replace_error reconciled.error error;
        updated_at = now;
      })
      (events ++ run_settled state error ∷ []) now
